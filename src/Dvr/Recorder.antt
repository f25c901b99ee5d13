-- ===== src/Dvr/Recorder.antt =====
-- internal/dvr/recorder.go: schedules and runs recordings. Each call holds one instant `now`; what it
-- asks of the system around it is in `Env`. A capture that runs is an entry of `active`; its end is the
-- call of `finalize`.
use cubozoa.Prelude.{
  ℕ, ◌+◌, ◌-◌, ◌/◌, Bool, true, false, not, ◌||◌, Option, none, some, List, [], ◌∷◌, ◌++◌, Str,
  codes, is_empty, str_eq, has_prefix, Result, ok, err, ltb, leb, if◌then◌else◌, keep,
}
use cubozoa.Prelude.Map
use cubozoa.Prelude.Map.{Map, has}
use cubozoa.Store.Models.{
  Time, Recording, RecStatus, scheduled, recording, completed, failed, cancelled,
}
use cubozoa.Store.State.{JsonStore, StoreError}
use cubozoa.Store.Playback.{create_recording, get_recording, list_recordings, update_recording}

-- The channel source, whether ffmpeg starts, the size of a file that is there, `filepath.Join` and
-- `filepath.Rel`, and the identity that the n-th call of `NewID` draws.
pub record Env : Type 0 where
  pub stream_url : Str → Option Str
  pub start_ok : Str → Bool
  pub file_size : Str → Option ℕ
  pub join : Str → Str → Str
  pub rel : Str → Str → Option Str
  pub new_id : ℕ → Option Str

pub record Recorder : Type 0 where
  pub store : JsonStore
  pub active : Map (Unit {0})
  pub dir : Str
  -- how often an identity was drawn
  pub draws : ℕ

pub data DvrError : Type 0 where
  invalid_window needs_name no_random : DvrError
  store_error : StoreError → DvrError

-- `_ = r.store.UpdateRecording(rec)`
abbrev pub save : Recording → Recorder → Recorder
save rec r = record r { store = (update_recording rec r.store).1 }

-- `rec` is changed through its pointer, so the new record comes back beside the recorder.
unfoldable pub maybe_start : Env → Time → Recording → Recorder → Recording × Recorder
maybe_start env now rec r =
    let started = record rec {
      path = env.join r.dir (rec.id ++ codes ".ts");
      status = recording;
    } in
    let running = save started (record r { active = Map.put rec.id tt r.active }) in
    let broken = record started { status = failed } in
    if ltb now rec.start_at || leb rec.end_at now
    then (rec, r)
    else if has rec.id r.active
    then (rec, r)
    else elim (env.stream_url rec.channel_id) [
      | none ↦ (record rec { status = failed }, save (record rec { status = failed }) r)
      | some _ ↦
          if env.start_ok rec.id
          then (started, running)
          else (broken, save broken (record running { active = Map.remove rec.id running.active }))
    ]

-- A capture is asked for at least one second.
unfoldable capture_seconds : Time → Recording → ℕ
capture_seconds now rec =
    let secs = (rec.end_at - now) / 1_000_000_000 in if ltb secs 1 then 1 else secs

unfoldable pub finalize : Env → Str → Recorder → Recorder
finalize env id r =
    let stopped = record r { active = Map.remove id r.active } in
    elim (get_recording id r.store) [
      | err _ ↦ stopped
      | ok rec ↦ elim rec.status [
        | cancelled ↦ stopped
        | _ ↦ elim (env.file_size rec.path) [
          | none ↦ save (record rec { status = failed }) stopped
          | some size ↦
              save (record rec { status = if ltb 0 size then completed else failed }) stopped
        ]
      ]
    ]

unfoldable pub schedule :
    Env
    → Time
    → Str
    → Str
    → Str
    → Str
    → Time
    → Time
    → Recorder
    → Result DvrError Recording × Recorder
schedule env now channel_id channel_name program_id name start end r =
    let drawn = record r { draws = r.draws + 1 } in
    if ltb end now || leb end start then (err invalid_window, r) else elim (env.new_id r.draws) [
      | none ↦ (err no_random, drawn)
      | some id ↦
          let rec : Recording = record {
            id = id;
            channel_id = channel_id;
            channel_name = channel_name;
            program_id = program_id;
            name = name;
            path = [];
            start_at = start;
            end_at = end;
            status = scheduled;
            created_at = now;
            series_timer_id = [];
          } in
          let done = create_recording rec r.store in
          elim done.0 [
            | err e ↦ (err (store_error e), record drawn { store = done.1 })
            | ok _ ↦
                let begun = maybe_start env now rec (record drawn { store = done.1 }) in
                (ok begun.0, begun.1)
          ]
    ]

-- A running capture is told to stop, and its end finalizes the record; the answer `true` says so.
unfoldable pub cancel : Str → Recorder → Result StoreError Bool × Recorder
cancel id r = elim (get_recording id r.store) [
  | err e ↦ (err e, r)
  | ok rec ↦ if has id r.active then (ok true, r) else elim rec.status [
    | scheduled ↦
        let done = update_recording (record rec { status = cancelled }) r.store in
        (elim done.0 [ ok _ ↦ ok false | err e ↦ err e ], record r { store = done.1 })
    | _ ↦ (ok false, r)
  ]
]

abbrev pub has_status : RecStatus → Recording → Bool
has_status scheduled rec = elim rec.status [ scheduled ↦ true | _ ↦ false ]
has_status recording rec = elim rec.status [ recording ↦ true | _ ↦ false ]
has_status completed rec = elim rec.status [ completed ↦ true | _ ↦ false ]
has_status failed rec = elim rec.status [ failed ↦ true | _ ↦ false ]
has_status cancelled rec = elim rec.status [ cancelled ↦ true | _ ↦ false ]

unfoldable pub timers : Recorder → List Recording
timers r =
    keep (λ rec. has_status scheduled rec || has_status recording rec) (list_recordings r.store)

unfoldable pub recordings : Recorder → List Recording
recordings r = keep (has_status completed) (list_recordings r.store)

-- One recording of the scheduler's round, as the round's list holds it.
unfoldable pub tick_one : Env → Time → Recording → Recorder → Recorder
tick_one env now rec r =
    if leb rec.end_at now
    then save (record rec { status = failed }) r
    else if leb rec.start_at now
    then (maybe_start env now rec r).1
    else r

unfoldable pub tick_all : Env → Time → List Recording → Recorder → Recorder
tick_all env now [] r = r
tick_all env now (rec ∷ recs) r = tick_all env now recs (tick_one env now rec r)

unfoldable pub tick : Env → Time → Recorder → Recorder
tick env now r = tick_all env now (keep (has_status scheduled) (list_recordings r.store)) r

-- The loop of `resume` after a restart.
unfoldable pub resume_all : Env → Time → List Recording → Recorder → Recorder
resume_all env now [] r = r
resume_all env now (rec ∷ recs) r =
    resume_all env now recs
      (if ltb now rec.end_at then (maybe_start env now rec r).1 else finalize env rec.id r)

unfoldable pub resume : Env → Time → Recorder → Recorder
resume env now r = resume_all env now (keep (has_status recording) (list_recordings r.store)) r

-- `len(rel) >= 3 && rel[:3] == "../"`
unfoldable has_parent_escape : Str → Bool
has_parent_escape rel = str_eq rel (codes "..") || has_prefix rel (codes "../")

-- The file of a completed recording, if it lies in the recordings directory.
unfoldable stream_path : Env → Str → Recorder → Option Str
unfolding has_parent_escape
stream_path env id r = elim (get_recording id r.store) [
  | err _ ↦ none
  | ok rec ↦
      if not (has_status completed rec) || is_empty rec.path
      then none
      else elim (env.rel r.dir rec.path) [
        | none ↦ none
        | some rel ↦
            if str_eq rel (codes "..") || (has_prefix rel (codes "/") || has_parent_escape rel)
            then none
            else some rec.path
      ]
]
