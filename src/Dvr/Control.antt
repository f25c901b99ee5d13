-- ===== src/Dvr/Control.antt =====
-- Starting, cancelling and ending a capture in internal/dvr/recorder.go.
use cubozoa.Prelude.{
  ◌≤◌, ◌<◌, ◌≡◌, refl, ap, ◌∙◌, true, false, Option, none, some, ◌++◌, Str, codes, str_eq_refl,
  Result, ok, err, ltb, if◌then◌else◌, arith,
}
use cubozoa.Prelude.Map
use cubozoa.Prelude.Map.{Map, get, get-remove, has, has-put_self}
use cubozoa.Store.Models.{Time, Recording, scheduled, recording, completed, failed, cancelled}
use cubozoa.Store.State.{StoreError, not_found}
use cubozoa.Store.Playback.{get_recording}
use cubozoa.Dvr.Recorder.{Env, Recorder, save, maybe_start, finalize, cancel, tick_one}
use cubozoa.Dvr.Lifecycle.{recs, get-save}

abbrev answer : Option Recording → Result StoreError Recording
answer none = err not_found
answer (some rec) = ok rec

found_of_get :
    (id : Str) (rec : Recording) (r : Recorder)
    → get id (recs r) ≡ some rec
    → get_recording id r.store ≡ ok rec
unfolding get_recording
found_of_get id rec r g = ap answer g

get-save_self :
    (rec old : Recording) (r : Recorder)
    → get rec.id (recs r) ≡ some old
    → get rec.id (recs (save rec r)) ≡ some rec
get-save_self rec old r g = get-save rec old rec.id r g ∙ (rw (str_eq_refl rec.id))

module _ (env : Env) (now : Time) where
  -- The capture that a start leaves running.
  abbrev pub started : Recorder → Recording → Recording
  started r rec = record rec { path = env.join r.dir (rec.id ++ codes ".ts"); status = recording }

  -- A start that succeeds: the recording is due, it is not running, its channel has a stream and
  -- ffmpeg starts.
  pub record Startable (r : Recorder) (rec : Recording) : Type 0 where
    pub begun : rec.start_at ≤ now
    pub open_end : now < rec.end_at
    pub idle : has rec.id r.active ≡ false
    pub url : Str
    pub stream : env.stream_url rec.channel_id ≡ some url
    pub starts : env.start_ok rec.id ≡ true

  start_eq :
      (r : Recorder) (rec : Recording)
      → Startable r rec
      → maybe_start env now rec r
        ≡ (started r rec, save (started r rec) (record r { active = Map.put rec.id tt r.active }))
  unfolding maybe_start
  start_eq r rec h = ground (arith, h.idle, h.stream, h.starts)

  start_running :
      (later : Time) (r : Recorder) (rec : Recording)
      → has rec.id r.active ≡ true
      → maybe_start env later rec r ≡ (rec, r)
  unfolding maybe_start
  start_running later r rec h = ground (arith, h)

  -- While a capture runs, the same recording is not started again: a second start changes nothing.
  maybe_start_once :
      (later : Time) (r : Recorder) (rec : Recording)
      → Startable r rec
      → maybe_start env later rec (maybe_start env now rec r).1
        ≡ (rec, (maybe_start env now rec r).1)
  maybe_start_once later r rec h =
      rw (start_eq r rec h) (start_running later _ rec (has-put_self rec.id tt r.active))

  cancel_eq :
      (r : Recorder) (rec : Recording)
      → get rec.id (recs r) ≡ some rec
      → rec.status ≡ scheduled
      → has rec.id r.active ≡ false
      → (cancel rec.id r).1 ≡ save (record rec { status = cancelled }) r
  unfolding cancel
  cancel_eq r rec g p i = ground (arith, found_of_get rec.id rec r g, p, i)

  tick_start :
      (r : Recorder) (rec : Recording)
      → Startable r rec
      → tick_one env now rec r
        ≡ save (started r rec) (record r { active = Map.put rec.id tt r.active })
  unfolding tick_one
  tick_start r rec h = ground (arith, start_eq r rec h, h.begun, h.open_end)

  -- A cancellation between the moment at which the scheduler lists a due recording and the moment at
  -- which it starts it is lost: the store had it as cancelled, and then has it as recording, with a
  -- capture that runs.
  pub cancel_lost :
      (r : Recorder) (rec : Recording)
      → get rec.id (recs r) ≡ some rec
      → rec.status ≡ scheduled
      → Startable r rec
      → (get rec.id (recs (cancel rec.id r).1) ≡ some (record rec { status = cancelled }))
        × ((get rec.id (recs (tick_one env now rec (cancel rec.id r).1)) ≡ some (started r rec))
            × (has rec.id (tick_one env now rec (cancel rec.id r).1).active ≡ true))
  cancel_lost r rec g p h =
      let c = record rec { status = cancelled } in
      let r₁ = save c r in
      let ready : Startable r₁ rec = record {
        begun = h.begun;
        open_end = h.open_end;
        idle = h.idle;
        url = h.url;
        stream = h.stream;
        starts = h.starts;
      } in
      let kept : get rec.id (recs r₁) ≡ some c = get-save_self c rec r g in
      rw (cancel_eq r rec g p h.idle) (
        kept,
        rw (tick_start r₁ rec ready) (
          get-save_self (started r rec) c (record r₁ { active = Map.put rec.id tt r₁.active }) kept,
          has-put_self rec.id tt r.active,
        ),
      )

  ended : Recording → Recording
  ended rec = record rec {
    status = elim (env.file_size rec.path) [
      | none ↦ failed
      | some size ↦ if ltb 0 size then completed else failed
    ];
  }

  finalize_eq :
      (r : Recorder) (rec : Recording)
      → get rec.id (recs r) ≡ some rec
      → rec.status ≡ recording
      → finalize env rec.id r ≡ save (ended rec) (record r { active = Map.remove rec.id r.active })
  unfolding finalize ended
  finalize_eq r rec g p = ground (arith, found_of_get rec.id rec r g, p)

  finalize_running :
      (r : Recorder) (rec : Recording)
      → get rec.id (recs r) ≡ some rec
      → rec.status ≡ recording
      → (has rec.id (finalize env rec.id r).active ≡ false)
        × (get rec.id (recs (finalize env rec.id r)) ≡ some (ended rec))
  unfolding ended
  finalize_running r rec g p = rw (finalize_eq r rec g p) (
    ground (arith, get-remove rec.id rec.id r.active, str_eq_refl rec.id),
    get-save_self (ended rec) rec (record r { active = Map.remove rec.id r.active }) g,
  )

  -- From a start to its end: the recording is completed exactly if the file holds something, it
  -- fails otherwise, and no capture is left running for it.
  finalize-maybe_start :
      (r : Recorder) (rec : Recording)
      → get rec.id (recs r) ≡ some rec
      → Startable r rec
      → (has rec.id (finalize env rec.id (maybe_start env now rec r).1).active ≡ false)
        × (get rec.id (recs (finalize env rec.id (maybe_start env now rec r).1))
            ≡ some (record (started r rec) {
              status = elim (env.file_size (started r rec).path) [
                | none ↦ failed
                | some size ↦ if ltb 0 size then completed else failed
              ];
            }))
  unfolding ended
  finalize-maybe_start r rec g h =
      let claimed = record r { active = Map.put rec.id tt r.active } in
      let r₁ = save (started r rec) claimed in
      let kept : get rec.id (recs r₁) ≡ some (started r rec) =
        get-save_self (started r rec) rec claimed g in
      rw (start_eq r rec h) (finalize_running r₁ (started r rec) kept refl)
