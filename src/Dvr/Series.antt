-- ===== src/Dvr/Series.antt =====
-- Series timers in internal/dvr/recorder.go: upcoming airings become recordings.
use cubozoa.Prelude.{
  ◌+◌, Bool, false, not, ◌&&◌, ◌||◌, Option, none, some, List, [], ◌∷◌, Str, is_empty, str_eq,
  Result, ok, err, ltb, if◌then◌else◌,
}
use cubozoa.Prelude.Map
use cubozoa.Prelude.Map.{Map, has}
use cubozoa.Host.{Host}
use cubozoa.Store.Models.{Time, Recording, SeriesTimer}
use cubozoa.Store.State.{StoreError}
use cubozoa.Store.Playback.{
  create_series_timer, list_recordings, list_series_timers, delete_series_timer,
}
use cubozoa.Dvr.Recorder.{
  Env, Recorder, DvrError, needs_name, no_random, store_error, save, schedule,
}
use cubozoa.Dvr.Title.{normalize_title, title_matches}

pub record Airing : Type 0 where
  pub program_id : Str
  pub channel_id : Str
  pub channel_name : Str
  pub title : Str
  pub start : Time
  pub stop : Time

-- The set of program identities that a recording covers.
abbrev pub Covered : Type 0
Covered = Map (Unit {0})

unfoldable pub schedule_from_airing :
    Env → Time → SeriesTimer → Airing → Recorder → Result DvrError Recording × Recorder
schedule_from_airing env now st a r =
    let done = schedule env now a.channel_id a.channel_name a.program_id a.title a.start a.stop r in
    elim done.0 [
      | err e ↦ (err e, done.1)
      | ok rec ↦
          let linked = record rec { series_timer_id = st.id } in (ok linked, save linked done.1)
    ]

-- The three tests of the inner loop: over or covered, another channel, another title.
unfoldable pub wanted : Host → Time → SeriesTimer → Covered → Airing → Bool
wanted host now st covered a =
    if ltb a.stop now || (is_empty a.program_id || has a.program_id covered)
    then false
    else if not st.record_any_channel
        && (not (is_empty st.channel_id) && not (str_eq a.channel_id st.channel_id))
    then false
    else title_matches (normalize_title host a.title) (normalize_title host st.name)

unfoldable pub expand_airing :
    Host → Env → Time → SeriesTimer → Airing → Covered × Recorder → Covered × Recorder
expand_airing host env now st a (covered, r) =
    let done = schedule_from_airing env now st a r in
    if wanted host now st covered a
    then (elim done.0 [ err _ ↦ covered | ok _ ↦ Map.put a.program_id tt covered ], done.1)
    else (covered, r)

unfoldable pub expand_timer :
    Host → Env → Time → SeriesTimer → List Airing → Covered × Recorder → Covered × Recorder
expand_timer host env now st [] acc = acc
expand_timer host env now st (a ∷ airings) acc =
    expand_timer host env now st airings (expand_airing host env now st a acc)

unfoldable pub expand_timers :
    Host → Env → Time → List SeriesTimer → List Airing → Covered × Recorder → Covered × Recorder
expand_timers host env now [] airings acc = acc
expand_timers host env now (st ∷ sts) airings acc =
    expand_timers host env now sts airings (expand_timer host env now st airings acc)

-- The programs that the store's recordings cover.
unfoldable pub covered_by : List Recording → Covered → Covered
covered_by [] m = m
covered_by (rec ∷ recs) m =
    covered_by recs (if is_empty rec.program_id then m else Map.put rec.program_id tt m)

-- `programs` is the program source's answer for the next 14 days, or `none` when there is no source.
unfoldable pub expand_series : Host → Env → Time → Option (List Airing) → Recorder → Recorder
expand_series host env now none r = r
expand_series host env now (some airings) r =
    (expand_timers host env now (list_series_timers r.store) airings
      (covered_by (list_recordings r.store) [], r)).1

unfoldable schedule_series :
    Host
    → Env
    → Time
    → Option (List Airing)
    → Str
    → Str
    → Str
    → Bool
    → Recorder
    → Result DvrError SeriesTimer × Recorder
schedule_series host env now programs channel_id channel_name name record_any r =
    let drawn = record r { draws = r.draws + 1 } in
    if is_empty name then (err needs_name, r) else elim (env.new_id r.draws) [
      | none ↦ (err no_random, drawn)
      | some id ↦
          let st : SeriesTimer = record {
            id = id;
            channel_id = channel_id;
            channel_name = channel_name;
            name = name;
            record_any_channel = record_any;
            created_at = now;
          } in
          let done = create_series_timer st r.store in
          let stored = record drawn { store = done.1 } in
          elim done.0 [
            | err e ↦ (err (store_error e), stored)
            | ok _ ↦ (ok st, expand_series host env now programs stored)
          ]
    ]

unfoldable cancel_series : Str → Recorder → Result StoreError Unit × Recorder
cancel_series id r =
    let done = delete_series_timer id r.store in (done.0, record r { store = done.1 })
