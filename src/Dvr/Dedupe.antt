-- ===== src/Dvr/Dedupe.antt =====
-- What `expandSeries` of internal/dvr/recorder.go does with an airing that is covered.
use cubozoa.Prelude.{◌≡◌, refl, ap, ◌∙◌, true, some, List, [], ◌∷◌, ok, arith, All}
use cubozoa.Prelude.Map
use cubozoa.Prelude.Map.{Map, has, has-put_self, get, get-put}
use cubozoa.Host.{Host}
use cubozoa.Store.Models.{Time, Recording, SeriesTimer}
use cubozoa.Store.Playback.{list_recordings}
use cubozoa.Dvr.Recorder.{Env, Recorder}
use cubozoa.Dvr.Series.{
  Airing, Covered, schedule_from_airing, wanted, expand_airing, expand_timer, expand_timers,
  covered_by, expand_series,
}

module _ (host : Host) (env : Env) (now : Time) where
  -- A covered airing is passed over.
  expand_covered :
      (st : SeriesTimer) (a : Airing) (covered : Covered) (r : Recorder)
      → has a.program_id covered ≡ true
      → expand_airing host env now st a (covered, r) ≡ (covered, r)
  unfolding expand_airing wanted
  expand_covered st a covered r h = ground (arith, h)

  expand_wanted :
      (st : SeriesTimer) (a : Airing) (covered : Covered) (r : Recorder) {rec : Recording}
      → wanted host now st covered a ≡ true
      → (schedule_from_airing env now st a r).0 ≡ ok rec
      → expand_airing host env now st a (covered, r)
        ≡ (Map.put a.program_id tt covered, (schedule_from_airing env now st a r).1)
  unfolding expand_airing
  expand_wanted st a covered r w s = ground (arith, w, s)

  -- An airing that is scheduled is covered from then on: met again, under this timer or any other, it
  -- is passed over.
  expand_airing_once :
      (st other : SeriesTimer) (a : Airing) (covered : Covered) (r : Recorder) {rec : Recording}
      → wanted host now st covered a ≡ true
      → (schedule_from_airing env now st a r).0 ≡ ok rec
      → expand_airing host env now other a (expand_airing host env now st a (covered, r))
        ≡ expand_airing host env now st a (covered, r)
  expand_airing_once st other a covered r {rec} w s =
      rw (expand_wanted st a covered r w s)
        (expand_covered other a _ _ (has-put_self a.program_id tt covered))

  timer_covered :
      (st : SeriesTimer) (airings : List Airing) (covered : Covered) (r : Recorder)
      → All (λ (a : Airing). has a.program_id covered ≡ true) airings
      → expand_timer host env now st airings (covered, r) ≡ (covered, r)
  unfolding expand_timer
  timer_covered st [] covered r h = refl
  timer_covered st (a ∷ airings) covered r (h, hs) =
      ap (expand_timer host env now st airings) (expand_covered st a covered r h)
      ∙ timer_covered st airings covered r hs

  timers_covered :
      (sts : List SeriesTimer) (airings : List Airing) (covered : Covered) (r : Recorder)
      → All (λ (a : Airing). has a.program_id covered ≡ true) airings
      → expand_timers host env now sts airings (covered, r) ≡ (covered, r)
  unfolding expand_timers
  timers_covered [] airings covered r h = refl
  timers_covered (st ∷ sts) airings covered r h =
      ap (expand_timers host env now sts airings) (timer_covered st airings covered r h)
      ∙ timers_covered sts airings covered r h

  -- Where the store has a recording for every airing, whatever its status, an expansion changes
  -- nothing: cancelled and failed recordings are not scheduled again.
  pub expand_series_covered :
      (airings : List Airing) (r : Recorder)
      → All
          (λ (a : Airing). has a.program_id (covered_by (list_recordings r.store) []) ≡ true)
          airings
      → expand_series host env now (some airings) r ≡ r
  unfolding expand_series
  expand_series_covered airings r h =
      ap (λ (acc : Covered × Recorder). acc.1) (timers_covered _ airings _ r h)
