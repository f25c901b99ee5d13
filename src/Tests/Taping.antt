-- ===== src/Tests/Taping.antt =====
-- The recorder's theorems at concrete recordings.
use cubozoa.Prelude.{◌≡◌, refl, true, some, codes, str_eq, str_eq_iff, arith}
use cubozoa.Prelude.Map.{get, has}
use cubozoa.Store.Models.{Recording, scheduled, cancelled}
use cubozoa.Dvr.Recorder.{cancel, tick_one, tick}
use cubozoa.Dvr.Lifecycle.{recs, Moves}
use cubozoa.Dvr.Round.{tick-Moves}
use cubozoa.Dvr.Control.{Startable, started, cancel_lost}
use cubozoa.Tests.Fixtures.{env, recorder, news}

tick-Moves_example :
    (new : Recording) × (get (codes "r1") (recs (tick env 12 recorder)) ≡ some new)
    × Moves scheduled new.status
unfolding get str_eq
tick-Moves_example =
    tick-Moves env 12 recorder (codes "r1") news (refl, tt)
      (λ k v g. ground (arith, str_eq_iff (codes "r1") k)) refl

news-Startable : Startable env 12 recorder news
unfolding get
news-Startable = record {
  begun = ground arith;
  open_end = ground arith;
  idle = refl;
  url = codes "http://tuner";
  stream = refl;
  starts = refl;
}

cancel_lost_example :
    (get (codes "r1") (recs (cancel (codes "r1") recorder).1)
      ≡ some (record news { status = cancelled }))
    × ((get (codes "r1") (recs (tick_one env 12 news (cancel (codes "r1") recorder).1))
          ≡ some (started env 12 recorder news))
        × (has (codes "r1") (tick_one env 12 news (cancel (codes "r1") recorder).1).active ≡ true))
unfolding get str_eq
cancel_lost_example = cancel_lost env 12 recorder news refl refl news-Startable
