-- ===== src/Transcode/Hls/Calls.antt =====
-- The calls of a session table of internal/transcode/hls.go as data, and their histories.
use cubozoa.Prelude.{ℕ, Bool, List, [], ◌∷◌, Str}
use cubozoa.Store.Models.{Time}
use cubozoa.Transcode.Hls.Manager.{
  Manager, Start, kill, reap, close, ensure, get_session, kill_process,
}

-- The calls of a manager, and a process that ends, by itself or since it was told to.
pub data Call : Type 0 where
  ensuring : Time → Str → (Str → List Str) → Start → Call
  reading : Time → Str → Call
  stopping : Str → Call
  reaping : Time → Call
  closing : Bool → Call
  exiting : ℕ → Call

module _ (join : Str → Str → Str) (session_dir : Str → Str) where
  unfoldable pub step : Call → Manager → Manager
  unfolding ensure get_session kill reap close
  step (ensuring now key args start) m = (ensure join session_dir now key args start m).1
  step (reading now key) m = (get_session now key m).1
  step (stopping key) m = kill key m
  step (reaping now) m = reap now m
  step (closing listed) m = close listed m
  step (exiting pid) m = record m { processes = kill_process pid m.processes }

  unfoldable pub run : List Call → Manager → Manager
  unfolding step
  run [] m = m
  run (c ∷ cs) m = run cs (step c m)
