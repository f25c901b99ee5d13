-- ===== src/Transcode/Hls/Stuck.antt =====
-- Sessions of internal/transcode/hls.go whose ffmpeg has exited: `ensure` asks whether the key is in the
-- table, not whether its process runs.
use cubozoa.Prelude.{◌≡◌, some, Str}
use cubozoa.Prelude.Map
use cubozoa.Prelude.Map.{Map}
use cubozoa.Store.Models.{Time}
use cubozoa.Transcode.Hls.Manager.{Session, Manager, get_session}
use cubozoa.Transcode.Hls.Polled.{Polled}

-- A session that is there is given, and counts as used.
pub get_session_found :
    (now : Time) (key : Str) (m : Manager) (sess : Session)
    → Map.get key m.sessions ≡ some sess
    → get_session now key m ≡ (
      some (record sess { last_access = now }),
      record m { sessions = Map.put key (record sess { last_access = now }) m.sessions },
    )
unfolding get_session
get_session_found now key m sess e = rw (e, get_session)
