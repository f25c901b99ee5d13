-- ===== src/Transcode/Hls/Supervision.antt =====
-- The invariant of the session table of internal/transcode/hls.go over its calls.
use cubozoa.Prelude.{◌≡◌, false, Str, is_empty}
use cubozoa.Prelude.Map
use cubozoa.Prelude.Map.{
  Map, IsMap, values, any-put, any-remove, any-of-get, length-put_new, length-put_old,
  length-remove, put-IsMap, remove-IsMap, get-put_self,
}
use cubozoa.Transcode.Hls.Manager.{Manager}
use cubozoa.Transcode.Hls.Calls.{Call, ensuring, reading}

module _ (join : Str → Str → Str) (session_dir : Str → Str) where
  -- What the callers owe: a key that is not empty.
  abbrev pub Admits : Call → Type 0
  Admits (ensuring now key args start) = is_empty key ≡ false
  Admits (reading now key) = is_empty key ≡ false
  Admits _ = Unit
