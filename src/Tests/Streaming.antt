-- ===== src/Tests/Streaming.antt =====
-- The transcode sessions at a small table.
use cubozoa.Prelude.{
  ℕ, Bool, ltb, ◌+◌, ◌*◌, ◌≡◌, true, false, none, some, List, [], ◌∷◌, ◌++◌, Str, codes, Result,
  arith,
}
use cubozoa.Transcode.Hls.Manager.{Session, Manager, Start, HlsError, new_manager}
use cubozoa.Transcode.Hls.Wait.{Poll, playlist}
use cubozoa.Transcode.Hls.Calls.{Call, ensuring, reading, reaping, closing}
use cubozoa.Transcode.Hls.Patience.{IsText, pause, playlist_answers}

abbrev pub slash : Str → Str → Str
slash a b = a ++ (b'/' ∷ b)

abbrev pub started : Start
started = record { mkdir_ok = true; pid = some 7 }

abbrev calls : List Call
calls =
    ensuring 5 (codes "i1:0:720") (λ d. d ∷ []) started
    ∷ reading 6 (codes "i1:0:720")
    ∷ reaping 7
    ∷ closing true
    ∷ []

-- The directory of the session cannot be removed at first.
abbrev hesitant : ℕ → Str → Bool
hesitant n d = ltb 1 n

abbrev pub manager : Manager
manager = new_manager hesitant true [] (codes "/tmp/hls")

-- Two sessions, the second one used first.
abbrev first_session : Session
first_session = record { id = codes "a"; dir = codes "/h/a"; pid = 1; last_access = 9 }

abbrev pub second_session : Session
second_session = record { id = codes "b"; dir = codes "/h/b"; pid = 2; last_access = 4 }

abbrev pub table : Manager
table = record {
  base_dir = codes "/h";
  sessions = (codes "a", first_session) ∷ (codes "b", second_session) ∷ [];
  max_sessions = 3;
  idle_timeout = 10;
  dirs = codes "/h/a" ∷ codes "/h/b" ∷ [];
  processes = [];
  cancelled = [];
  removes = λ n d. true;
  removals = 0;
}

-- ffmpeg neither writes nor exits.
abbrev silent : ℕ → Poll
silent n = record { at = 100 + n * pause; content = none; exited = false; after_exit = none }

playlist_answers_example :
    (r : Result HlsError Str) × ((playlist 102 100 (codes "a") silent table).0 ≡ some r) × IsText r
playlist_answers_example = playlist_answers 100 (codes "a") silent table (λ n. omega arith)
