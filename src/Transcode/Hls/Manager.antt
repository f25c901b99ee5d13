-- ===== src/Transcode/Hls/Manager.antt =====
-- The session table of internal/transcode/hls.go, with what it holds outside the program: the
-- directories below the base directory and the ffmpeg processes that run. The lock makes each method
-- one step. `session_dir` is sessionDir, a hash, and `join` is filepath.Join.
use cubozoa.Prelude.{
  ℕ, ◌+◌, ◌-◌, ◌*◌, Bool, not, ◌||◌, Option, none, some, List, [], ◌∷◌, Str, is_empty, str_eq, ltb,
  leb, ◌==◌, length, keep, Result, ok, err, if◌then◌else◌,
}
use cubozoa.Prelude.Map
use cubozoa.Prelude.Map.{Map}
use cubozoa.Store.Models.{Time}

-- One ffmpeg process, with its arguments.
pub record Process : Type 0 where
  pub pid : ℕ
  pub args : List Str

pub record Session : Type 0 where
  pub id : Str
  pub dir : Str
  -- The process that `cancel` kills.
  pub pid : ℕ
  pub last_access : Time

pub record Manager : Type 0 where
  pub base_dir : Str
  pub sessions : Map Session
  pub max_sessions : ℕ
  pub idle_timeout : ℕ
  pub dirs : List Str
  pub processes : List Process
  -- The processes whose context is cancelled: each is killed then, and ends some time later.
  pub cancelled : List ℕ
  -- Whether an attempt at removing a directory succeeds, by the number of the attempt, and how many
  -- attempts there were.
  pub removes : ℕ → Str → Bool
  pub removals : ℕ

pub data HlsError : Type 0 where
  unavailable session_failed not_ready invalid_name dir_failed start_failed : HlsError

abbrev pub remove_dir : Str → List Str → List Str
remove_dir d dirs = keep (λ x. not (str_eq x d)) dirs

abbrev pub kill_process : ℕ → List Process → List Process
kill_process pid ps = keep (λ (p : Process). not (p.pid == pid)) ps

-- `os.RemoveAll` of a directory; its error is ignored.
unfoldable pub remove_all : Str → Manager → Manager
remove_all d m = record m {
  dirs = if m.removes m.removals d then remove_dir d m.dirs else m.dirs;
  removals = m.removals + 1;
}

-- `killLocked`: the process is told to end, and nobody waits for it.
unfoldable pub kill : Str → Manager → Manager
unfolding remove_all
kill id m = elim (Map.get id m.sessions) [
  | none ↦ m
  | some sess ↦
      let m' = remove_all sess.dir (record m { cancelled = sess.pid ∷ m.cancelled }) in
      record m' { sessions = Map.remove id m'.sessions }
]

unfoldable pub remove_each : List Str → Manager → Manager
unfolding remove_all
remove_each [] m = m
remove_each (d ∷ ds) m = remove_each ds (remove_all d m)

-- `cleanDir`, with whether the directory can be read; both its callers ignore its error.
unfoldable pub clean_dir : Bool → Manager → Manager
unfolding remove_each
clean_dir listed m = if listed then remove_each m.dirs m else m

-- `NewManager`, after its checks of ffmpeg and the base directory; `stale` is what the base directory
-- holds of an earlier run. Times are in nanoseconds.
unfoldable pub new_manager : (ℕ → Str → Bool) → Bool → List Str → Str → Manager
unfolding clean_dir
new_manager removes listed stale base_dir = clean_dir listed (record {
  base_dir = base_dir;
  sessions = [];
  max_sessions = 4;
  idle_timeout = 120 * 1000000000;
  dirs = stale;
  processes = [];
  cancelled = [];
  removes = removes;
  removals = 0;
})

-- The loop of `evictOldestLocked` with its two variables.
unfoldable pub oldest_of : Map Session → Str → Time → Str
oldest_of [] oldest_id oldest = oldest_id
oldest_of ((id, s) ∷ m) oldest_id oldest =
    let older = is_empty oldest_id || ltb s.last_access oldest in
    oldest_of m (if older then id else oldest_id) (if older then s.last_access else oldest)

unfoldable pub evict_oldest : Manager → Manager
unfolding oldest_of kill
evict_oldest m =
    let oldest_id = oldest_of m.sessions [] 0 in
    if not (is_empty oldest_id) then kill oldest_id m else m

-- A full table loses its oldest session before a new one starts.
unfoldable pub make_room : Manager → Manager
unfolding evict_oldest
make_room m = if leb m.max_sessions (length m.sessions) then evict_oldest m else m

-- What the operating system answers to one start of a session.
pub record Start : Type 0 where
  pub mkdir_ok : Bool
  -- The new process, if ffmpeg starts.
  pub pid : Option ℕ

module _ (join : Str → Str → Str) (session_dir : Str → Str) where
  unfoldable pub ensure :
      Time → Str → (Str → List Str) → Start → Manager → Result HlsError Session × Manager
  unfolding make_room remove_all
  ensure now key build_args start m = elim (Map.get key m.sessions) [
    | some sess ↦
        let sess' = record sess { last_access = now } in
        (ok sess', record m { sessions = Map.put key sess' m.sessions })
    | none ↦
        let m' = make_room m in
        let dir = join m'.base_dir (session_dir key) in
        if not start.mkdir_ok then (err dir_failed, m') else elim start.pid [
          | none ↦ (err start_failed, remove_all dir (record m' { dirs = dir ∷ m'.dirs }))
          | some pid ↦
              let sess : Session = record { id = key; dir = dir; pid = pid; last_access = now } in
              (
                ok sess,
                record m' {
                  sessions = Map.put key sess m'.sessions;
                  dirs = dir ∷ m'.dirs;
                  processes = record { pid = pid; args = build_args dir } ∷ m'.processes;
                },
              )
        ]
  ]

-- `get`: a session that is read counts as used.
unfoldable pub get_session : Time → Str → Manager → Option Session × Manager
get_session now key m = elim (Map.get key m.sessions) [
  | none ↦ (none, m)
  | some sess ↦
      let sess' = record sess { last_access = now } in
      (some sess', record m { sessions = Map.put key sess' m.sessions })
]

-- One round of `reaper`: the loop runs over the sessions that the round began with.
unfoldable pub reap_each : Time → Map Session → Manager → Manager
unfolding kill
reap_each cutoff [] m = m
reap_each cutoff ((id, s) ∷ rest) m =
    reap_each cutoff rest (if ltb s.last_access cutoff then kill id m else m)

unfoldable pub reap : Time → Manager → Manager
unfolding reap_each
reap now m = reap_each (now - m.idle_timeout) m.sessions m

unfoldable pub kill_each : Map Session → Manager → Manager
unfolding kill
kill_each [] m = m
kill_each ((id, s) ∷ rest) m = kill_each rest (kill id m)

-- `Close`: every session, and then whatever the base directory holds.
unfoldable pub close : Bool → Manager → Manager
unfolding kill_each clean_dir
close listed m = clean_dir listed (kill_each m.sessions m)
