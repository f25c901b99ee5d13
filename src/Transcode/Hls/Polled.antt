-- ===== src/Transcode/Hls/Polled.antt =====
-- Clients that go on asking internal/transcode/hls.go for a session whose ffmpeg has exited.
use cubozoa.Prelude.{
  ℕ, suc, ◌+◌, ◌-◌, ◌≤◌, ◌≡◌, refl, ap, ◌∙◌, Bool, false, none, some, List, [], ◌∷◌, Str, str_eq,
  arith, Bool-cases, Option-cases, inl, inr, any, ◌==◌, ltb, length,
}
use cubozoa.Prelude.Map
use cubozoa.Prelude.Map.{
  Map, IsMap, get-put, get-put_self, put-IsMap, remove-IsMap, length-put_new, length-put_old,
  length-remove,
}
use cubozoa.Store.Models.{Time}
use cubozoa.Transcode.Hls.Manager.{
  Session, Process, Manager, Start, kill, kill_process, reap_each, reap,
}
use cubozoa.Transcode.Hls.Calls.{Call, ensuring, reading, reaping, exiting, stopping}
use cubozoa.Transcode.Hls.Eviction.{get-kill, get-reap}

-- A start does not give a process the number of the exited one.
abbrev pub IsFresh : ℕ → Start → Type 0
IsFresh pid start = elim start.pid [ none ↦ Unit {0} | some q ↦ (q == pid) ≡ false ]

-- Histories in which a client asks for one key so often that no round of the reaper comes later than the
-- idle time after its last request, while others use other keys and start at most as many sessions as
-- there is room for. The indexes are the room and the time of the last request.
pub data Polled (timeout : ℕ) (key : Str) (pid : ℕ) : ℕ → Time → List Call → Type 0 where
  ended : {room : ℕ} {last : Time} → Polled timeout key pid room last []
  asks :
      {room : ℕ} {last now : Time} {args : Str → List Str} {start : Start} {cs : List Call}
      → Polled timeout key pid room now cs
      → Polled timeout key pid room last (ensuring now key args start ∷ cs)
  reads :
      {room : ℕ} {last now : Time} {cs : List Call}
      → Polled timeout key pid room now cs
      → Polled timeout key pid room last (reading now key ∷ cs)
  others_ask :
      {room : ℕ} {last now : Time} {other : Str} {args : Str → List Str} {start : Start}
      {cs : List Call}
      → str_eq other key ≡ false
      → IsFresh pid start
      → Polled timeout key pid room last cs
      → Polled timeout key pid (suc room) last (ensuring now other args start ∷ cs)
  others_read :
      {room : ℕ} {last now : Time} {other : Str} {cs : List Call}
      → str_eq other key ≡ false
      → Polled timeout key pid room last cs
      → Polled timeout key pid room last (reading now other ∷ cs)
  others_stop :
      {room : ℕ} {last : Time} {other : Str} {cs : List Call}
      → str_eq other key ≡ false
      → Polled timeout key pid room last cs
      → Polled timeout key pid room last (stopping other ∷ cs)
  reaps :
      {room : ℕ} {last now : Time} {cs : List Call}
      → now ≤ last + timeout
      → Polled timeout key pid room last cs
      → Polled timeout key pid room last (reaping now ∷ cs)
  exits :
      {room : ℕ} {last : Time} {q : ℕ} {cs : List Call}
      → Polled timeout key pid room last cs
      → Polled timeout key pid room last (exiting q ∷ cs)

abbrev pub is_running : ℕ → List Process → Bool
is_running pid = any (λ (p : Process). p.pid == pid)

-- The key has a session, last used at a time, whose process does not run, and the table has some room.
pub record IsDead (timeout : ℕ) (key : Str) (pid room : ℕ) (last : Time) (m : Manager)
    : Type 0 where
  pub is_map : IsMap m.sessions
  pub session : Session
  pub found : Map.get key m.sessions ≡ some session
  pub used : session.last_access ≡ last
  pub owner : session.pid ≡ pid
  pub dead : is_running pid m.processes ≡ false
  pub patient : m.idle_timeout ≡ timeout
  pub roomy : length m.sessions + room ≤ m.max_sessions

pub dead-kill_process :
    (pid q : ℕ) (ps : List Process)
    → is_running pid ps ≡ false
    → is_running pid (kill_process q ps) ≡ false
dead-kill_process pid q [] h = h
dead-kill_process pid q (p ∷ ps) h = ground (arith, dead-kill_process pid q ps)

-- What stopping other sessions keeps of the table.
IsKept : Manager → Manager → Type 0
IsKept m m' =
    IsMap m'.sessions
    × (m'.processes ≡ m.processes)
    × (m'.idle_timeout ≡ m.idle_timeout)
    × (m'.max_sessions ≡ m.max_sessions)
    × (length m'.sessions ≤ length m.sessions)

kill-IsKept : (id : Str) (m : Manager) → IsMap m.sessions → IsKept m (kill id m)
unfolding kill IsKept
kill-IsKept id m h = elim (Option-cases (Map.get id m.sessions)) [
  | inl e ↦ rw (e, kill) (h, refl, refl, refl, omega arith)
  | inr (s, e) ↦
      rw (e, kill)
        (
          remove-IsMap id m.sessions h,
          refl,
          refl,
          refl,
          omega (arith, length-remove id s m.sessions h e),
        )
]

IsKept-trans : (a b c : Manager) → IsKept a b → IsKept b c → IsKept a c
unfolding IsKept
IsKept-trans a b c (h, p, t, x, n) (h', p', t', x', n') = (h', p' ∙ p, t' ∙ t, x' ∙ x, omega arith)

reap_each-IsKept :
    (cutoff : ℕ) (rest : Map Session) (m : Manager)
    → IsMap m.sessions
    → IsKept m (reap_each cutoff rest m)
unfolding reap_each IsKept
reap_each-IsKept cutoff [] m h = (h, refl, refl, refl, omega arith)
reap_each-IsKept cutoff ((id, s) ∷ rest) m h = elim (Bool-cases (ltb s.last_access cutoff)) [
  | inr e ↦ rw (reap_each, e) (reap_each-IsKept cutoff rest m h)
  | inl e ↦
      let k = kill-IsKept id m h in
      rw (reap_each, e)
        (IsKept-trans m (kill id m) (reap_each cutoff rest (kill id m)) k
          (reap_each-IsKept cutoff rest (kill id m) (k.0)))
]

module _ (timeout : ℕ) (key : Str) (pid room : ℕ) (last : Time) (m : Manager) where
  -- A table that keeps the session keeps it dead.
  kept-IsDead :
      (m' : Manager)
      → (x : IsDead timeout key pid room last m) → IsKept m m'
      → Map.get key m'.sessions ≡ some (x.session)
      → IsDead timeout key pid room last m'
  unfolding IsKept
  kept-IsDead m' x (h, p, t, n, l) g = record {
    is_map = h;
    session = x.session;
    found = g;
    used = x.used;
    owner = x.owner;
    dead = ap (is_running pid) p ∙ x.dead;
    patient = t ∙ x.patient;
    roomy = omega (arith, x.roomy);
  }

  pub reap-IsDead :
      (now : Time)
      → now ≤ last + timeout
      → IsDead timeout key pid room last m
      → IsDead timeout key pid room last (reap now m)
  unfolding reap
  reap-IsDead now soon x =
      kept-IsDead (reap now m) x (reap_each-IsKept (now - m.idle_timeout) m.sessions m x.is_map)
        (get-reap now key m x.is_map ∙ rw x.found (ground (arith, x.used, x.patient)))

  pub kill-IsDead :
      (other : Str)
      → str_eq other key ≡ false
      → IsDead timeout key pid room last m
      → IsDead timeout key pid room last (kill other m)
  kill-IsDead other n x =
      kept-IsDead (kill other m) x (kill-IsKept other m x.is_map)
        (get-kill other key m ∙ (rw n x.found))

  -- The session is used at a new time.
  pub touch-IsDead :
      (now : Time)
      → (x : IsDead timeout key pid room last m)
      → IsDead timeout key pid room now (record m {
        sessions = Map.put key (record (x.session) { last_access = now }) m.sessions;
      })
  touch-IsDead now x = record {
    is_map = put-IsMap key _ m.sessions x.is_map;
    session = record (x.session) { last_access = now };
    found = get-put_self key _ m.sessions;
    used = refl;
    owner = x.owner;
    dead = x.dead;
    patient = x.patient;
    roomy = omega (
      arith,
      length-put_old key (record (x.session) { last_access = now }) x.session m.sessions x.found,
      x.roomy,
    );
  }

  pub exit-IsDead :
      (q : ℕ)
      → IsDead timeout key pid room last m
      → IsDead timeout key pid room last (record m { processes = kill_process q m.processes })
  exit-IsDead q x = record {
    is_map = x.is_map;
    session = x.session;
    found = x.found;
    used = x.used;
    owner = x.owner;
    dead = dead-kill_process pid q m.processes x.dead;
    patient = x.patient;
    roomy = x.roomy;
  }
