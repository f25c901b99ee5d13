-- ===== src/Transcode/Hls/Eviction.antt =====
-- Which sessions internal/transcode/hls.go stops: the oldest one, and the idle ones.
use cubozoa.Prelude.{length}
use cubozoa.Prelude.{
  ◌⊎◌, ◌&&◌, ◌-◌, ℕ, ◌≤◌, ◌<◌, ◌≡◌, refl, ap, ◌∙◌, Bool, false, ◌||◌, Option, none, some, [], ◌∷◌,
  Str, is_empty, str_eq, str_eq_iff, str_eq_refl, arith, Bool-cases, Option-cases, inl, inr, ltb,
  if◌then◌else◌,
}
use cubozoa.Prelude.Map
use cubozoa.Prelude.Map.{Map, IsMap, get-remove, remove-IsMap}
use cubozoa.Transcode.Hls.Manager.{Session, Manager, oldest_of, evict_oldest, kill, reap_each, reap}

-- Every session has a key that is not empty.
abbrev pub IsKeyed : Map Session → Type 0
IsKeyed [] = Unit
IsKeyed ((k, s) ∷ m) = (is_empty k ≡ false) × IsKeyed m

-- No session of the list was used before the time.
abbrev pub NoneBefore : ℕ → Map Session → Type 0
NoneBefore t [] = Unit
NoneBefore t ((k, s) ∷ m) = (t ≤ s.last_access) × NoneBefore t m

NoneBefore-mono : (t u : ℕ) (m : Map Session) → u ≤ t → NoneBefore t m → NoneBefore u m
NoneBefore-mono t u [] h n = tt
NoneBefore-mono t u ((k, s) ∷ m) h (b, n) = (omega arith, NoneBefore-mono t u m h n)

get_of_tail :
    (r j : Str) (s x : Session) (m : Map Session)
    → Map.get j m ≡ none
    → Map.get r m ≡ some x
    → Map.get r ((j, s) ∷ m) ≡ some x
unfolding Map.get
get_of_tail r j s x m new g = ground (arith, str_eq_iff j r)

get_of_head : (j : Str) (s : Session) (m : Map Session) → Map.get j ((j, s) ∷ m) ≡ some s
unfolding Map.get
get_of_head j s m = ground (arith, str_eq_refl j)

-- What the loop's result is: the session it was given, or one of the table, used first of all.
IsOldest : Map Session → ℕ → Str → Str → Type 0
IsOldest m t id found =
    ((found ≡ id) × NoneBefore t m)
    ⊎ ((s : Session) × (Map.get found m ≡ some s)
        × (s.last_access < t)
        × NoneBefore s.last_access m)

oldest_of_sound :
    (m : Map Session) (id : Str) (t : ℕ)
    → is_empty id ≡ false
    → IsKeyed m
    → IsMap m
    → IsOldest m t id (oldest_of m id t)
unfolding oldest_of IsOldest
oldest_of_sound [] id t n k h = inl (refl, tt)
oldest_of_sound ((j, s) ∷ m) id t n (kj, k) (new, h) = elim (Bool-cases (ltb s.last_access t)) [
  | inl e ↦
      let rest = oldest_of_sound m j s.last_access kj k h in
      rw n (
        rw e (elim rest [
          | inl (same, nb) ↦ inr (s, rw same (get_of_head j s m), ground arith, (omega arith, nb))
          | inr (x, g, lt, nb) ↦
              inr (x, get_of_tail _ j s x m new g, ground arith, (omega arith, nb))
        ]))
  | inr e ↦
      let rest = oldest_of_sound m id t n k h in
      rw n (
        rw e (elim rest [
          | inl (same, nb) ↦ inl (same, (ground arith, nb))
          | inr (x, g, lt, nb) ↦ inr (x, get_of_tail _ j s x m new g, lt, (ground arith, nb))
        ]))
]

keyed_get :
    (r : Str) (s : Session) (m : Map Session)
    → IsKeyed m
    → Map.get r m ≡ some s
    → is_empty r ≡ false
unfolding Map.get
keyed_get r s [] k g = cc
keyed_get r s ((j, x) ∷ m) (e, k) g = ground (arith, str_eq_iff j r, keyed_get r s m k)

oldest_found :
    (m : Map Session)
    → IsKeyed m
    → IsMap m
    → (m ≡ [])
      ⊎ ((s : Session) × (Map.get (oldest_of m [] 0) m ≡ some s) × NoneBefore s.last_access m)
unfolding oldest_of IsOldest
oldest_found [] k h = inl refl
oldest_found ((j, s) ∷ m) (kj, k) (new, h) = elim (oldest_of_sound m j s.last_access kj k h) [
  | inl (same, nb) ↦ inr (s, rw same (get_of_head j s m), (omega arith, nb))
  | inr (x, g, lt, nb) ↦ inr (x, get_of_tail _ j s x m new g, (omega arith, nb))
]

-- Eviction stops the session that was used first of all, if there is any.
pub evict_oldest-eq-kill :
    (m : Manager)
    → IsKeyed m.sessions
    → IsMap m.sessions
    → ((m.sessions ≡ []) × (evict_oldest m ≡ m))
      ⊎ ((id : Str) × (s : Session) × (Map.get id m.sessions ≡ some s)
          × NoneBefore s.last_access m.sessions
          × (evict_oldest m ≡ kill id m))
unfolding evict_oldest
evict_oldest-eq-kill m k h = elim (oldest_found m.sessions k h) [
  | inl e ↦ inl (e, (rw (e, evict_oldest)))
  | inr (s, g, nb) ↦ inr (
    oldest_of m.sessions [] 0,
    s,
    g,
    nb,
    (rw (keyed_get (oldest_of m.sessions [] 0) s m.sessions k g)),
  )
]

pub get-kill :
    (id k : Str) (m : Manager)
    → Map.get k (kill id m).sessions ≡ (if str_eq id k then none else Map.get k m.sessions)
unfolding kill
get-kill id k m = elim (Option-cases (Map.get id m.sessions)) [
  | inl e ↦ rw (e, kill) (ground (arith, str_eq_iff id k))
  | inr (s, e) ↦ rw (e, kill) (get-remove id k m.sessions)
]

abbrev idle_key : ℕ → Str → Map Session → Bool
idle_key cutoff k [] = false
idle_key cutoff k ((j, s) ∷ m) = (str_eq j k && ltb s.last_access cutoff) || idle_key cutoff k m

abbrev pub is_idle : ℕ → Session → Bool
is_idle cutoff s = ltb s.last_access cutoff

abbrev passes : (Session → Bool) → Option Session → Bool
passes p none = false
passes p (some s) = p s

idle_key-get :
    (cutoff : ℕ) (k : Str) (m : Map Session)
    → IsMap m
    → idle_key cutoff k m ≡ passes (is_idle cutoff) (Map.get k m)
unfolding Map.get
idle_key-get cutoff k [] h = refl
idle_key-get cutoff k ((j, s) ∷ m) h = ground (arith, str_eq_iff j k, idle_key-get cutoff k m h.1)

get-reap_each :
    (cutoff : ℕ) (k : Str) (rest : Map Session) (m : Manager)
    → Map.get k (reap_each cutoff rest m).sessions
      ≡ (if idle_key cutoff k rest then none else Map.get k m.sessions)
unfolding reap_each
get-reap_each cutoff k [] m = refl
get-reap_each cutoff k ((j, s) ∷ rest) m =
    ground
      (arith, get-reap_each cutoff k rest (kill j m), get-reap_each cutoff k rest m, get-kill j k m)

unless_idle :
    (p : Session → Bool) (o : Option Session) → (if passes p o then none else o) ≡ Map.unless p o
unless_idle p none = refl
unless_idle p (some s) = refl

-- A round of the reaper stops exactly the sessions that were idle too long, and leaves the others.
pub get-reap :
    (now : ℕ) (k : Str) (m : Manager)
    → IsMap m.sessions
    → Map.get k (reap now m).sessions
      ≡ Map.unless (is_idle (now - m.idle_timeout)) (Map.get k m.sessions)
unfolding reap
get-reap now k m h =
    get-reap_each (now - m.idle_timeout) k m.sessions m
    ∙ ap (λ (b : Bool). if b then none else Map.get k m.sessions)
        (idle_key-get (now - m.idle_timeout) k m.sessions h)
    ∙ unless_idle (is_idle (now - m.idle_timeout)) (Map.get k m.sessions)

-- Eviction stops one session, which was used first of all, and leaves the others.
pub evict_oldest_lem :
    (m : Manager)
    → IsKeyed m.sessions
    → IsMap m.sessions
    → 0 < length m.sessions
    → (id : Str) × (s : Session) × (Map.get id m.sessions ≡ some s)
      × NoneBefore s.last_access m.sessions
      × ((k : Str)
          → Map.get k (evict_oldest m).sessions
            ≡ (if str_eq id k then none else Map.get k m.sessions))
evict_oldest_lem m k h some_there = elim (evict_oldest-eq-kill m k h) [
  | inl (e, same) ↦ absurd (ground (arith, ap length e))
  | inr (id, s, g, nb, same) ↦ (id, s, g, nb, λ j. rw same (get-kill id j m))
]
