-- ===== src/Transcode/Hls/Sound.antt =====
-- What a session table of internal/transcode/hls.go owns, and what each of its steps keeps.
use cubozoa.Prelude.{
  ℕ, suc, ◌≤◌, ◌<◌, ◌*◌, ◌⊎◌, ◌≡◌, ap, sym, subst, ◌∙◌, Bool, true, false, none, some, List, [],
  ◌∷◌, Str, is_empty, str_eq, str_eq_iff, arith, Bool-cases, Option-cases, inl, inr, leb, length,
  if◌then◌else◌, any, ◌==◌,
}
use cubozoa.Prelude.Map
use cubozoa.Prelude.Map.{
  Map, IsMap, values, any-put, any-remove, any-of-get, length-put_new, length-put_old,
  length-remove, put-IsMap, remove-IsMap, get-put_self,
}
use cubozoa.Transcode.Hls.Manager.{
  Session, Process, Manager, make_room, evict_oldest, kill, remove_all, remove_each, clean_dir,
  reap_each, kill_each, remove_dir, kill_process, new_manager,
}
use cubozoa.Transcode.Hls.Eviction.{IsKeyed, evict_oldest-eq-kill, get-kill}

abbrev pub in_dir : Str → Session → Bool
in_dir d s = str_eq s.dir d

abbrev pub runs : ℕ → Session → Bool
runs pid s = s.pid == pid

-- An attempt at removing a directory has failed.
abbrev pub IsRefused : Str → Manager → Type 0
IsRefused d m = (n : ℕ) × (n < m.removals) × (m.removes n d ≡ false)

-- The sessions are within their bound, a directory without a session is one that could not be removed
-- once, and a process without a session is cancelled.
pub record IsSound (m : Manager) : Type 0 where
  pub is_map : IsMap m.sessions
  pub keyed : IsKeyed m.sessions
  pub bounded : length m.sessions ≤ m.max_sessions
  pub room : 0 < m.max_sessions
  pub homed :
      (d : Str)
      → any (λ (x : Str). str_eq x d) m.dirs ≡ true
      → (any (in_dir d) (values m.sessions) ≡ true) ⊎ IsRefused d m
  pub owned :
      (pid : ℕ)
      → any (λ (p : Process). p.pid == pid) m.processes ≡ true
      → (any (runs pid) (values m.sessions) ≡ true) ⊎ (any (λ (c : ℕ). c == pid) m.cancelled ≡ true)

any-remove_dir :
    (d e : Str) (dirs : List Str)
    → any (λ (x : Str). str_eq x d) (remove_dir e dirs) ≡ true
    → (any (λ (x : Str). str_eq x d) dirs ≡ true) × (str_eq e d ≡ false)
any-remove_dir d e [] h = absurd (cc)
any-remove_dir d e (x ∷ dirs) h =
    ground (arith, any-remove_dir d e dirs, str_eq_iff x d, str_eq_iff x e, str_eq_iff e d)

any-kill_process :
    (q pid : ℕ) (ps : List Process)
    → any (λ (p : Process). p.pid == q) (kill_process pid ps) ≡ true
    → (any (λ (p : Process). p.pid == q) ps ≡ true) × ((pid == q) ≡ false)
any-kill_process q pid [] h = absurd (cc)
any-kill_process q pid (p ∷ ps) h = ground (arith, any-kill_process q pid ps)

remove-IsKeyed : (k : Str) (m : Map Session) → IsKeyed m → IsKeyed (Map.remove k m)
unfolding Map.remove
remove-IsKeyed k [] h = tt
remove-IsKeyed k ((j, s) ∷ m) (e, h) = elim (Bool-cases (str_eq j k)) [
  | inl t ↦ rw t (remove-IsKeyed k m h)
  | inr t ↦ rw t (e, remove-IsKeyed k m h)
]

put-IsKeyed :
    (k : Str) (s : Session) (m : Map Session)
    → is_empty k ≡ false
    → IsKeyed m
    → IsKeyed (Map.put k s m)
unfolding Map.put
put-IsKeyed k s [] n h = (n, tt)
put-IsKeyed k s ((j, x) ∷ m) n (e, h) = elim (Bool-cases (str_eq j k)) [
  | inl t ↦ rw t (n, h)
  | inr t ↦ rw t (e, put-IsKeyed k s m n h)
]

IsRefused-later : (d e : Str) (m : Manager) → IsRefused d m → IsRefused d (remove_all e m)
unfolding remove_all
IsRefused-later d e m (n, lt, r) = (n, omega (arith, lt), r)

-- What is left of the directories after an attempt at removing one: the others, and that one if the
-- attempt fails.
any-remove_all :
    (d e : Str) (m : Manager)
    → any (λ (x : Str). str_eq x d) (remove_all e m).dirs ≡ true
    → (any (λ (x : Str). str_eq x d) m.dirs ≡ true)
      × ((str_eq e d ≡ false) ⊎ IsRefused d (remove_all e m))
unfolding remove_all
any-remove_all d e m h = elim (Bool-cases (m.removes m.removals e)) [
  | inl t ↦
      let (old, other) = any-remove_dir d e m.dirs (
        subst
          (λ b. any (λ (x : Str). str_eq x d) (if b then remove_dir e m.dirs else m.dirs) ≡ true) t
          h) in
      (old, inl other)
  | inr t ↦
      let old =
        subst
          (λ b. any (λ (x : Str). str_eq x d) (if b then remove_dir e m.dirs else m.dirs) ≡ true) t
          h in
      elim (Bool-cases (str_eq e d)) [
        | inr n ↦ (old, inl n)
        | inl n ↦ (
          old,
          inr (m.removals, omega arith, ap (m.removes m.removals) (sym ((str_eq_iff e d).0 n)) ∙ t),
        )
      ]
]

-- Stopping a session cancels its process and tries to remove its directory.
pub kill-IsSound : (id : Str) (m : Manager) → IsSound m → IsSound (kill id m)
unfolding kill remove_all
kill-IsSound id m x = elim (Option-cases (Map.get id m.sessions)) [
  | inl e ↦ rw (e, kill) x
  | inr (s, e) ↦
      let rest : (p : Session → Bool)
          → p s ≡ false
          → any p (values m.sessions) ≡ true
          → any p (values (Map.remove id m.sessions)) ≡ true =
        λ p other old. any-remove p id s m.sessions x.is_map e other old in
      rw (e, kill)
        (record {
          is_map = remove-IsMap id m.sessions x.is_map;
          keyed = remove-IsKeyed id m.sessions x.keyed;
          bounded = omega (arith, length-remove id s m.sessions x.is_map e, x.bounded);
          room = x.room;
          homed = λ d h.
              let (old, why) = any-remove_all d s.dir m h in
              elim why [
                | inr r ↦ inr r
                | inl other ↦ elim (x.homed d old) [
                  | inl a ↦ inl (rest (in_dir d) other a)
                  | inr r ↦ inr (IsRefused-later d s.dir m r)
                ]
              ];
          owned = λ pid h. elim (Bool-cases (s.pid == pid)) [
            | inl t ↦ inr (ground (arith, t))
            | inr t ↦ elim (x.owned pid h) [
              | inl a ↦ inl (rest (runs pid) t a)
              | inr c ↦ inr (ground (arith, c))
            ]
          ];
        })
]

length-kill :
    (id : Str) (s : Session) (m : Manager)
    → IsMap m.sessions
    → Map.get id m.sessions ≡ some s
    → suc (length (kill id m).sessions) ≡ length m.sessions
unfolding kill
length-kill id s m h e = rw (e, kill) (length-remove id s m.sessions h e)

max-kill : (id : Str) (m : Manager) → (kill id m).max_sessions ≡ m.max_sessions
unfolding kill remove_all
max-kill id m = ground arith

-- After an eviction a full table has room for one more session.
evict_oldest-IsSound :
    (m : Manager)
    → IsSound m
    → IsSound (evict_oldest m) × (length (evict_oldest m).sessions < (evict_oldest m).max_sessions)
evict_oldest-IsSound m x = elim (evict_oldest-eq-kill m x.keyed x.is_map) [
  | inl (e, same) ↦ rw same (x, ground (arith, ap length e, x.room))
  | inr (id, s, g, nb, same) ↦
      rw same (
        kill-IsSound id m x,
        omega (arith, length-kill id s m x.is_map g, max-kill id m, x.bounded),
      )
]

pub make_room-IsSound :
    (m : Manager)
    → IsSound m
    → IsSound (make_room m) × (length (make_room m).sessions < (make_room m).max_sessions)
unfolding make_room
make_room-IsSound m x = elim (Bool-cases (leb m.max_sessions (length m.sessions))) [
  | inl e ↦ rw e (evict_oldest-IsSound m x)
  | inr e ↦ rw e (x, ground arith)
]

-- Eviction adds no session.
pub get-make_room :
    (key : Str) (m : Manager)
    → IsSound m
    → Map.get key m.sessions ≡ none
    → Map.get key (make_room m).sessions ≡ none
unfolding make_room
get-make_room key m x e = elim (Bool-cases (leb m.max_sessions (length m.sessions))) [
  | inr f ↦ rw f e
  | inl f ↦ rw f (elim (evict_oldest-eq-kill m x.keyed x.is_map) [
    | inl (none_there, same) ↦ rw same e
    | inr (id, s, g, nb, same) ↦ rw same (ground (arith, get-kill id key m))
  ])
]

kill_if-IsSound :
    (b : Bool) (id : Str) (m : Manager) → IsSound m → IsSound (if b then kill id m else m)
kill_if-IsSound true id m x = kill-IsSound id m x
kill_if-IsSound false id m x = x

pub reap_each-IsSound :
    (cutoff : ℕ) (rest : Map Session) (m : Manager) → IsSound m → IsSound (reap_each cutoff rest m)
unfolding reap_each
reap_each-IsSound cutoff [] m x = x
reap_each-IsSound cutoff ((j, s) ∷ rest) m x =
    reap_each-IsSound cutoff rest _ (kill_if-IsSound _ j m x)

pub kill_each-IsSound : (rest : Map Session) (m : Manager) → IsSound m → IsSound (kill_each rest m)
unfolding kill_each
kill_each-IsSound [] m x = x
kill_each-IsSound ((j, s) ∷ rest) m x = kill_each-IsSound rest (kill j m) (kill-IsSound j m x)

or_left : {A B C : Type 0} → (A → B) → A ⊎ C → B ⊎ C
or_left f (inl a) = inl (f a)
or_left f (inr c) = inr c

pub touch-IsSound :
    (key : Str) (sess : Session) (now : ℕ) (m : Manager)
    → is_empty key ≡ false
    → Map.get key m.sessions ≡ some sess
    → IsSound m
    → IsSound (record m { sessions = Map.put key (record sess { last_access = now }) m.sessions })
touch-IsSound key sess now m n e x =
    let sess' = record sess { last_access = now } in
    record {
      is_map = put-IsMap key sess' m.sessions x.is_map;
      keyed = put-IsKeyed key sess' m.sessions n x.keyed;
      bounded = omega (arith, length-put_old key sess' sess m.sessions e, x.bounded);
      room = x.room;
      homed = λ d h.
          or_left (any-put (in_dir d) key sess' m.sessions x.is_map (λ w g t. ground arith))
            (x.homed d h);
      owned = λ pid h.
          or_left (any-put (runs pid) key sess' m.sessions x.is_map (λ w g t. ground arith))
            (x.owned pid h);
    }

pub start-IsSound :
    (key : Str) (sess : Session) (args : List Str) (m : Manager)
    → is_empty key ≡ false
    → Map.get key m.sessions ≡ none
    → length m.sessions < m.max_sessions
    → IsSound m
    → IsSound (record m {
      sessions = Map.put key sess m.sessions;
      dirs = sess.dir ∷ m.dirs;
      processes = record { pid = sess.pid; args = args } ∷ m.processes;
    })
start-IsSound key sess args m n e room x = record {
  is_map = put-IsMap key sess m.sessions x.is_map;
  keyed = put-IsKeyed key sess m.sessions n x.keyed;
  bounded = omega (arith, length-put_new key sess m.sessions e, x.bounded);
  room = x.room;
  homed = λ d h. elim (Bool-cases (str_eq sess.dir d)) [
    | inl t ↦ inl (any-of-get (in_dir d) key sess _ (get-put_self key sess m.sessions) t)
    | inr t ↦
        or_left (any-put (in_dir d) key sess m.sessions x.is_map (λ w g p. cc))
          (x.homed d (ground arith))
  ];
  owned = λ pid h. elim (Bool-cases (sess.pid == pid)) [
    | inl t ↦ inl (any-of-get (runs pid) key sess _ (get-put_self key sess m.sessions) t)
    | inr t ↦
        or_left (any-put (runs pid) key sess m.sessions x.is_map (λ w g p. cc))
          (x.owned pid (ground arith))
  ];
}

remove_all-IsSound : (e : Str) (m : Manager) → IsSound m → IsSound (remove_all e m)
unfolding remove_all
remove_all-IsSound e m x = record {
  is_map = x.is_map;
  keyed = x.keyed;
  bounded = x.bounded;
  room = x.room;
  homed = λ d h. elim (x.homed d ((any-remove_all d e m h).0)) [
    | inl a ↦ inl a
    | inr r ↦ inr (IsRefused-later d e m r)
  ];
  owned = x.owned;
}

-- A directory that is made and given up at once.
pub remove_new-IsSound :
    (e : Str) (m : Manager) → IsSound m → IsSound (remove_all e (record m { dirs = e ∷ m.dirs }))
unfolding remove_all
remove_new-IsSound e m x = record {
  is_map = x.is_map;
  keyed = x.keyed;
  bounded = x.bounded;
  room = x.room;
  homed = λ d h.
      let (old, why) = any-remove_all d e (record m { dirs = e ∷ m.dirs }) h in
      elim why [
        | inr r ↦ inr r
        | inl other ↦ elim (x.homed d (ground (arith, old, other))) [
          | inl a ↦ inl a
          | inr r ↦ inr (IsRefused-later d e m r)
        ]
      ];
  owned = x.owned;
}

remove_each-IsSound : (ds : List Str) (m : Manager) → IsSound m → IsSound (remove_each ds m)
unfolding remove_each
remove_each-IsSound [] m x = x
remove_each-IsSound (d ∷ ds) m x =
    remove_each-IsSound ds (remove_all d m) (remove_all-IsSound d m x)

pub clean_dir-IsSound : (listed : Bool) (m : Manager) → IsSound m → IsSound (clean_dir listed m)
unfolding clean_dir
clean_dir-IsSound true m x = remove_each-IsSound m.dirs m x
clean_dir-IsSound false m x = x

pub fewer_processes-IsSound :
    (pid : ℕ) (m : Manager)
    → IsSound m
    → IsSound (record m { processes = kill_process pid m.processes })
fewer_processes-IsSound q m x = record {
  is_map = x.is_map;
  keyed = x.keyed;
  bounded = x.bounded;
  room = x.room;
  homed = x.homed;
  owned = λ pid h. x.owned pid ((any-kill_process pid q m.processes h).0);
}

-- A table begins sound in an empty base directory.
pub new_manager-IsSound :
    (removes : ℕ → Str → Bool) (listed : Bool) (base_dir : Str)
    → IsSound (new_manager removes listed [] base_dir)
unfolding new_manager
new_manager-IsSound removes listed base_dir =
    let empty : Manager = record {
      base_dir = base_dir;
      sessions = [];
      max_sessions = 4;
      idle_timeout = 120 * 1000000000;
      dirs = [];
      processes = [];
      cancelled = [];
      removes = removes;
      removals = 0;
    } in
    clean_dir-IsSound listed empty (record {
      is_map = tt;
      keyed = tt;
      bounded = omega arith;
      room = omega arith;
      homed = λ d h. cc;
      owned = λ pid h. cc;
    })
