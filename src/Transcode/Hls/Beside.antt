-- ===== src/Transcode/Hls/Beside.antt =====
-- What the requests for other sessions of internal/transcode/hls.go leave of a session whose ffmpeg has
-- exited.
use cubozoa.Prelude.{
  ℕ, suc, ◌≡◌, sym, ap, ◌∙◌, subst, false, none, some, List, ◌∷◌, Str, str_eq, arith, Bool-cases,
  Option-cases, inl, inr, ◌==◌,
}
use cubozoa.Prelude.Map
use cubozoa.Prelude.Map.{get-put, put-IsMap, length-put_new, length-put_old}
use cubozoa.Store.Models.{Time}
use cubozoa.Transcode.Hls.Manager.{
  Session, Process, Manager, Start, ensure, get_session, remove_all, make_room,
}
use cubozoa.Transcode.Hls.Polled.{IsFresh, IsDead}

module _ (timeout : ℕ) (key : Str) (pid room : ℕ) (last : Time) (m : Manager) where
  -- Another session is used at a new time.
  touch_other-IsDead :
      (other : Str) (s s' : Session)
      → str_eq other key ≡ false
      → Map.get other m.sessions ≡ some s
      → IsDead timeout key pid room last m
      → IsDead timeout key pid room last (record m { sessions = Map.put other s' m.sessions })
  touch_other-IsDead other s s' n g x = record {
    is_map = put-IsMap other s' m.sessions x.is_map;
    session = x.session;
    found = get-put other key s' m.sessions ∙ (rw n x.found);
    used = x.used;
    owner = x.owner;
    dead = x.dead;
    patient = x.patient;
    roomy = omega (arith, length-put_old other s' s m.sessions g, x.roomy);
  }

  pub read_other-IsDead :
      (now : Time) (other : Str)
      → str_eq other key ≡ false
      → IsDead timeout key pid room last m
      → IsDead timeout key pid room last (get_session now other m).1
  unfolding get_session
  read_other-IsDead now other n x = elim (Option-cases (Map.get other m.sessions)) [
    | inl g ↦ rw (g, get_session) x
    | inr (s, g) ↦
        rw (g, get_session) (touch_other-IsDead other s (record s { last_access = now }) n g x)
  ]

  less-IsDead : IsDead timeout key pid (suc room) last m → IsDead timeout key pid room last m
  less-IsDead x = record {
    is_map = x.is_map;
    session = x.session;
    found = x.found;
    used = x.used;
    owner = x.owner;
    dead = x.dead;
    patient = x.patient;
    roomy = omega (arith, x.roomy);
  }

  -- A table with room evicts nothing.
  room_made : IsDead timeout key pid (suc room) last m → make_room m ≡ m
  unfolding make_room
  room_made x = ground (arith, x.roomy)

  started-IsDead :
      (other : Str) (s : Session) (dirs : List Str) (p : Process)
      → str_eq other key ≡ false
      → Map.get other m.sessions ≡ none
      → (p.pid == pid) ≡ false
      → IsDead timeout key pid (suc room) last m
      → IsDead timeout key pid room last (record m {
        sessions = Map.put other s m.sessions;
        dirs = dirs;
        processes = p ∷ m.processes;
      })
  started-IsDead other s dirs p n g f x = record {
    is_map = put-IsMap other s m.sessions x.is_map;
    session = x.session;
    found = get-put other key s m.sessions ∙ (rw n x.found);
    used = x.used;
    owner = x.owner;
    dead = ground (arith, f, x.dead);
    patient = x.patient;
    roomy = omega (arith, length-put_new other s m.sessions g, x.roomy);
  }

  removed-IsDead :
      (d : Str) (dirs : List Str)
      → IsDead timeout key pid room last m
      → IsDead timeout key pid room last (remove_all d (record m { dirs = dirs }))
  unfolding remove_all
  removed-IsDead d dirs x = record {
    is_map = x.is_map;
    session = x.session;
    found = x.found;
    used = x.used;
    owner = x.owner;
    dead = x.dead;
    patient = x.patient;
    roomy = x.roomy;
  }

module _ (timeout : ℕ) (key : Str) (pid room : ℕ) (last : Time) (m : Manager) where
  pub ensure_other-IsDead :
      (join : Str → Str → Str) (session_dir : Str → Str) (now : Time) (other : Str)
      (args : Str → List Str) (start : Start)
      → str_eq other key ≡ false
      → IsFresh pid start
      → IsDead timeout key pid (suc room) last m
      → IsDead timeout key pid room last (ensure join session_dir now other args start m).1
  unfolding ensure
  ensure_other-IsDead join session_dir now other args start n fresh x =
      let same = room_made timeout key pid room last m x in
      let roomy : IsDead timeout key pid (suc room) last (make_room m) =
        subst (IsDead timeout key pid (suc room) last) (sym same) x in
      let dir = join (make_room m).base_dir (session_dir other) in
      let less = less-IsDead timeout key pid room last (make_room m) roomy in
      elim (Option-cases (Map.get other m.sessions)) [
        | inr (s, g) ↦
            rw (g, ensure)
              (touch_other-IsDead timeout key pid room last m other s
                (record s { last_access = now }) n g (less-IsDead timeout key pid room last m x))
        | inl g ↦ elim (Bool-cases start.mkdir_ok) [
          | inr f ↦ rw (g, ensure) (rw f less)
          | inl f ↦ elim (Option-cases start.pid) [
            | inl k ↦
                rw (g, ensure)
                  (rw f (
                    rw (k, ensure)
                      (removed-IsDead timeout key pid room last (make_room m) dir
                        (dir ∷ (make_room m).dirs) less)))
            | inr (q, k) ↦
                let new_pid : (q == pid) ≡ false = ground (arith, k, fresh) in
                let absent : Map.get other (make_room m).sessions ≡ none =
                  ap (λ (z : Manager). Map.get other z.sessions) same ∙ g in
                rw (g, ensure)
                  (rw f (
                    rw (k, ensure)
                      (started-IsDead timeout key pid room last (make_room m) other _ _ _ n absent
                        new_pid roomy)))
          ]
        ]
      ]
