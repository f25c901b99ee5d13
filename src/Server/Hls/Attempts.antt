-- ===== src/Server/Hls/Attempts.antt =====
-- The attempts of internal/server/handlers_livetv_stream.go to stream a channel.
use cubozoa.Prelude.{
  ℕ, ◌≡◌, refl, sym, ap, ◌∙◌, subst, ◌⊎◌, Bool, true, false, not, ◌&&◌, Option, none, some, Str,
  Result, ok, arith, Bool-cases, Option-cases, Result-cases, inl, inr, if◌then◌else◌,
}
use cubozoa.Prelude.Map
use cubozoa.Prelude.Map.{Map, get-put_self}
use cubozoa.Store.Models.{Time}
use cubozoa.Transcode.Hls.Manager.{Session, Manager, HlsError, ensure, get_session, kill}
use cubozoa.Transcode.Hls.Args.{live_args}
use cubozoa.Transcode.Hls.Wait.{Poll, playlist}
use cubozoa.Transcode.Hls.Stuck.{get_session_found}
use cubozoa.Server.Hls.{System, Launch}
use cubozoa.Server.Hls.Live.{
  remember, live_session_key, is_session_failed, start_live, attempt_live,
}

get_session-none :
    (now : Time) (key : Str) (m : Manager)
    → Map.get key m.sessions ≡ none
    → get_session now key m ≡ (none, m)
unfolding get_session
get_session-none now key m e = rw (get_session, e)

-- A playlist that was read is of a session of the table.
playlist_found :
    (rounds now : ℕ) (key text : Str) (polls : ℕ → Poll) (m : Manager)
    → (playlist rounds now key polls m).0 ≡ some (ok text)
    → (sess : Session) × (Map.get key (playlist rounds now key polls m).1.sessions ≡ some sess)
unfolding playlist
playlist_found rounds now key text polls m h = elim (Option-cases (Map.get key m.sessions)) [
  | inl e ↦ absurd (ground (arith, h, get_session-none now key m e))
  | inr (sess, e) ↦
      let g = get_session_found now key m sess e in
      (
        record sess { last_access = now },
        rw (playlist, g) (rw g (get-put_self key (record sess { last_access = now }) m.sessions)),
      )
]

abbrev pub HasSession : Str → Option (Result HlsError Str) × Manager × Bool → Type 0
HasSession id (text, m, reencode) =
    (sess : Session) × (Map.get (live_session_key id reencode) m.sessions ≡ some sess)

abbrev has_some : Option (Unit {0}) → Bool
has_some none = false
has_some (some u) = true

abbrev pub IsRemembered : Str → Map (Unit {0}) → Bool → Type 0
IsRemembered id set reencode = Map.has id (remember id reencode set) ≡ reencode

has-remember_true : (id : Str) (set : Map (Unit {0})) → IsRemembered id set true
unfolding remember
has-remember_true id set = elim (Bool-cases (Map.has id set)) [
  | inl e ↦ ap (Map.has id) (rw (remember, e) (refl {a = set})) ∙ e
  | inr e ↦
      ap (Map.has id) (rw (remember, e) (refl {a = Map.put id tt set}))
      ∙ ap has_some (get-put_self id (tt {0}) set)
]

has-remember_same : (id : Str) (set : Map (Unit {0})) → IsRemembered id set (Map.has id set)
unfolding remember
has-remember_same id set = ap (Map.has id) (kept (Map.has id set))
  where
    kept : (b : Bool) → (if b && not b then Map.put id tt set else set) ≡ set
    kept true = refl
    kept false = refl

module _ (sys : System) where
  start_live_found :
      (rounds : ℕ) (l : Launch) (id upstream text : Str) (reencode : Bool) (m : Manager)
      → (start_live sys rounds l id upstream reencode m).0 ≡ some (ok text)
      → (sess : Session) × (Map.get
            (live_session_key id reencode)
            (start_live sys rounds l id upstream reencode m).1.sessions
          ≡ some sess)
  unfolding start_live
  start_live_found rounds l id upstream text reencode m h =
      let key = live_session_key id reencode in
      let made =
        ensure sys.join sys.session_dir l.asked key (live_args sys.join upstream reencode) l.start
          m in
      elim (Result-cases made.0) [
        | inl (x, e) ↦ absurd (ground (arith, h, e))
        | inr (s, e) ↦
            let same : start_live sys rounds l id upstream reencode m
                ≡ playlist rounds l.read key l.polls made.1 =
              rw (start_live, e) in
            let (sess, found) =
              playlist_found rounds l.read key text l.polls made.1 (sym (ap (λ r. r.0) same) ∙ h) in
            (sess, ap (λ r. Map.get key r.1.sessions) same ∙ found)
      ]

  -- What two attempts come to.
  attempt_cases :
      (rounds : ℕ) (first second : Launch) (id upstream : Str) (before : Bool) (m : Manager)
      → let tried = start_live sys rounds first id upstream before m in
        let again =
          start_live sys rounds second id upstream true
            (kill (live_session_key id false) tried.1) in
        ((before ≡ false)
          × (attempt_live sys rounds first second id upstream before m ≡ (again.0, again.1, true)))
        ⊎ (attempt_live sys rounds first second id upstream before m ≡ (tried.0, tried.1, before))
  unfolding attempt_live
  attempt_cases rounds first second id upstream before m =
      let tried = start_live sys rounds first id upstream before m in
      elim (Bool-cases (is_session_failed tried.0 && not before)) [
        | inl e ↦ inl (ground (arith, e), rw (attempt_live, e))
        | inr e ↦ inr (rw (attempt_live, e))
      ]

  -- The session of the channel that the answer's playlist is of.
  pub attempt_live_found :
      (rounds : ℕ) (first second : Launch) (id upstream text : Str) (before : Bool) (m : Manager)
      → (attempt_live sys rounds first second id upstream before m).0 ≡ some (ok text)
      → HasSession id (attempt_live sys rounds first second id upstream before m)
  attempt_live_found rounds first second id upstream text before m h =
      let tried = start_live sys rounds first id upstream before m in
      elim (attempt_cases rounds first second id upstream before m) [
        | inl (b, e) ↦ subst (HasSession id) (sym e) (
            start_live_found rounds second id upstream text true
              (kill (live_session_key id false) tried.1) (sym (ap (λ r. r.0) e) ∙ h))
        | inr e ↦
            subst (HasSession id) (sym e)
              (start_live_found rounds first id upstream text before m (sym (ap (λ r. r.0) e) ∙ h))
      ]

  -- What is remembered of a channel is the choice that was made.
  pub remembered :
      (rounds : ℕ) (first second : Launch) (id upstream : Str) (m : Manager) (set : Map (Unit {0}))
      → let after = (attempt_live sys rounds first second id upstream (Map.has id set) m).2 in
        Map.has id (remember id after set) ≡ after
  remembered rounds first second id upstream m set =
      elim (attempt_cases rounds first second id upstream (Map.has id set) m) [
        | inl (b, e) ↦
            subst (IsRemembered id set) (sym (ap (λ r. r.2) e)) (has-remember_true id set)
        | inr e ↦ subst (IsRemembered id set) (sym (ap (λ r. r.2) e)) (has-remember_same id set)
      ]
