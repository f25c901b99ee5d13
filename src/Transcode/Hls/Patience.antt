-- ===== src/Transcode/Hls/Patience.antt =====
-- The polls of internal/transcode/hls.go: Playlist and Segment.
use cubozoa.Prelude.{
  ℕ, zero, suc, ◌+◌, ◌*◌, ◌≤◌, ◌<◌, ◌≡◌, ◌≢◌, sym, ◌∙◌, true, false, ◌&&◌, subst, Option, some, [],
  ◌∷◌, ◌++◌, Str, codes, is_empty, str_eq_iff, has_prefix_sound, All, Result, ok, err, arith,
  Bool-cases, Option-cases, inl, inr, ltb, ◌⊎◌,
}
use cubozoa.Prelude.Map
use cubozoa.Store.Models.{Time}
use cubozoa.Transcode.Hls.Manager.{
  Session, Manager, HlsError, get_session, unavailable, session_failed, not_ready,
}
use cubozoa.Transcode.Hls.Wait.{
  Poll, Look, await_playlist, await_segment, playlist, segment, filled, second, digits_then_ts,
  is_digit, is_segment_name,
}

-- 150 milliseconds, the pause between two rounds.
abbrev pub pause : ℕ
pause = 150000000

abbrev pub IsText : Result HlsError Str → Type 0
IsText (ok text) = is_empty text ≡ false
IsText (err e) = Unit

filled_sound : (o : Option Str) (text : Str) → filled o ≡ some text → is_empty text ≡ false
filled_sound o text h = ground arith

-- One round answers, or its clock is not past the deadline and the rest of the rounds decides.
playlist_round :
    (rounds deadline : ℕ) (polls : ℕ → Poll)
    → ((r : Result HlsError Str) × (await_playlist (suc rounds) deadline polls ≡ some r) × IsText r)
      ⊎ ((await_playlist (suc rounds) deadline polls
            ≡ await_playlist rounds deadline (λ n. polls (suc n)))
          × (ltb deadline (polls 0).at ≡ false))
unfolding await_playlist
playlist_round rounds deadline polls = elim (Option-cases (filled (polls 0).content)) [
  | inr (text, e) ↦ inl (ok text, rw (e, await_playlist), filled_sound _ text e)
  | inl e ↦ elim (Bool-cases (polls 0).exited) [
    | inl x ↦ elim (Option-cases (filled (polls 0).after_exit)) [
      | inr (text, f) ↦ inl (ok text, rw (e, x, f, await_playlist), filled_sound _ text f)
      | inl f ↦ inl (err session_failed, rw (e, x, f, await_playlist), tt)
    ]
    | inr x ↦ elim (Bool-cases (ltb deadline (polls 0).at)) [
      | inl l ↦ inl (err not_ready, rw (e, x, l, await_playlist), tt)
      | inr l ↦ inr (rw (e, x, l, await_playlist), l)
    ]
  ]
]

-- Where each round begins a pause after the one before, the rounds that reach past the deadline are
-- enough.
await_playlist_answers :
    (rounds base deadline : ℕ) (polls : ℕ → Poll)
    → ((n : ℕ) → base + n * pause ≤ (polls n).at)
    → deadline < base + rounds * pause
    → (r : Result HlsError Str) × (await_playlist (suc rounds) deadline polls ≡ some r) × IsText r
unfolding await_playlist
await_playlist_answers zero base deadline polls clock enough =
    elim (playlist_round zero deadline polls) [
      | inl answer ↦ answer
      | inr (e, l) ↦ absurd (ground (arith, clock 0))
    ]
await_playlist_answers (suc rounds) base deadline polls clock enough =
    elim (playlist_round (suc rounds) deadline polls) [
      | inl answer ↦ answer
      | inr (e, l) ↦
          let (r, f, t) =
            await_playlist_answers rounds (base + pause) deadline (λ n. polls (suc n))
              (λ n. omega (arith, clock (suc n))) (omega arith) in
          (r, e ∙ f, t)
    ]

-- A client that asks for a playlist is answered within 102 rounds, whatever ffmpeg does, if each
-- round begins 150 milliseconds after the one before: with a text that is not empty, or an error.
pub playlist_answers :
    (now : Time) (key : Str) (polls : ℕ → Poll) (m : Manager)
    → ((n : ℕ) → now + n * pause ≤ (polls n).at)
    → (r : Result HlsError Str) × ((playlist 102 now key polls m).0 ≡ some r) × IsText r
unfolding playlist
playlist_answers now key polls m clock = elim (Option-cases (get_session now key m).0) [
  | inl e ↦ (err unavailable, rw (e, playlist), tt)
  | inr (sess, e) ↦
      let (r, f, t) =
        await_playlist_answers 101 now (now + 15 * second) polls clock (omega arith) in
      (r, rw (e, playlist) f, t)
]

abbrev pub HasNoSlash : Str → Type 0
HasNoSlash = All (λ c. c ≢ b'/')

ts-HasNoSlash : (n : ℕ) (s : Str) → digits_then_ts n s ≡ true → HasNoSlash s
unfolding digits_then_ts
ts-HasNoSlash zero s h = rw ((str_eq_iff _ _).0 h) (omega arith)
ts-HasNoSlash (suc n) [] h = tt
ts-HasNoSlash (suc n) (c ∷ s) h = elim (Bool-cases (is_digit c)) [
  | inl d ↦ (ground arith, ts-HasNoSlash n s (ground (arith, h)))
  | inr d ↦
      let e = (str_eq_iff (c ∷ s) (codes ".ts")).0 (ground (arith, h)) in
      subst HasNoSlash (sym e) (omega arith)
]

digits-HasNoSlash :
    (s : Str)
    → elim s [ [] ↦ false | c ∷ t ↦ is_digit c && digits_then_ts 5 t ] ≡ true
    → HasNoSlash s
digits-HasNoSlash [] h = tt
digits-HasNoSlash (c ∷ t) h = (ground arith, ts-HasNoSlash 5 t (ground arith))

of_prefix-HasNoSlash :
    (rest : Str) → is_segment_name (codes "seg" ++ rest) ≡ true → HasNoSlash (codes "seg" ++ rest)
unfolding is_segment_name
of_prefix-HasNoSlash rest h =
    (omega arith, (omega arith, (omega arith, digits-HasNoSlash rest (ground (arith, h)))))

segment_name-HasNoSlash : (name : Str) → is_segment_name name ≡ true → HasNoSlash name
unfolding is_segment_name
segment_name-HasNoSlash name h =
    let (rest, e) = has_prefix_sound name (codes "seg") (ground arith) in
    subst HasNoSlash (sym e)
      (of_prefix-HasNoSlash rest (subst (λ (n : Str). is_segment_name n ≡ true) e h))

await_segment_sound :
    (rounds deadline : ℕ) (path : Str) (looks : ℕ → Look) (found : Str)
    → await_segment rounds deadline path looks ≡ some (ok found)
    → found ≡ path
unfolding await_segment
await_segment_sound zero deadline path looks found h = absurd (cc)
await_segment_sound (suc rounds) deadline path looks found h =
    ground (arith, await_segment_sound rounds deadline path (λ n. looks (suc n)) found)

module _ (join : Str → Str → Str) where
  -- A segment that is served lies in the directory of the session that the key names, under a name
  -- that holds no slash.
  pub segment_contained :
      (rounds now : ℕ) (key name : Str) (looks : ℕ → Look) (m : Manager) (path : Str)
      → (segment join rounds now key name looks m).0 ≡ some (ok path)
      → (sess : Session) × (Map.get key m.sessions ≡ some sess)
        × (path ≡ join sess.dir name)
        × HasNoSlash name
  unfolding segment get_session
  segment_contained rounds now key name looks m path h = elim (Bool-cases (is_segment_name name)) [
    | inr e ↦ absurd (ground arith)
    | inl e ↦ elim (Option-cases (Map.get key m.sessions)) [
      | inl f ↦ absurd (ground arith)
      | inr (sess, f) ↦ (
        sess,
        f,
        ground
            (arith, await_segment_sound rounds (now + 20 * second) (join sess.dir name) looks path),
        segment_name-HasNoSlash name e,
      )
    ]
  ]
