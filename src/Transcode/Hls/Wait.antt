-- ===== src/Transcode/Hls/Wait.antt =====
-- What a client reads of a session in internal/transcode/hls.go: Playlist and Segment, which poll
-- until the file is there or their deadline has passed.
-- The n-th round of a poll sees the clock at `at n`, and the file and the process as the environment
-- shows them.
use cubozoa.Prelude.{
  ℕ, zero, suc, ◌+◌, ◌*◌, Bool, false, not, ◌&&◌, Option, none, some, [], ◌∷◌, Str, codes, is_empty,
  str_eq, ltb, leb, has_prefix, drop, Result, ok, err, if◌then◌else◌,
}
use cubozoa.Store.Models.{Time}
use cubozoa.Transcode.Hls.Manager.{
  Manager, HlsError, unavailable, session_failed, not_ready, invalid_name, get_session,
}

-- `^seg\d{1,6}\.ts$`: after the digits nothing but the suffix.
abbrev pub is_digit : ℕ → Bool
is_digit c = leb b'0' c && leb c b'9'

unfoldable pub digits_then_ts : ℕ → Str → Bool
digits_then_ts zero s = str_eq s (codes ".ts")
digits_then_ts (suc more) [] = false
digits_then_ts (suc more) (c ∷ s) =
    let rest = digits_then_ts more s in if is_digit c then rest else str_eq (c ∷ s) (codes ".ts")

unfoldable pub is_segment_name : Str → Bool
unfolding digits_then_ts
is_segment_name name =
    let digits = drop 3 name in
    has_prefix name (codes "seg")
    && elim digits [ [] ↦ false | c ∷ s ↦ is_digit c && digits_then_ts 5 s ]

-- What one round of `Playlist` sees: the file, the file again if ffmpeg has exited, and the clock.
pub record Poll : Type 0 where
  pub at : Time
  pub content : Option Str
  pub exited : Bool
  pub after_exit : Option Str

-- `err == nil && len(data) > 0`
abbrev pub filled : Option Str → Option Str
filled none = none
filled (some text) = if is_empty text then none else some text

-- The loop of `Playlist`; `none` means that the rounds ran out.
unfoldable pub await_playlist : ℕ → Time → (ℕ → Poll) → Option (Result HlsError Str)
await_playlist zero deadline polls = none
await_playlist (suc rounds) deadline polls =
    let p = polls 0 in
    let later = await_playlist rounds deadline (λ n. polls (suc n)) in
    elim (filled p.content) [
      | some text ↦ some (ok text)
      | none ↦
          if p.exited
          then elim (filled p.after_exit) [
            | some text ↦ some (ok text)
            | none ↦ some (err session_failed)
          ]
          else if ltb deadline p.at
          then some (err not_ready)
          else later
    ]

abbrev pub second : ℕ
second = 1000000000

unfoldable pub playlist :
    ℕ → Time → Str → (ℕ → Poll) → Manager → Option (Result HlsError Str) × Manager
unfolding await_playlist get_session
playlist rounds now key polls m =
    let (found, m') = get_session now key m in
    elim found [
      | none ↦ (some (err unavailable), m')
      | some sess ↦ (await_playlist rounds (now + 15 * second) polls, m')
    ]

-- What one round of `Segment` sees.
pub record Look : Type 0 where
  pub at : Time
  pub is_file : Bool

unfoldable pub await_segment : ℕ → Time → Str → (ℕ → Look) → Option (Result HlsError Str)
await_segment zero deadline path looks = none
await_segment (suc rounds) deadline path looks =
    let l = looks 0 in
    let later = await_segment rounds deadline path (λ n. looks (suc n)) in
    if l.is_file then some (ok path) else if ltb deadline l.at then some (err not_ready) else later

module _ (join : Str → Str → Str) where
  unfoldable pub segment :
      ℕ → Time → Str → Str → (ℕ → Look) → Manager → Option (Result HlsError Str) × Manager
  unfolding await_segment get_session is_segment_name
  segment rounds now key name looks m =
      if not (is_segment_name name)
      then (some (err invalid_name), m)
      else let (found, m') = get_session now key m in
        elim found [
          | none ↦ (some (err unavailable), m')
          | some sess ↦ (await_segment rounds (now + 20 * second) (join sess.dir name) looks, m')
        ]
