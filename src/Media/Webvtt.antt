-- ===== src/Media/Webvtt.antt =====
-- What the WebVTT of internal/media/subtitles.go is.
use mathlib.Core.List.{append-nil}
use cubozoa.Prelude.{
  ℕ, zero, suc, ◌≡◌, inl, inr, refl, sym, ap, ◌∙◌, false, List, [], ◌∷◌, ◌++◌, map, any, length,
  Str, codes, ◌==◌, ==_iff, All, Bool-cases, append_assoc, arith,
}
use cubozoa.Media.Subtitles.{
  split, split_loop, replace_crlf, stamp_loop, vtt_timestamp, vtt_line, write_lines, srt_to_vtt,
}

abbrev pub Lacks : ℕ → Str → Type 0
Lacks sep s = any (λ c. c == sep) s ≡ false

pub Lacks-append : (sep : ℕ) (xs ys : Str) → Lacks sep xs → Lacks sep ys → Lacks sep (xs ++ ys)
Lacks-append sep [] ys h k = k
Lacks-append sep (x ∷ xs) ys h k = ground (arith, Lacks-append sep xs ys)

pub split_loop-Lacks :
    (sep : ℕ) (piece s : Str) → Lacks sep piece → All (Lacks sep) (split_loop sep piece s)
unfolding split_loop
split_loop-Lacks sep piece [] h = (h, tt)
split_loop-Lacks sep piece (c ∷ s) h = elim (Bool-cases (c == sep)) [
  | inl e ↦ rw (e, split_loop) (h, split_loop-Lacks sep [] s refl)
  | inr e ↦
      rw (e, split_loop)
        (split_loop-Lacks sep (piece ++ (c ∷ [])) s
          (Lacks-append sep piece (c ∷ []) h (ground (arith, e))))
]

-- A piece without separators up to the next one.
pub split_loop-append :
    (sep : ℕ) (piece line rest : Str)
    → Lacks sep line
    → split_loop sep piece (line ++ (sep ∷ rest)) ≡ (piece ++ line) ∷ split_loop sep [] rest
unfolding split_loop
split_loop-append sep piece [] rest h =
    rw ((==_iff sep sep).1 refl, split_loop)
      (ap (λ (p : Str). p ∷ split_loop sep [] rest) (sym (append-nil piece)))
split_loop-append sep piece (c ∷ line) rest h =
    let differs : (c == sep) ≡ false = ground (arith, h) in
    rw (differs, split_loop)
      (split_loop-append sep (piece ++ (c ∷ [])) line rest (ground (arith, h))
        ∙ ap (λ (p : Str). p ∷ split_loop sep [] rest) (append_assoc piece (c ∷ []) line))

stamp_loop-Lacks : (left : ℕ) (s : Str) → Lacks 10 s → Lacks 10 (stamp_loop left s)
unfolding stamp_loop
stamp_loop-Lacks left [] h = refl
stamp_loop-Lacks zero (c ∷ s) h = ground (arith, stamp_loop-Lacks 11 s, stamp_loop-Lacks 0 s)
stamp_loop-Lacks (suc left) (c ∷ s) h = ground (arith, stamp_loop-Lacks left s)

vtt_line-Lacks : (s : Str) → Lacks 10 s → Lacks 10 (vtt_line s)
unfolding vtt_line vtt_timestamp
vtt_line-Lacks s h = ground (arith, stamp_loop-Lacks 0 s h)

split-write_lines :
    (lines : List Str)
    → All (Lacks 10) lines
    → split_loop 10 [] (write_lines lines) ≡ map vtt_line lines ++ ([] ∷ [])
unfolding write_lines split_loop
split-write_lines [] h = refl
split-write_lines (line ∷ lines) (h, hs) =
    split_loop-append 10 [] (vtt_line line) (write_lines lines) (vtt_line-Lacks line h)
    ∙ ap (◌∷◌ (vtt_line line)) (split-write_lines lines hs)

stamp_loop-length : (left : ℕ) (s : Str) → length (stamp_loop left s) ≡ length s
unfolding stamp_loop
stamp_loop-length left [] = refl
stamp_loop-length zero (c ∷ s) = ground (arith, stamp_loop-length 11 s, stamp_loop-length 0 s)
stamp_loop-length (suc left) (c ∷ s) = ap (λ (n : ℕ). suc n) (stamp_loop-length left s)

vtt_line-length : (line : Str) → length (vtt_line line) ≡ length line
unfolding vtt_line vtt_timestamp
vtt_line-length line = ground (arith, stamp_loop-length 0 line)

-- The WebVTT of a SubRip text has its lines in their order, behind a first line "WEBVTT" and an empty
-- one and before an empty one, and each is of its old length.
pub srt_to_vtt_lem :
    (srt : Str)
    → (split 10 (srt_to_vtt srt)
        ≡ codes "WEBVTT" ∷ [] ∷ (map vtt_line (split 10 (replace_crlf srt)) ++ ([] ∷ [])))
      × ((line : Str) → length (vtt_line line) ≡ length line)
unfolding srt_to_vtt split
srt_to_vtt_lem srt = (
  split_loop-append 10 [] (codes "WEBVTT") (10 ∷ write_lines (split_loop 10 [] (replace_crlf srt)))
        refl
      ∙ ap (◌∷◌ (codes "WEBVTT")) (
          split_loop-append 10 [] [] (write_lines (split_loop 10 [] (replace_crlf srt))) refl
          ∙ ap (◌∷◌ []) (split-write_lines _ (split_loop-Lacks 10 [] (replace_crlf srt) refl))),
  vtt_line-length,
)
