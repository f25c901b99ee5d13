-- ===== src/Server/Hls/Lines.antt =====
-- The lines of the playlists that internal/server/handlers_hls.go rewrites.
use mathlib.Core.List.{append-nil}
use cubozoa.Prelude.{
  ℕ, zero, suc, ◌+◌, ◌/◌, ◌%◌, ◌≡◌, refl, sym, ap, ◌∙◌, inl, inr, false, ◌||◌, ltb, List, [], ◌∷◌,
  ◌++◌, map, Str, codes, is_empty, has_prefix, itoa, length, Bool, true, ◌<◌, ==_iff, digits, All,
  ◌==◌, arith, Bool-cases, append_assoc, if◌then◌else◌,
}
use cubozoa.Media.Subtitles.{split, split_loop}
use cubozoa.Media.Webvtt.{Lacks, Lacks-append, split_loop-Lacks, split_loop-append}
use cubozoa.Server.Url.{
  is_unreserved, percent, query_byte, query_escape, is_path_byte, path_byte, path_escape,
}
use cubozoa.Server.Hls.{query_of, join_lines, rewrite_line, rewrite_segments}

split_loop-last :
    (sep : ℕ) (piece line : Str) → Lacks sep line → split_loop sep piece line ≡ (piece ++ line) ∷ []
unfolding split_loop
split_loop-last sep piece [] h = ap (λ (p : Str). p ∷ []) (sym (append-nil piece))
split_loop-last sep piece (c ∷ line) h =
    let differs : (c == sep) ≡ false = ground (arith, h) in
    rw (differs, split_loop)
      (split_loop-last sep (piece ++ (c ∷ [])) line (ground (arith, h))
        ∙ ap (λ (p : Str). p ∷ []) (append_assoc piece (c ∷ []) line))

split_loop-some : (sep : ℕ) (piece s : Str) → 0 < length (split_loop sep piece s)
unfolding split_loop
split_loop-some sep piece [] = omega arith
split_loop-some sep piece (c ∷ s) = elim (Bool-cases (c == sep)) [
  | inl e ↦ rw (e, split_loop) (omega arith)
  | inr e ↦ rw (e, split_loop) (split_loop-some sep (piece ++ (c ∷ [])) s)
]

-- What is joined line by line splits into the same lines.
split-join_lines :
    (l : Str) (ls : List Str) → All (Lacks 10) (l ∷ ls) → split 10 (join_lines (l ∷ ls)) ≡ l ∷ ls
unfolding split join_lines
split-join_lines l [] (h, k) = split_loop-last 10 [] l h
split-join_lines l (j ∷ ls) (h, k) =
    split_loop-append 10 [] l (join_lines (j ∷ ls)) h ∙ ap (◌∷◌ l) (split-join_lines j ls k)

percent-Lacks : (c : ℕ) → Lacks 10 (percent c)
percent-Lacks c = ground arith

-- A byte of a class that a line break is not in.
kept_byte : (p : ℕ → Bool) (c : ℕ) → p 10 ≡ false → p c ≡ true → Lacks 10 (c ∷ [])
kept_byte p c out kept = elim (Bool-cases (c == 10)) [
  | inl e ↦ absurd (ground (arith, out, kept, ap p ((==_iff c 10).0 e)))
  | inr e ↦ ground (arith, e)
]

query_byte-Lacks : (c : ℕ) → Lacks 10 (query_byte c)
unfolding query_byte is_unreserved
query_byte-Lacks c = elim (Bool-cases (is_unreserved c)) [
  | inl e ↦ rw (e, query_byte) (kept_byte is_unreserved c refl e)
  | inr e ↦ elim (Bool-cases (c == b' ')) [
    | inl f ↦ rw (e, f, query_byte)
    | inr f ↦ rw (e, f, query_byte) (percent-Lacks c)
  ]
]

path_byte-Lacks : (c : ℕ) → Lacks 10 (path_byte c)
unfolding path_byte is_path_byte is_unreserved
path_byte-Lacks c = elim (Bool-cases (is_path_byte c)) [
  | inl e ↦ rw (e, path_byte) (kept_byte is_path_byte c refl e)
  | inr e ↦ rw (e, path_byte) (percent-Lacks c)
]

query_escape-Lacks : (s : Str) → Lacks 10 (query_escape s)
unfolding query_escape
query_escape-Lacks [] = refl
query_escape-Lacks (c ∷ s) =
    Lacks-append 10 (query_byte c) (query_escape s) (query_byte-Lacks c) (query_escape-Lacks s)

path_escape-Lacks : (s : Str) → Lacks 10 (path_escape s)
unfolding path_escape
path_escape-Lacks [] = refl
path_escape-Lacks (c ∷ s) =
    Lacks-append 10 (path_byte c) (path_escape s) (path_byte-Lacks c) (path_escape-Lacks s)

digits-Lacks : (fuel n : ℕ) → Lacks 10 (digits fuel n)
unfolding digits
digits-Lacks zero n = refl
digits-Lacks (suc fuel) n = ground (
  arith,
  Lacks-append 10 (digits fuel (n / 10)) ((b'0' + n % 10) ∷ []) (digits-Lacks fuel (n / 10)),
)

seek_part-Lacks :
    (b : Bool) (start_ticks : ℕ)
    → Lacks 10 (if b then codes "&StartTimeTicks=" ++ itoa start_ticks else [])
unfolding itoa
seek_part-Lacks true n = digits-Lacks (suc n) n
seek_part-Lacks false n = refl

query_of-Lacks : (token : Str) (start_ticks : ℕ) → Lacks 10 (query_of token start_ticks)
unfolding query_of
query_of-Lacks token start_ticks =
    Lacks-append 10 (query_escape token)
      (if ltb 0 start_ticks then codes "&StartTimeTicks=" ++ itoa start_ticks else [])
      (query_escape-Lacks token) (seek_part-Lacks (ltb 0 start_ticks) start_ticks)

module _ (trim_space : Str → Str) where
  rewrite_line-Lacks :
      (prefix q line : Str)
      → Lacks 10 prefix
      → Lacks 10 q
      → Lacks 10 line
      → Lacks 10 (rewrite_line trim_space prefix q line)
  unfolding rewrite_line
  rewrite_line-Lacks prefix q line hp hq hl =
      let trimmed = trim_space line in
      elim (Bool-cases (is_empty trimmed || has_prefix trimmed (codes "#"))) [
        | inl e ↦ rw (e, rewrite_line) hl
        | inr e ↦
            rw (e, rewrite_line)
              (Lacks-append 10 prefix (path_escape trimmed ++ q) hp
                (Lacks-append 10 (path_escape trimmed) q (path_escape-Lacks trimmed) hq))
      ]

  rewrite_lines-Lacks :
      (prefix q : Str) (ls : List Str)
      → Lacks 10 prefix
      → Lacks 10 q
      → All (Lacks 10) ls
      → All (Lacks 10) (map (rewrite_line trim_space prefix q) ls)
  rewrite_lines-Lacks prefix q [] hp hq h = tt
  rewrite_lines-Lacks prefix q (l ∷ ls) hp hq (h, hs) =
      (rewrite_line-Lacks prefix q l hp hq h, rewrite_lines-Lacks prefix q ls hp hq hs)

  -- What is joined from lines, of which there is one, splits into the rewritten lines.
  split_of_rewritten :
      (prefix q : Str) (ls : List Str)
      → Lacks 10 prefix
      → Lacks 10 q
      → All (Lacks 10) ls
      → 0 < length ls
      → split 10 (join_lines (map (rewrite_line trim_space prefix q) ls))
        ≡ map (rewrite_line trim_space prefix q) ls
  split_of_rewritten prefix q [] hp hq h n = absurd (omega (arith, n))
  split_of_rewritten prefix q (l ∷ ls) hp hq h n =
      split-join_lines (rewrite_line trim_space prefix q l)
        (map (rewrite_line trim_space prefix q) ls) (rewrite_lines-Lacks prefix q (l ∷ ls) hp hq h)

  -- The lines of a rewritten playlist are those of the playlist, each of them rewritten by itself, if
  -- the prefix holds no line break: whatever the token and the names of the segments hold, no line is
  -- broken, lost or added.
  pub rewrite_segments_lem :
      (text prefix token : Str) (start_ticks : ℕ)
      → Lacks 10 prefix
      → split 10 (rewrite_segments trim_space text prefix token start_ticks)
        ≡ map (rewrite_line trim_space prefix (query_of token start_ticks)) (split 10 text)
  unfolding rewrite_segments split
  rewrite_segments_lem text prefix token start_ticks h =
      split_of_rewritten prefix (query_of token start_ticks) (split_loop 10 [] text) h
        (query_of-Lacks token start_ticks) (split_loop-Lacks 10 [] text refl)
        (split_loop-some 10 [] text)
