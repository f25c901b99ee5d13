-- ===== src/Dvr/Words.antt =====
-- Normal titles of internal/dvr/recorder.go: words with one space between them.
use cubozoa.Prelude.{
  ℕ, ◌≡◌, ◌≢◌, refl, sym, ap, ap₂, ◌↔◌, ◌⊎◌, ◌∙◌, subst, inl, inr, Bool, true, false, [], ◌∷◌, ◌++◌,
  Str, str_eq, str_eq_iff, str_eq_refl, has_prefix, has_prefix-append, has_prefix_sound,
  append_assoc, ◌==◌, ==_iff, if◌then◌else◌, arith, Bool-cases,
}
use cubozoa.Host.{Host}
use cubozoa.Dvr.Title.{is_word, collapse, drop_last_space, normalize_title, title_matches}

-- Words and single spaces; after a space, and at the start, `prev` is true.
abbrev Spaced : Bool → Str → Type 0
Spaced prev [] = Unit
Spaced prev (c ∷ s) =
    if is_word c then Spaced false s else ((c ≡ b' ') × (prev ≡ false) × Spaced true s)

-- The same with no space at the end.
abbrev IsNormal : Bool → Str → Type 0
IsNormal prev [] = Unit
IsNormal prev (c ∷ s) =
    if is_word c
    then IsNormal false s
    else ((c ≡ b' ') × (prev ≡ false) × (s ≢ []) × IsNormal true s)

space_not_word : is_word b' ' ≡ false
unfolding is_word
space_not_word = refl

collapse-Spaced : (prev : Bool) (s : Str) → Spaced prev (collapse prev s)
unfolding collapse
collapse-Spaced prev [] = tt
collapse-Spaced true (c ∷ s) = elim (Bool-cases (is_word c)) [
  | inl w ↦ rw w (rw w (collapse-Spaced false s))
  | inr w ↦ rw w (collapse-Spaced true s)
]
collapse-Spaced false (c ∷ s) = elim (Bool-cases (is_word c)) [
  | inl w ↦ rw w (rw w (collapse-Spaced false s))
  | inr w ↦ rw w (rw space_not_word ((refl, refl, collapse-Spaced true s)))
]

word_not_space : (c : ℕ) → is_word c ≡ true → (c == b' ') ≡ false
unfolding is_word
word_not_space c w = ground arith

after_word :
    (prev : Bool) (c : ℕ) (s : Str) → is_word c ≡ true → Spaced prev (c ∷ s) → Spaced false s
after_word prev c s w ok =
    subst
      (λ (b : Bool). if b then Spaced false s else ((c ≡ b' ') × (prev ≡ false) × Spaced true s)) w
      ok

after_space :
    (prev : Bool) (c : ℕ) (s : Str)
    → is_word c ≡ false
    → Spaced prev (c ∷ s)
    → ((c ≡ b' ') × (prev ≡ false) × Spaced true s)
after_space prev c s w ok =
    subst
      (λ (b : Bool). if b then Spaced false s else ((c ≡ b' ') × (prev ≡ false) × Spaced true s)) w
      ok

-- A string that starts after a space starts with a word, so it is not all dropped.
drop_last_space_nonempty : (c : ℕ) (s : Str) → Spaced true (c ∷ s) → drop_last_space (c ∷ s) ≢ []
unfolding drop_last_space
drop_last_space_nonempty c [] ok e = elim (Bool-cases (is_word c)) [
  | inl w ↦ ground (arith, word_not_space c w)
  | inr w ↦ ground (arith, (after_space true c [] w ok).1)
]
drop_last_space_nonempty c (d ∷ s) ok e = ground arith

drop_last_space-IsNormal :
    (prev : Bool) (s : Str) → Spaced prev s → IsNormal prev (drop_last_space s)
unfolding drop_last_space
drop_last_space-IsNormal prev [] ok = tt
drop_last_space-IsNormal prev (c ∷ []) ok = elim (Bool-cases (is_word c)) [
  | inl w ↦ rw (word_not_space c w) (rw w tt)
  | inr w ↦ rw ((==_iff c b' ').1 ((after_space prev c [] w ok).0)) tt
]
drop_last_space-IsNormal prev (c ∷ d ∷ s) ok = elim (Bool-cases (is_word c)) [
  | inl w ↦ rw w (drop_last_space-IsNormal false (d ∷ s) (after_word prev c (d ∷ s) w ok))
  | inr w ↦
      let (e, p, rest) = after_space prev c (d ∷ s) w ok in
      rw w ((e, p, drop_last_space_nonempty d s rest, drop_last_space-IsNormal true (d ∷ s) rest))
]

-- A normalised title is words of a-z and 0-9 with exactly one space between two of them, none at an end.
normalize_title-IsNormal : (host : Host) (s : Str) → IsNormal true (normalize_title host s)
unfolding normalize_title
normalize_title-IsNormal host s =
    drop_last_space-IsNormal true (collapse true (host.to_lower s))
      (collapse-Spaced true (host.to_lower s))

IsNormal-after_word :
    (prev : Bool) (c : ℕ) (s : Str) → is_word c ≡ true → IsNormal prev (c ∷ s) → IsNormal false s
IsNormal-after_word prev c s w ok =
    subst
      (λ (b : Bool).
        if b then IsNormal false s else ((c ≡ b' ') × (prev ≡ false) × (s ≢ []) × IsNormal true s))
      w ok

IsNormal-after_space :
    (prev : Bool) (c : ℕ) (s : Str)
    → is_word c ≡ false
    → IsNormal prev (c ∷ s)
    → ((c ≡ b' ') × (prev ≡ false) × (s ≢ []) × IsNormal true s)
IsNormal-after_space prev c s w ok =
    subst
      (λ (b : Bool).
        if b then IsNormal false s else ((c ≡ b' ') × (prev ≡ false) × (s ≢ []) × IsNormal true s))
      w ok

collapse_normal : (prev : Bool) (s : Str) → IsNormal prev s → collapse prev s ≡ s
unfolding collapse
collapse_normal prev [] ok = refl
collapse_normal prev (c ∷ s) ok = elim (Bool-cases (is_word c)) [
  | inl w ↦
      rw w (ap (λ (l : Str). c ∷ l) (collapse_normal false s (IsNormal-after_word prev c s w ok)))
  | inr w ↦
      let (e, p, some_left, rest) = IsNormal-after_space prev c s w ok in
      rw (w, p) (ap₂ (λ (x : ℕ) (l : Str). x ∷ l) (sym e) (collapse_normal true s rest))
]

drop_last_space_normal : (prev : Bool) (s : Str) → IsNormal prev s → drop_last_space s ≡ s
unfolding drop_last_space
drop_last_space_normal prev [] ok = refl
drop_last_space_normal prev (c ∷ []) ok = elim (Bool-cases (is_word c)) [
  | inl w ↦ rw (word_not_space c w) refl
  | inr w ↦
      let (e, p, some_left, rest) = IsNormal-after_space prev c [] w ok in absurd (some_left refl)
]
drop_last_space_normal prev (c ∷ d ∷ s) ok = elim (Bool-cases (is_word c)) [
  | inl w ↦
      ap (λ (l : Str). c ∷ l)
        (drop_last_space_normal false (d ∷ s) (IsNormal-after_word prev c (d ∷ s) w ok))
  | inr w ↦
      let (e, p, some_left, rest) = IsNormal-after_space prev c (d ∷ s) w ok in
      ap (λ (l : Str). c ∷ l) (drop_last_space_normal true (d ∷ s) rest)
]

normalize_normal :
    (host : Host) (t : Str) → host.to_lower t ≡ t → IsNormal true t → normalize_title host t ≡ t
unfolding normalize_title
normalize_normal host t same normal =
    rw (same, collapse_normal true t normal) (drop_last_space_normal true t normal)

-- Normalising a title twice is normalising it once, where lowering the case leaves the normal title as it is.
normalize_title_twice :
    (host : Host) (s : Str)
    → host.to_lower (normalize_title host s) ≡ normalize_title host s
    → normalize_title host (normalize_title host s) ≡ normalize_title host s
normalize_title_twice host s low =
    normalize_normal host (normalize_title host s) low (normalize_title-IsNormal host s)

continues_sound :
    (airing series : Str)
    → has_prefix airing (series ++ b' ' ∷ []) ≡ true
    → (rest : Str) × airing ≡ series ++ b' ' ∷ rest
continues_sound airing series e =
    let (rest, same) = has_prefix_sound airing (series ++ b' ' ∷ []) e in
    (rest, same ∙ append_assoc series (b' ' ∷ []) rest)

continues_complete :
    (series rest : Str) → has_prefix (series ++ b' ' ∷ rest) (series ++ b' ' ∷ []) ≡ true
continues_complete series rest =
    subst (λ (l : Str). has_prefix l (series ++ b' ' ∷ []) ≡ true)
      (append_assoc series (b' ' ∷ []) rest) (has_prefix-append (series ++ b' ' ∷ []) rest)

-- A title matches a series name exactly when neither is empty and it is the name or continues it after a space, so "the shows" is no episode of "the show".
pub title_matches_iff :
    (airing series : Str)
    → (title_matches airing series ≡ true) ↔ (
        (series ≢ [])
        × (airing ≢ [])
        × ((airing ≡ series) ⊎ ((rest : Str) × airing ≡ series ++ b' ' ∷ rest)))
unfolding title_matches
title_matches_iff airing [] = (λ e. absurd (ground arith), λ e. absurd (e.0 refl))
title_matches_iff [] (x ∷ series) = (λ e. absurd (ground arith), λ e. absurd (e.1 refl))
title_matches_iff (a ∷ airing) (x ∷ series) = (
  (λ e. (λ z. ground arith, λ z. ground arith, matched (a ∷ airing) (x ∷ series) e)),
  λ e. taken (a ∷ airing) (x ∷ series) e.2,
)
  where
    matched :
        (l s : Str)
        → (if str_eq l s then true else has_prefix l (s ++ b' ' ∷ [])) ≡ true
        → (l ≡ s) ⊎ ((rest : Str) × l ≡ s ++ b' ' ∷ rest)
    matched l s e = elim (Bool-cases (str_eq l s)) [
      | inl same ↦ inl ((str_eq_iff l s).0 same)
      | inr other ↦ inr (continues_sound l s (ground (arith, e, other)))
    ]

    taken :
        (l s : Str)
        → (l ≡ s) ⊎ ((rest : Str) × l ≡ s ++ b' ' ∷ rest)
        → (if str_eq l s then true else has_prefix l (s ++ b' ' ∷ [])) ≡ true
    taken l s (inl e) = rw e (rw (str_eq_refl s) refl)
    taken l s (inr (rest, e)) =
        rw e (ground (arith, continues_complete s rest, Bool-cases (str_eq (s ++ b' ' ∷ rest) s)))
