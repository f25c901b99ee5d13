-- ===== src/Prelude/Order.antt =====
-- The order of Go strings by their bytes, and stable sorting by a comparison.
use mathlib.Core.Path.{◌≡◌, refl}
use mathlib.Core.Bool.{Bool, true, false, ◌&&◌, ◌||◌}
use mathlib.Core.List.{List, [], ◌∷◌, ◌++◌, Perm, perm_middle, append-nil}
use mathlib.Core.List.Perm
use mathlib.Core.Logic.{inl, inr}
use native.Mathlib.Omega.{arith}
use cubozoa.Prelude.Tests.{ltb, ◌==◌, if◌then◌else◌, Bool-cases}
use cubozoa.Prelude.Lists.{All, All-map}
use cubozoa.Prelude.Text.{Str, str_eq}

-- `bytes.Compare(a, b) < 0`
unfoldable pub str_lt : Str → Str → Bool
str_lt a [] = false
str_lt [] (y ∷ b) = true
str_lt (x ∷ a) (y ∷ b) = ltb x y || (x == y && str_lt a b)

pub str_lt_irrefl : (a : Str) → str_lt a a ≡ false
unfolding str_lt
str_lt_irrefl [] = refl
str_lt_irrefl (x ∷ a) = ground (arith, str_lt_irrefl a)

pub str_lt_trans : (a b c : Str) → str_lt a b ≡ true → str_lt b c ≡ true → str_lt a c ≡ true
unfolding str_lt
str_lt_trans a [] c h k = absurd (cc)
str_lt_trans a (y ∷ b) [] h k = absurd (cc)
str_lt_trans [] (y ∷ b) (z ∷ c) h k = refl
str_lt_trans (x ∷ a) (y ∷ b) (z ∷ c) h k = ground (arith, str_lt_trans a b c)

-- What is not below a bound stays so upwards.
pub not_lt_trans : (a b p : Str) → str_lt a p ≡ false → str_lt a b ≡ true → str_lt b p ≡ false
unfolding str_lt
not_lt_trans a b [] h k = refl
not_lt_trans [] b (z ∷ p) h k = absurd (cc)
not_lt_trans (x ∷ a) [] (z ∷ p) h k = absurd (cc)
not_lt_trans (x ∷ a) (y ∷ b) (z ∷ p) h k = ground (arith, not_lt_trans a b p)

pub str_lt_total : (a b : Str) → str_eq a b ≡ false → str_lt a b ≡ false → str_lt b a ≡ true
unfolding str_eq str_lt
str_lt_total [] [] n h = cc
str_lt_total [] (y ∷ b) n h = cc
str_lt_total (x ∷ a) [] n h = refl
str_lt_total (x ∷ a) (y ∷ b) n h = ground (arith, str_lt_total a b)

-- Two texts of which neither is below the next stay in that order.
pub not_lt_not_lt : (a b c : Str) → str_lt a b ≡ false → str_lt b c ≡ false → str_lt a c ≡ false
unfolding str_lt
not_lt_not_lt a b [] h k = refl
not_lt_not_lt a [] (z ∷ c) h k = absurd (cc)
not_lt_not_lt [] (y ∷ b) (z ∷ c) h k = absurd (cc)
not_lt_not_lt (x ∷ a) (y ∷ b) (z ∷ c) h k = ground (arith, not_lt_not_lt a b c)

pub str_lt_asym : (a b : Str) → str_lt a b ≡ true → str_lt b a ≡ false
unfolding str_lt
str_lt_asym a [] h = absurd (cc)
str_lt_asym [] (y ∷ b) h = refl
str_lt_asym (x ∷ a) (y ∷ b) h = ground (arith, str_lt_asym a b)

-- `sort.SliceStable`: an element comes behind those that it is not less than.
unfoldable pub insert_stable : {A : Type 0} → (A → A → Bool) → A → List A → List A
insert_stable less e [] = e ∷ []
insert_stable less e (x ∷ xs) =
    let rest = insert_stable less e xs in if less e x then e ∷ x ∷ xs else x ∷ rest

unfoldable pub sort_into : {A : Type 0} → (A → A → Bool) → List A → List A → List A
unfolding insert_stable
sort_into less [] sorted = sorted
sort_into less (e ∷ es) sorted = sort_into less es (insert_stable less e sorted)

unfoldable pub sort_stable : {A : Type 0} → (A → A → Bool) → List A → List A
unfolding sort_into
sort_stable less xs = sort_into less xs []

-- A comparison by which sorting makes sense.
pub record IsWeak {A : Type 0} (less : A → A → Bool) : Type 0 where
  pub asym : (a b : A) → less a b ≡ true → less b a ≡ false
  pub chain : (a b c : A) → less a b ≡ false → less b c ≡ false → less a c ≡ false

-- No element is less than one that stands before it.
abbrev pub InOrder : {A : Type 0} → (A → A → Bool) → List A → Type 0
InOrder less [] = Unit
InOrder less (x ∷ xs) = All (λ y. less y x ≡ false) xs × InOrder less xs

module _ {A : Type 0} (less : A → A → Bool) where
  insert_stable-Perm : (e : A) (xs : List A) → Perm (insert_stable less e xs) (e ∷ xs)
  unfolding insert_stable
  insert_stable-Perm e [] = Perm.refl _
  insert_stable-Perm e (x ∷ xs) = elim (Bool-cases (less e x)) [
    | inl t ↦ rw t (Perm.refl _)
    | inr t ↦ rw t (Perm.trans (Perm.cons x (insert_stable-Perm e xs)) (Perm.swap _ _ _))
  ]

  sort_into-Perm : (es sorted : List A) → Perm (sort_into less es sorted) (es ++ sorted)
  unfolding sort_into
  sort_into-Perm [] sorted = Perm.refl _
  sort_into-Perm (e ∷ es) sorted = Perm.trans (sort_into-Perm es (insert_stable less e sorted)) (
      Perm.trans (Perm.append (Perm.refl es) (insert_stable-Perm e sorted)) (perm_middle es sorted))

  pub sort_stable-Perm : (xs : List A) → Perm (sort_stable less xs) xs
  unfolding sort_stable
  sort_stable-Perm xs = rw (append-nil xs) at (sort_into-Perm xs [])

  pub insert_stable-All :
      (P : A → Type 0) (e : A) (xs : List A) → P e → All P xs → All P (insert_stable less e xs)
  unfolding insert_stable
  insert_stable-All P e [] h a = (h, tt)
  insert_stable-All P e (x ∷ xs) h (b, a) = elim (Bool-cases (less e x)) [
    | inl t ↦ rw t (h, (b, a))
    | inr t ↦ rw t (b, insert_stable-All P e xs h a)
  ]

  insert_stable-InOrder :
      (e : A) (xs : List A) → IsWeak less → InOrder less xs → InOrder less (insert_stable less e xs)
  unfolding insert_stable
  insert_stable-InOrder e [] w h = (tt, tt)
  insert_stable-InOrder e (x ∷ xs) w (a, h) = elim (Bool-cases (less e x)) [
    | inl t ↦ rw t ((w.asym e x t, All-map (λ y n. w.chain y x e n (w.asym e x t)) xs a), (a, h))
    | inr t ↦
        rw t (insert_stable-All (λ y. less y x ≡ false) e xs t a, insert_stable-InOrder e xs w h)
  ]

  sort_into-InOrder :
      (es sorted : List A)
      → IsWeak less
      → InOrder less sorted
      → InOrder less (sort_into less es sorted)
  unfolding sort_into
  sort_into-InOrder [] sorted w h = h
  sort_into-InOrder (e ∷ es) sorted w h =
      sort_into-InOrder es _ w (insert_stable-InOrder e sorted w h)

  pub sort_stable-InOrder : (xs : List A) → IsWeak less → InOrder less (sort_stable less xs)
  unfolding sort_stable
  sort_stable-InOrder xs w = sort_into-InOrder xs [] w tt
