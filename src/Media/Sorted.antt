-- ===== src/Media/Sorted.antt =====
-- When a listing of internal/media/service.go does not depend on the order in which the store gives the
-- items (internal/store/jsonstore.go ranges over a map, in another order each time).
use mathlib.Core.List.{Mem, Memᴰ, Perm, Permᴰ, mem-cons_self}
use mathlib.Core.List.Perm
use mathlib.Core.List.Memᴰ
use mathlib.Core.Logic.{∥∥₁_elim, ∥∥₁_prop}
use cubozoa.Prelude.{
  ◌≡◌, sym, subst, ap, ◌∙◌, Bool, true, false, List, [], ◌∷◌, keep, All, IsWeak, InOrder,
  Bool-cases, inl, inr,
}
use cubozoa.Store.Models.{MediaItem}

pub MediaItem-IsSet : IsSet MediaItem
MediaItem-IsSet = hlevel

Bool-IsSet : IsSet Bool
Bool-IsSet = hlevel

-- Each element is less than all behind it: no two of them tie.
abbrev pub IsStrict : {A : Type 0} → (A → A → Bool) → List A → Type 0
IsStrict less [] = Unit
IsStrict less (x ∷ xs) = All (λ y. less x y ≡ true) xs × IsStrict less xs

module _ {A : Type 0} where
  All-at : (P : A → Type 0) (x : A) (xs : List A) → All P xs → Memᴰ x xs → P x
  All-at P x [] a m = absurd (Memᴰ.not-nil m)
  All-at P x (y ∷ ys) (a, h) m = elim (Memᴰ.cases_cons m) [
    | inl e ↦ subst P (sym e) a
    | inr k ↦ All-at P x ys h k
  ]

  keep-swap :
      (p : A → Bool) (x y : A) (xs : List A) → Perm (keep p (x ∷ y ∷ xs)) (keep p (y ∷ x ∷ xs))
  keep-swap p x y xs = elim (Bool-cases (p x)) [
    | inl a ↦ elim (Bool-cases (p y)) [
      | inl b ↦ rw (a, b) (Perm.swap y x (keep p xs))
      | inr b ↦ rw (a, b) (Perm.refl _)
    ]
    | inr a ↦ rw a (Perm.refl _)
  ]

  keep-Permᴰ : (p : A → Bool) (xs ys : List A) → Permᴰ xs ys → Perm (keep p xs) (keep p ys)
  keep-Permᴰ p _ _ Permᴰ.nil = Perm.nil
  keep-Permᴰ p _ _ (Permᴰ.cons {a} {b} {l₁} {l₂} e d) =
      let rest = keep-Permᴰ p l₁ l₂ d in
      subst (λ z. Perm (keep p (a ∷ l₁)) (keep p (z ∷ l₂))) e
        (elim (Bool-cases (p a)) [ inl t ↦ rw t (Perm.cons a rest) | inr t ↦ rw t rest ])
  keep-Permᴰ p _ _ (Permᴰ.swap {a} {b} {a' = c} {b' = d} {l} e f) =
      subst (λ z. Perm (keep p (a ∷ b ∷ l)) (keep p (z ∷ d ∷ l))) f
        (subst (λ z. Perm (keep p (a ∷ b ∷ l)) (keep p (b ∷ z ∷ l))) e (keep-swap p a b l))
  keep-Permᴰ p _ _ (Permᴰ.trans {l₁} {l₂} {l₃} c d) =
      Perm.trans (keep-Permᴰ p l₁ l₂ c) (keep-Permᴰ p l₂ l₃ d)

  pub keep-Perm : (p : A → Bool) (xs ys : List A) → Perm xs ys → Perm (keep p xs) (keep p ys)
  keep-Perm p xs ys h = ∥∥₁_elim h ∥∥₁_prop (keep-Permᴰ p xs ys)

  module _ (A-IsSet : IsSet A) (less : A → A → Bool) (weak : IsWeak less) where
    irreflexive : (x : A) → less x x ≡ false
    irreflexive x = elim (Bool-cases (less x x)) [ inl t ↦ weak.asym x x t | inr t ↦ t ]

    -- The first of a list in order is behind none of it.
    first_least :
        (x y : A) (ys : List A) → InOrder less (y ∷ ys) → Mem x (y ∷ ys) → less x y ≡ false
    first_least x y ys (a, h) m = ∥∥₁_elim m (Bool-IsSet _ _) (λ d. elim (Memᴰ.cases_cons d) [
      | inl e ↦ subst (λ z. less x z ≡ false) e (irreflexive x)
      | inr k ↦ All-at (λ z. less z y ≡ false) x ys a k
    ])

    first_same :
        (x y : A) (xs : List A)
        → All (λ z. less x z ≡ true) xs
        → less x y ≡ false
        → Mem y (x ∷ xs)
        → y ≡ x
    first_same x y xs a n m = ∥∥₁_elim m (A-IsSet y x) (λ d. elim (Memᴰ.cases_cons d) [
      | inl e ↦ e
      | inr k ↦ absurd (true_false (sym (All-at (λ z. less x z ≡ true) y xs a k) ∙ n))
    ])
      where
        true_false : true ≡ false → ⊥
        true_false e = cc

    -- A list without ties is the only order of its elements.
    pub strict_unique : (xs ys : List A) → IsStrict less xs → InOrder less ys → Perm ys xs → ys ≡ xs
    strict_unique [] ys s h p = Perm.eq-nil p
    strict_unique (x ∷ xs) [] s h p = Perm.nil-eq p
    strict_unique (x ∷ xs) (y ∷ ys) (a, s) (b, h) p =
        let least = first_least x y ys (b, h) ((Perm.mem_iff p).1 mem-cons_self) in
        let e = first_same x y xs a least ((Perm.mem_iff p).0 mem-cons_self) in
        let q = Perm.cons_inv (subst (λ z. Perm (z ∷ ys) (x ∷ xs)) e p) in
        ap (λ z. z ∷ ys) e ∙ ap (◌∷◌ x) (strict_unique xs ys s h q)
