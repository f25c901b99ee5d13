-- ===== src/Livetv/Sorting.antt =====
-- The insertion sort by which internal/livetv/service.go orders the guide (sort.SliceStable).
use mathlib.Core.List.{Memᴰ}
use mathlib.Core.List.Memᴰ
use cubozoa.Prelude.{
  ◌≤◌, ◌⊎◌, ◌≡◌, ◌≢◌, ◌↔◌, refl, inl, inr, List, [], ◌∷◌, ltb, All, arith, Bool-cases,
}
use cubozoa.Store.Models.{Time}
use cubozoa.Livetv.Guide.{insert_by, sort_by}

module _ {A : Type 0} (start : A → Time) where
  -- Each entry starts no later than all behind it.
  abbrev pub Rising : List A → Type 0
  Rising [] = Unit
  Rising (x ∷ xs) = All (λ y. start x ≤ start y) xs × Rising xs

  All-le :
      (n m : Time) (xs : List A) → n ≤ m → All (λ y. m ≤ start y) xs → All (λ y. n ≤ start y) xs
  All-le n m [] h a = tt
  All-le n m (x ∷ xs) h (b, a) = (omega arith, All-le n m xs h a)

  insert_by-All :
      (n : Time) (e : A) (xs : List A)
      → n ≤ start e
      → All (λ y. n ≤ start y) xs
      → All (λ y. n ≤ start y) (insert_by start e xs)
  unfolding insert_by
  insert_by-All n e [] h a = (h, tt)
  insert_by-All n e (x ∷ xs) h (b, a) = elim (Bool-cases (ltb (start e) (start x))) [
    | inl t ↦ rw t (h, (b, a))
    | inr t ↦ rw t (b, insert_by-All n e xs h a)
  ]

  insert_by-Rising : (e : A) (xs : List A) → Rising xs → Rising (insert_by start e xs)
  unfolding insert_by
  insert_by-Rising e [] h = (tt, tt)
  insert_by-Rising e (x ∷ xs) (a, h) = elim (Bool-cases (ltb (start e) (start x))) [
    | inl t ↦
        let le : start e ≤ start x = ground arith in
        rw t ((le, All-le (start e) (start x) xs le a), (a, h))
    | inr t ↦ rw t (insert_by-All (start x) e xs (ground arith) a, insert_by-Rising e xs h)
  ]

  pub sort_by-Rising : (es sorted : List A) → Rising sorted → Rising (sort_by start es sorted)
  unfolding sort_by
  sort_by-Rising [] sorted h = h
  sort_by-Rising (e ∷ es) sorted h =
      sort_by-Rising es (insert_by start e sorted) (insert_by-Rising e sorted h)

module _ {A : Type 0} (start : A → Time) where
  insert_by_nonempty : (e : A) (xs : List A) → insert_by start e xs ≢ []
  unfolding insert_by
  insert_by_nonempty e [] h = ground (arith, h)
  insert_by_nonempty e (x ∷ xs) h = elim (Bool-cases (ltb (start e) (start x))) [
    | inl t ↦ ground (arith, t, h)
    | inr t ↦ ground (arith, t, h)
  ]

  sort_by_nonempty : (es sorted : List A) → sorted ≢ [] → sort_by start es sorted ≢ []
  unfolding sort_by
  sort_by_nonempty [] sorted h e = h e
  sort_by_nonempty (x ∷ es) sorted h e =
      sort_by_nonempty es (insert_by start x sorted) (insert_by_nonempty x sorted) e

  pub sort_by_empty : (es : List A) → (sort_by start es [] ≡ []) ↔ (es ≡ [])
  unfolding sort_by
  sort_by_empty [] = (λ e. refl, λ e. refl)
  sort_by_empty (x ∷ es) = (
    (λ e. absurd (sort_by_nonempty es (insert_by start x []) (insert_by_nonempty x []) e)),
    λ e. absurd (ground (arith, e)),
  )

module _ {A : Type 0} (start : A → Time) (P : A → Type 0) where
  All-insert_by : (e : A) (xs : List A) → P e → All P xs → All P (insert_by start e xs)
  unfolding insert_by
  All-insert_by e [] pe h = (pe, tt)
  All-insert_by e (x ∷ xs) pe (px, h) = elim (Bool-cases (ltb (start e) (start x))) [
    | inl t ↦ rw t (pe, (px, h))
    | inr t ↦ rw t (px, All-insert_by e xs pe h)
  ]

  pub sort_by-All : (es sorted : List A) → All P es → All P sorted → All P (sort_by start es sorted)
  unfolding sort_by
  sort_by-All [] sorted h k = k
  sort_by-All (e ∷ es) sorted (pe, h) k =
      sort_by-All es (insert_by start e sorted) h (All-insert_by e sorted pe k)

module _ {A : Type 0} (start : A → Time) (v : A) where
  insert_by-here : (e : A) (xs : List A) → v ≡ e → Memᴰ v (insert_by start e xs)
  unfolding insert_by
  insert_by-here e [] h = Memᴰ.head h
  insert_by-here e (y ∷ xs) h = elim (Bool-cases (ltb (start e) (start y))) [
    | inl t ↦ rw t (Memᴰ.head h)
    | inr t ↦ rw t (Memᴰ.tail (insert_by-here e xs h))
  ]

  insert_by-there : (e : A) (xs : List A) → Memᴰ v xs → Memᴰ v (insert_by start e xs)
  unfolding insert_by
  insert_by-there e _ (Memᴰ.head {x = y} {xs = ys} h) =
      elim (Bool-cases (ltb (start e) (start y))) [
        | inl t ↦ rw t (Memᴰ.tail (Memᴰ.head h))
        | inr t ↦ rw t (Memᴰ.head h)
      ]
  insert_by-there e _ (Memᴰ.tail {x = y} {xs = ys} m) =
      elim (Bool-cases (ltb (start e) (start y))) [
        | inl t ↦ rw t (Memᴰ.tail (Memᴰ.tail m))
        | inr t ↦ rw t (Memᴰ.tail (insert_by-there e ys m))
      ]

  pub sort_by-Memᴰ :
      (es sorted : List A) → Memᴰ v es ⊎ Memᴰ v sorted → Memᴰ v (sort_by start es sorted)
  unfolding sort_by
  sort_by-Memᴰ [] sorted (inl m) = absurd (Memᴰ.not-nil m)
  sort_by-Memᴰ [] sorted (inr m) = m
  sort_by-Memᴰ (e ∷ es) sorted (inl m) = elim (Memᴰ.cases_cons m) [
    | inl h ↦ sort_by-Memᴰ es (insert_by start e sorted) (inr (insert_by-here e sorted h))
    | inr k ↦ sort_by-Memᴰ es (insert_by start e sorted) (inl k)
  ]
  sort_by-Memᴰ (e ∷ es) sorted (inr m) =
      sort_by-Memᴰ es (insert_by start e sorted) (inr (insert_by-there e sorted m))
