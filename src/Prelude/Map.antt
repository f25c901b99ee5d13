-- ===== src/Prelude/Map.antt =====
-- Go maps with string keys, as association lists. The list's order stands for the order in which
-- `range` happens to visit the map.
use Prim.Native.Nat.{suc}
use mathlib.Core.Path.{◌≡◌, refl, ◌∙◌}
use mathlib.Core.Bool.{Bool, true, false}
use mathlib.Core.Option.{Option, none, some}
use mathlib.Core.List.{List, [], ◌∷◌}
use mathlib.Core.Logic.{inl, inr}
use native.Mathlib.Omega.{arith}
use cubozoa.Prelude.Tests.{if◌then◌else◌, Bool-cases}
use cubozoa.Prelude.Lists.{any, find, length}
use cubozoa.Prelude.Text.{Str, str_eq, str_eq_iff, str_eq_refl}

abbrev pub Map : Type 0 → Type 0
Map V = List (Str × V)

module _ {V : Type 0} where
  -- `v, ok := m[k]`
  unfoldable pub get : Str → Map V → Option V
  get k [] = none
  get k ((j, v) ∷ m) = if str_eq j k then some v else get k m

  -- `m[k] = v`
  unfoldable pub put : Str → V → Map V → Map V
  put k v [] = (k, v) ∷ []
  put k v ((j, w) ∷ m) = let rest = put k v m in if str_eq j k then (k, v) ∷ m else (j, w) ∷ rest

  -- `delete(m, k)`
  unfoldable pub remove : Str → Map V → Map V
  remove k [] = []
  remove k ((j, v) ∷ m) = let rest = remove k m in if str_eq j k then rest else (j, v) ∷ rest

  -- `for k, v := range m { if p(v) { delete(m, k) } }`
  unfoldable pub drop_where : (V → Bool) → Map V → Map V
  drop_where p [] = []
  drop_where p ((j, v) ∷ m) = let rest = drop_where p m in if p v then rest else (j, v) ∷ rest

  -- The values in visiting order.
  abbrev pub values : Map V → List V
  values [] = []
  values ((j, v) ∷ m) = v ∷ values m

  -- No key stands twice.
  abbrev pub IsMap : Map V → Type 0
  IsMap [] = Unit
  IsMap ((j, v) ∷ m) = (get j m ≡ none) × IsMap m

  pub get-put :
      (k j : Str) (v : V) (m : Map V) → get j (put k v m) ≡ (if str_eq k j then some v else get j m)
  unfolding get put
  get-put k j v [] = refl
  get-put k j v ((i, w) ∷ m) =
      ground (arith, str_eq_iff k j, str_eq_iff i k, str_eq_iff i j, get-put k j v m)

  pub get-put_self : (k : Str) (v : V) (m : Map V) → get k (put k v m) ≡ some v
  get-put_self k v m = rw (get-put k k v m, str_eq_refl k)

  pub get-remove :
      (k j : Str) (m : Map V) → get j (remove k m) ≡ (if str_eq k j then none else get j m)
  unfolding get remove
  get-remove k j [] = ground arith
  get-remove k j ((i, w) ∷ m) =
      ground (arith, str_eq_iff k j, str_eq_iff i k, str_eq_iff i j, get-remove k j m)

  abbrev pub unless : (V → Bool) → Option V → Option V
  unless p none = none
  unless p (some v) = if p v then none else some v

  pub get-drop_where :
      (p : V → Bool) (j : Str) (m : Map V) → IsMap m → get j (drop_where p m) ≡ unless p (get j m)
  unfolding get drop_where
  get-drop_where p j [] h = refl
  get-drop_where p j ((i, w) ∷ m) h = ground (arith, str_eq_iff i j, get-drop_where p j m h.1)

  pub put-IsMap : (k : Str) (v : V) (m : Map V) → IsMap m → IsMap (put k v m)
  unfolding get put
  put-IsMap k v [] h = (refl, tt)
  put-IsMap k v ((i, w) ∷ m) h =
      ground (arith, str_eq_iff i k, str_eq_iff k i, get-put k i v m, put-IsMap k v m h.1)

  pub remove-IsMap : (k : Str) (m : Map V) → IsMap m → IsMap (remove k m)
  unfolding get remove
  remove-IsMap k [] h = tt
  remove-IsMap k ((i, w) ∷ m) h =
      ground (arith, str_eq_iff i k, str_eq_iff k i, get-remove k i m, remove-IsMap k m h.1)

  pub drop_where-IsMap : (p : V → Bool) (m : Map V) → IsMap m → IsMap (drop_where p m)
  unfolding get drop_where
  drop_where-IsMap p [] h = tt
  drop_where-IsMap p ((i, w) ∷ m) h =
      ground (arith, get-drop_where p i m h.1, drop_where-IsMap p m h.1)

  -- `_, ok := m[k]`
  abbrev pub has : Str → Map V → Bool
  has k m = elim (get k m) [ none ↦ false | some _ ↦ true ]

  pub any-get :
      (p : V → Bool) (k : Str) (v : V) (m : Map V)
      → any p (values m) ≡ false
      → get k m ≡ some v
      → p v ≡ false
  unfolding get
  any-get p k v [] a g = cc
  any-get p k v ((i, w) ∷ m) a g = ground (arith, any-get p k v m)

  pub find-some :
      (p : V → Bool) (v : V) (m : Map V)
      → IsMap m
      → find p (values m) ≡ some v
      → (k : Str) × (get k m ≡ some v) × (p v ≡ true)
  unfolding get
  find-some p v [] h f = absurd (cc)
  find-some p v ((i, w) ∷ m) h f = elim (Bool-cases (p w)) [
    | inl e ↦ (i, ground (arith, str_eq_refl i), ground arith)
    | inr e ↦
        let (k, g, pv) = find-some p v m h.1 (ground arith) in
        (k, ground (arith, str_eq_iff i k), pv)
  ]

  pub find-get :
      (p : V → Bool) (k : Str) (v : V) (m : Map V)
      → get k m ≡ some v
      → p v ≡ true
      → (w : V) × (find p (values m) ≡ some w)
  unfolding get
  find-get p k v [] g e = absurd (cc)
  find-get p k v ((i, w) ∷ m) g e = elim (Bool-cases (p w)) [
    | inl t ↦ (w, rw t)
    | inr t ↦ let (x, f) = find-get p k v m (ground (arith)) e in (x, rw t f)
  ]

  pub find-put :
      (p : V → Bool) (k : Str) (x : V) (m : Map V)
      → any p (values m) ≡ false
      → p x ≡ true
      → find p (values (put k x m)) ≡ some x
  unfolding put
  find-put p k x [] a e = rw e
  find-put p k x ((j, y) ∷ m) a e = ground (arith, find-put p k x m)

  -- Without its only entry that passes the test, a map has none.
  pub find-remove :
      (p : V → Bool) (k : Str) (m : Map V)
      → IsMap m
      → ((j : Str) (y : V) → get j m ≡ some y → p y ≡ true → j ≡ k)
      → find p (values (remove k m)) ≡ none
  unfolding get remove
  find-remove p k [] h only = refl
  find-remove p k ((i, w) ∷ m) h only = ground (
    arith,
    find-remove p k m h.1 (λ j y g e. only j y (ground (arith, str_eq_iff i j)) e),
    str_eq_iff i k,
    str_eq_refl i,
    only i w,
  )

  pub has-put_self : (k : Str) (v : V) (m : Map V) → has k (put k v m) ≡ true
  has-put_self k v m = ground (arith, get-put_self k v m)

  pub any-some :
      (p : V → Bool) (m : Map V)
      → IsMap m
      → any p (values m) ≡ true
      → (k : Str) × (v : V) × (get k m ≡ some v) × (p v ≡ true)
  unfolding get
  any-some p [] h e = absurd (cc)
  any-some p ((i, w) ∷ m) h e = elim (Bool-cases (p w)) [
    | inl t ↦ (i, w, ground (arith, str_eq_refl i), t)
    | inr t ↦
        let (k, v, g, pv) = any-some p m h.1 (ground arith) in
        (k, v, ground (arith, str_eq_iff i k), pv)
  ]

  pub any-of-get :
      (p : V → Bool) (k : Str) (v : V) (m : Map V)
      → get k m ≡ some v
      → p v ≡ true
      → any p (values m) ≡ true
  any-of-get p k v m g e = elim (Bool-cases (any p (values m))) [
    | inl a ↦ a
    | inr a ↦ cc (any-get p k v m a g)
  ]

  -- A test that some value passes is still passed after a write that does not take that value away.
  pub any-put :
      (p : V → Bool) (k : Str) (v : V) (m : Map V)
      → IsMap m
      → ((w : V) → get k m ≡ some w → p w ≡ true → p v ≡ true)
      → any p (values m) ≡ true
      → any p (values (put k v m)) ≡ true
  any-put p k v m h same a =
      let (j, w, g, e) = any-some p m h a in
      elim (Bool-cases (str_eq k j)) [
        | inl t ↦
            let gk : get k m ≡ some w = rw ((str_eq_iff k j).0 t) g in
            any-of-get p k v (put k v m) (get-put_self k v m) (same w gk e)
        | inr t ↦ any-of-get p j w (put k v m) (get-put k j v m ∙ (rw t g)) e
      ]

  pub any-remove :
      (p : V → Bool) (k : Str) (v : V) (m : Map V)
      → IsMap m
      → get k m ≡ some v
      → p v ≡ false
      → any p (values m) ≡ true
      → any p (values (remove k m)) ≡ true
  any-remove p k v m h gk n a =
      let (j, w, g, e) = any-some p m h a in
      elim (Bool-cases (str_eq k j)) [
        | inl t ↦ let gj : get j m ≡ some v = rw (← (str_eq_iff k j).0 t) gk in cc
        | inr t ↦ any-of-get p j w (remove k m) (get-remove k j m ∙ (rw t g)) e
      ]

  pub length-put_new :
      (k : Str) (v : V) (m : Map V) → get k m ≡ none → length (put k v m) ≡ suc (length m)
  unfolding get put
  length-put_new k v [] h = refl
  length-put_new k v ((j, w) ∷ m) h = ground (arith, length-put_new k v m)

  pub length-put_old :
      (k : Str) (v w : V) (m : Map V) → get k m ≡ some w → length (put k v m) ≡ length m
  unfolding get put
  length-put_old k v w [] h = cc
  length-put_old k v w ((j, x) ∷ m) h = ground (arith, length-put_old k v w m)

  remove-absent : (k : Str) (m : Map V) → get k m ≡ none → remove k m ≡ m
  unfolding get remove
  remove-absent k [] h = refl
  remove-absent k ((j, w) ∷ m) h = ground (arith, remove-absent k m)

  pub length-remove :
      (k : Str) (v : V) (m : Map V)
      → IsMap m
      → get k m ≡ some v
      → suc (length (remove k m)) ≡ length m
  unfolding get remove
  length-remove k v [] h g = cc
  length-remove k v ((j, w) ∷ m) h g =
      ground (arith, length-remove k v m h.1, remove-absent k m, str_eq_iff j k, h.0)
