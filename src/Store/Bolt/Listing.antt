-- ===== src/Store/Bolt/Listing.antt =====
-- The listings of internal/store/boltstore.go beside a scan of all items.
use cubozoa.Prelude.{
  str_lt, str_lt_irrefl, str_lt_trans, ◌≡◌, refl, ap, ap₂, ◌∙◌, sym, Bool, true, false, List, [],
  ◌∷◌, ◌++◌, length, none, some, Option, Str, str_eq, str_eq_iff, str_eq_refl, arith, if◌then◌else◌,
  Bool-cases, inl, inr, keep, has_prefix, All, All-map, has_prefix_sound, drop_of_length-append,
}
use cubozoa.Prelude.Map
use cubozoa.Prelude.Map.{Map, IsMap, values}
use cubozoa.Store.Models.{MediaItem}
use cubozoa.Store.Reads.{Lacks0}
use cubozoa.Store.Bolt.Engine.{Engine, IsBelow, IsAscending}
use cubozoa.Store.Bolt.State.{BoltStore, while_prefix, for_each_prefix, idx_key, idx_prefix}
use cubozoa.Store.Bolt.Catalog.{
  cut_keys, indexed_ids, items_at, list_items_by_library, list_items_by_parent, all_items,
}
use cubozoa.Store.Bolt.Scan.{
  elem, elem-indexed_ids, entries-IsMap, below_none, from_key-IsAscending, held,
}
use cubozoa.Store.Bolt.Index.{Indexed}

-- Strictly rising lists of keys.
abbrev LeadsBelow : Str → List Str → Type 0
LeadsBelow k [] = Unit
LeadsBelow k (x ∷ xs) = str_lt k x ≡ true

abbrev IsRising : List Str → Type 0
IsRising [] = Unit
IsRising (x ∷ xs) = LeadsBelow x xs × IsRising xs

above_head :
    (k x : Str) (xs : List Str) → LeadsBelow k (x ∷ xs) → IsRising (x ∷ xs) → LeadsBelow k xs
above_head k x [] l r = tt
above_head k x (y ∷ xs) l r = str_lt_trans k x y l r.0

below_elem :
    (k j : Str) (xs : List Str)
    → LeadsBelow k xs
    → IsRising xs
    → elem j xs ≡ true
    → str_lt k j ≡ true
below_elem k j [] l r e = absurd (cc)
below_elem k j (x ∷ xs) l r e =
    ground (arith, str_eq_iff x j, below_elem k j xs (above_head k x xs l r) r.1)

-- A rising list is determined by its elements.
rising_ext :
    (xs ys : List Str) → IsRising xs → IsRising ys → ((k : Str) → elem k xs ≡ elem k ys) → xs ≡ ys
rising_ext [] [] rx ry h = refl
rising_ext [] (y ∷ ys) rx ry h = absurd (ground (arith, h y, str_eq_refl y))
rising_ext (x ∷ xs) [] rx ry h = absurd (ground (arith, h x, str_eq_refl x))
rising_ext (x ∷ xs) (y ∷ ys) rx ry h =
    let same : x ≡ y = ground (
      arith,
      h x,
      h y,
      str_eq_refl x,
      str_eq_refl y,
      str_eq_iff x y,
      str_eq_iff y x,
      below_elem x y xs rx.0 rx.1,
      below_elem y x ys ry.0 ry.1,
      str_lt_trans x y x,
      str_lt_irrefl x,
    ) in
    ap₂ ◌∷◌ same (
      rising_ext xs ys rx.1 ry.1 λ k. ground (
        arith,
        h k,
        same,
        str_eq_iff x k,
        str_eq_iff y k,
        below_elem x k xs rx.0 rx.1,
        below_elem y k ys ry.0 ry.1,
        str_lt_irrefl x,
        str_lt_irrefl y,
      ))

str_lt-append : (p a b : Str) → str_lt (p ++ a) (p ++ b) ≡ str_lt a b
unfolding str_lt
str_lt-append [] a b = refl
str_lt-append (x ∷ p) a b = ground (arith, str_lt-append p a b)

module _ {V : Type 0} where
  abbrev keys : Map V → List Str
  keys [] = []
  keys ((k, v) ∷ m) = k ∷ keys m

  -- The entries whose value passes a test.
  abbrev kept : (V → Bool) → Map V → Map V
  kept p [] = []
  kept p ((k, v) ∷ m) = let rest = kept p m in if p v then (k, v) ∷ rest else rest

  abbrev passes : (V → Bool) → Option V → Bool
  passes p none = false
  passes p (some v) = p v

  kept-IsBelow :
      (p : V → Bool) (k : Str) (m : Map V)
      → IsBelow k m
      → IsAscending m
      → LeadsBelow k (keys (kept p m))
  kept-IsBelow p k [] b a = tt
  kept-IsBelow p k ((j, v) ∷ []) b a = elim (Bool-cases (p v)) [ inl e ↦ rw e b | inr e ↦ rw e tt ]
  kept-IsBelow p k ((j, v) ∷ (i, w) ∷ m) b a = elim (Bool-cases (p v)) [
    | inl e ↦ rw e b
    | inr e ↦ rw e (kept-IsBelow p k ((i, w) ∷ m) (str_lt_trans k j i b a.0) a.1)
  ]

  kept-IsRising : (p : V → Bool) (m : Map V) → IsAscending m → IsRising (keys (kept p m))
  kept-IsRising p [] a = tt
  kept-IsRising p ((k, v) ∷ m) a = elim (Bool-cases (p v)) [
    | inl e ↦ rw e (kept-IsBelow p k m a.0 a.1, kept-IsRising p m a.1)
    | inr e ↦ rw e (kept-IsRising p m a.1)
  ]

  elem-kept :
      (p : V → Bool) (k : Str) (m : Map V)
      → IsAscending m
      → elem k (keys (kept p m)) ≡ passes p (Map.get k m)
  unfolding Map.get
  elem-kept p k [] a = refl
  elem-kept p k ((j, v) ∷ m) a =
      ground (arith, elem-kept p k m a.1, below_none j m a.0 a.1, str_eq_iff j k)

  values-kept : (p : V → Bool) (m : Map V) → values (kept p m) ≡ keep p (values m)
  values-kept p [] = refl
  values-kept p ((k, v) ∷ m) = ground (arith, values-kept p m)

  cut-LeadsBelow :
      (p i : Str) (m : Map V)
      → IsBelow (p ++ i) m
      → LeadsBelow i (cut_keys (length p) (while_prefix p m))
  unfolding while_prefix cut_keys
  cut-LeadsBelow p i [] b = tt
  cut-LeadsBelow p i ((j, v) ∷ m) b = elim (Bool-cases (has_prefix j p)) [
    | inr e ↦ rw e tt
    | inl e ↦
        let (rest, shape) = has_prefix_sound j p e in
        let up : str_lt i rest ≡ true =
          sym (str_lt-append p i rest) ∙ ap (str_lt (p ++ i)) (sym shape) ∙ b in
        rw e (rw shape (rw (drop_of_length-append p rest) up))
  ]

  cut-IsRising :
      (p : Str) (m : Map V) → IsAscending m → IsRising (cut_keys (length p) (while_prefix p m))
  unfolding while_prefix cut_keys
  cut-IsRising p [] a = tt
  cut-IsRising p ((j, v) ∷ m) a = elim (Bool-cases (has_prefix j p)) [
    | inr e ↦ rw e tt
    | inl e ↦
        let (rest, shape) = has_prefix_sound j p e in
        let below : IsBelow (p ++ rest) m = rw (← shape) a.0 in
        rw e (
          rw shape (
            rw (drop_of_length-append p rest)
              (cut-LeadsBelow p rest m below, cut-IsRising p m a.1)))
  ]

  -- Every entry of a map is what a lookup of its key finds.
  own_entries : (m : Map V) → IsMap m → All (λ (e : Str × V). Map.get e.0 m ≡ some e.1) m
  unfolding Map.get
  own_entries [] h = tt
  own_entries ((j, v) ∷ m) h = (
    ground (arith, str_eq_refl j),
    All-map (λ e g. ground (arith, h.0, str_eq_iff j e.0, g)) m (own_entries m h.1),
  )

  All-kept : (P : Str × V → Type 0) (p : V → Bool) (m : Map V) → All P m → All P (kept p m)
  All-kept P p [] h = tt
  All-kept P p ((j, v) ∷ m) (e, h) = elim (Bool-cases (p v)) [
    | inl t ↦ rw t (e, All-kept P p m h)
    | inr t ↦ rw t (All-kept P p m h)
  ]

module _ (E : Engine) where
  items_at-keys :
      (items : E.Bucket MediaItem) (m : Map MediaItem)
      → All (λ (e : Str × MediaItem). E.get e.0 items ≡ some e.1) m
      → items_at E (keys m) items ≡ values m
  unfolding items_at
  items_at-keys items [] h = refl
  items_at-keys items ((k, it) ∷ m) (e, h) =
      rw (e, items_at) (ap (◌∷◌ it) (items_at-keys items m h))

  indexed_ids-IsRising :
      (dim : Str) (index : E.Bucket (Unit {0})) → IsRising (indexed_ids E dim index)
  unfolding indexed_ids for_each_prefix
  indexed_ids-IsRising dim index = rw (E.seek_lem (idx_prefix dim) index) (
      cut-IsRising (idx_prefix dim) _
        (from_key-IsAscending (idx_prefix dim) _ (E.entries-IsAscending index)))

  -- An index that is right lists what a scan over the items would, in the same order.
  listing :
      (dim : Str) (index : E.Bucket (Unit {0})) (items : E.Bucket MediaItem) (p : MediaItem → Bool)
      → ((k : Str) → held (E.get (idx_key dim k) index) ≡ passes p (E.get k items))
      → items_at E (indexed_ids E dim index) items ≡ keep p (values (E.entries items))
  listing dim index items p right =
      let m = E.entries items in
      let a = E.entries-IsAscending items in
      let ids : indexed_ids E dim index ≡ keys (kept p m) =
        rising_ext _ _ (indexed_ids-IsRising dim index) (kept-IsRising p m a) (λ k.
          elem-indexed_ids E dim k index
          ∙ right k
          ∙ ap (passes p) (sym (E.get-entries k items))
          ∙ sym (elem-kept p k m a)) in
      rw ids (
        items_at-keys items (kept p m) (
          All-kept _ p m (
            All-map (λ e g. sym (E.get-entries e.0 items) ∙ g) m
              (own_entries m (entries-IsMap E items))))
        ∙ values-kept p m)

  -- The listing of a library through its index is the scan of all items for that library.
  pub list_items_by_library_lem :
      (l : Str) (s : BoltStore E)
      → Lacks0 l
      → Indexed E s.db
      → list_items_by_library E l s
        ≡ keep (λ (it : MediaItem). str_eq it.library_id l) (all_items E s)
  unfolding list_items_by_library all_items
  list_items_by_library_lem l s hl x =
      listing l s.db.idx_item_library s.db.items (λ it. str_eq it.library_id l)
        (λ k. x.items.1 l k hl)

  -- The listing under a parent through its index is the scan of all items for that parent.
  list_items_by_parent_lem :
      (p : Str) (s : BoltStore E)
      → Lacks0 p
      → Indexed E s.db
      → list_items_by_parent E p s
        ≡ keep (λ (it : MediaItem). str_eq it.parent_id p) (all_items E s)
  unfolding list_items_by_parent all_items
  list_items_by_parent_lem p s hp x =
      listing p s.db.idx_item_parent s.db.items (λ it. str_eq it.parent_id p)
        (λ k. x.items.2 p k hp)
