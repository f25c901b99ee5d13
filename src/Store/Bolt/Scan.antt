-- ===== src/Store/Bolt/Scan.antt =====
-- The byte order of keys and the prefix scan of internal/store/boltstore.go (forEachPrefix).
use cubozoa.Prelude.{
  str_lt, str_lt_irrefl, str_lt_trans, not_lt_trans, ◌≡◌, refl, ap, ◌∙◌, Bool, true, false, ◌||◌,
  List, [], ◌∷◌, ◌++◌, length, none, some, Option, Str, str_eq, str_eq_iff, has_prefix,
  has_prefix-append, has_prefix_sound, arith, drop_of_length-append, Bool-cases, inl, inr,
}
use cubozoa.Prelude.Map
use cubozoa.Prelude.Map.{Map, IsMap}
use cubozoa.Store.Bolt.Engine.{Engine, from_key, IsBelow, IsAscending}
use cubozoa.Store.Bolt.State.{while_prefix, for_each_prefix, idx_key, idx_prefix}
use cubozoa.Store.Bolt.Catalog.{cut_keys, indexed_ids}

not_lt_prefix : (k p : Str) → has_prefix k p ≡ true → str_lt k p ≡ false
unfolding str_lt has_prefix
not_lt_prefix k [] h = refl
not_lt_prefix [] (z ∷ p) h = absurd (cc)
not_lt_prefix (x ∷ k) (z ∷ p) h = ground (arith, not_lt_prefix k p)

-- Above the keys with a prefix none has it.
past_prefix :
    (a b p : Str)
    → str_lt a p ≡ false
    → has_prefix a p ≡ false
    → str_lt a b ≡ true
    → has_prefix b p ≡ false
unfolding str_lt has_prefix
past_prefix a b [] h k l = absurd (cc)
past_prefix [] b (z ∷ p) h k l = absurd (cc)
past_prefix (x ∷ a) [] (z ∷ p) h k l = absurd (cc)
past_prefix (x ∷ a) (y ∷ b) (z ∷ p) h k l = ground (arith, past_prefix a b p)

str_eq-append : (p a b : Str) → str_eq (p ++ a) (p ++ b) ≡ str_eq a b
unfolding str_eq
str_eq-append [] a b = refl
str_eq-append (x ∷ p) a b = ground (arith, str_eq-append p a b)

abbrev pub held : {A : Type 0} → Option A → Bool
held none = false
held (some _) = true

abbrev pub elem : Str → List Str → Bool
elem k [] = false
elem k (x ∷ xs) = str_eq x k || elem k xs

-- The entries of a scan start at or after the prefix.
abbrev Starts : {V : Type 0} → Str → List (Str × V) → Type 0
Starts p [] = Unit
Starts p ((i, v) ∷ m) = str_lt i p ≡ false

module _ {V : Type 0} where
  -- Nothing stands at a key below the first.
  pub below_none : (j : Str) (m : Map V) → IsBelow j m → IsAscending m → Map.get j m ≡ none
  unfolding Map.get
  below_none j [] h a = refl
  below_none j ((i, v) ∷ []) h a = ground (arith, str_eq_iff i j, str_lt_irrefl j)
  below_none j ((i, v) ∷ (i', v') ∷ m) h a =
      ground
        (arith, str_eq_iff i j, str_lt_irrefl j, str_lt_trans j i i', below_none j ((i', v') ∷ m))

  ascending-IsMap : (m : Map V) → IsAscending m → IsMap m
  ascending-IsMap [] a = tt
  ascending-IsMap ((j, v) ∷ m) a = (below_none j m a.0 a.1, ascending-IsMap m a.1)

  pub from_key-IsAscending : (p : Str) (m : Map V) → IsAscending m → IsAscending (from_key p m)
  unfolding from_key
  from_key-IsAscending p [] a = tt
  from_key-IsAscending p ((i, v) ∷ m) a = elim (Bool-cases (str_lt i p)) [
    | inl e ↦ rw e (from_key-IsAscending p m a.1)
    | inr e ↦ rw e a
  ]

  from_key-Starts : (p : Str) (m : Map V) → Starts p (from_key p m)
  unfolding from_key
  from_key-Starts p [] = tt
  from_key-Starts p ((i, v) ∷ m) = elim (Bool-cases (str_lt i p)) [
    | inl e ↦ rw e (from_key-Starts p m)
    | inr e ↦ rw e e
  ]

  get-from_key :
      (p j : Str) (m : Map V) → has_prefix j p ≡ true → Map.get j (from_key p m) ≡ Map.get j m
  unfolding from_key Map.get
  get-from_key p j [] h = refl
  get-from_key p j ((i, v) ∷ m) h =
      ground (arith, not_lt_prefix j p h, str_eq_iff i j, get-from_key p j m h)

  past_none :
      (p i j : Str) (m : Map V)
      → has_prefix j p ≡ true
      → str_lt i p ≡ false
      → has_prefix i p ≡ false
      → IsBelow i m
      → IsAscending m
      → Map.get j m ≡ none
  unfolding Map.get
  past_none p i j [] h s n b a = refl
  past_none p i j ((i', v) ∷ m) h s n b a =
      let no = past_prefix i i' p s n b in
      ground (arith, str_eq_iff i' j, no, past_none p i' j m h (not_lt_trans i i' p s b) no a.0 a.1)

  Starts-next : (p i : Str) (m : Map V) → str_lt i p ≡ false → IsBelow i m → Starts p m
  Starts-next p i [] s b = tt
  Starts-next p i ((j, v) ∷ m) s b = not_lt_trans i j p s b

  get-while_prefix :
      (p j : Str) (m : Map V)
      → has_prefix j p ≡ true
      → Starts p m
      → IsAscending m
      → Map.get j (while_prefix p m) ≡ Map.get j m
  unfolding while_prefix Map.get
  get-while_prefix p j [] h s a = refl
  get-while_prefix p j ((i, v) ∷ m) h s a = elim (Bool-cases (has_prefix i p)) [
    | inl e ↦ rw e (ground (arith, get-while_prefix p j m h (Starts-next p i m s a.0) a.1))
    | inr e ↦ rw e (ground (arith, past_none p i j m h s e a.0 a.1, str_eq_iff i j))
  ]

  elem-cut_keys :
      (p k : Str) (m : Map V)
      → elem k (cut_keys (length p) (while_prefix p m)) ≡ held (Map.get (p ++ k) (while_prefix p m))
  unfolding while_prefix cut_keys Map.get
  elem-cut_keys p k [] = refl
  elem-cut_keys p k ((i, v) ∷ m) = elim (Bool-cases (has_prefix i p)) [
    | inr e ↦ rw e
    | inl e ↦
        let (rest, shape) = has_prefix_sound i p e in
        rw e (
          rw shape (
            rw (drop_of_length-append p rest)
              (ground (arith, str_eq-append p rest k, elem-cut_keys p k m))))
  ]

idx_key-prefix : (a b : Str) → idx_prefix a ++ b ≡ idx_key a b
unfolding idx_key idx_prefix
idx_key-prefix [] b = refl
idx_key-prefix (x ∷ a) b = ap (◌∷◌ x) (idx_key-prefix a b)

module _ (E : Engine) where
  pub entries-IsMap : {V : Type 0} (b : E.Bucket V) → IsMap (E.entries b)
  entries-IsMap b = ascending-IsMap (E.entries b) (E.entries-IsAscending b)

  -- A scan meets every key with its prefix, though it stops at the first key without it.
  get-for_each_prefix :
      {V : Type 0} (p j : Str) (b : E.Bucket V)
      → has_prefix j p ≡ true
      → Map.get j (for_each_prefix E b p) ≡ E.get j b
  unfolding for_each_prefix
  get-for_each_prefix p j b h = rw (E.seek_lem p b) (
      get-while_prefix p j _ h (from_key-Starts p _)
        (from_key-IsAscending p _ (E.entries-IsAscending b))
      ∙ get-from_key p j _ h
      ∙ E.get-entries j b)

  elem-scan :
      (p k : Str) (b : E.Bucket (Unit {0}))
      → elem k (cut_keys (length p) (for_each_prefix E b p))
        ≡ held (Map.get (p ++ k) (for_each_prefix E b p))
  unfolding for_each_prefix
  elem-scan p k b = elem-cut_keys p k (E.seek p b)

  -- An index scan collects exactly the identities that are filed under the dimension.
  pub elem-indexed_ids :
      (dim k : Str) (index : E.Bucket (Unit {0}))
      → elem k (indexed_ids E dim index) ≡ held (E.get (idx_key dim k) index)
  unfolding indexed_ids
  elem-indexed_ids dim k index =
      elem-scan (idx_prefix dim) k index
      ∙ ap held (get-for_each_prefix _ _ index (has_prefix-append _ k))
      ∙ ap (λ (x : Str). held (E.get x index)) (idx_key-prefix dim k)
