-- ===== src/Tests/Bucket.antt =====
-- A key/value engine to run the bbolt datastore on: a bucket is the list of its entries in the order
-- of their keys.
use cubozoa.Prelude.{
  str_lt, str_lt_total, str_lt_trans, ◌≡◌, refl, true, [], ◌∷◌, none, some, Str, str_eq, str_eq_iff,
  arith, if◌then◌else◌, Bool-cases, inl, inr,
}
use cubozoa.Prelude.Map
use cubozoa.Prelude.Map.{Map, get-remove}
use cubozoa.Store.Bolt.Engine.{Engine, from_key, IsBelow, IsAscending}

pub insert_entry : {V : Type 0} → Str → V → Map V → Map V
insert_entry k v [] = (k, v) ∷ []
insert_entry k v ((j, w) ∷ m) =
    let rest = insert_entry k v m in
    if str_eq k j then (k, v) ∷ m else if str_lt k j then (k, v) ∷ (j, w) ∷ m else (j, w) ∷ rest

module _ {V : Type 0} where
  get-insert_entry :
      (k j : Str) (v : V) (m : Map V)
      → Map.get j (insert_entry k v m) ≡ (if str_eq k j then some v else Map.get j m)
  unfolding Map.get insert_entry
  get-insert_entry k j v [] = refl
  get-insert_entry k j v ((i, w) ∷ m) =
      ground (arith, str_eq_iff k j, str_eq_iff k i, str_eq_iff i j, get-insert_entry k j v m)

  IsBelow-insert_entry :
      (i k : Str) (v : V) (m : Map V)
      → str_lt i k ≡ true
      → IsBelow i m
      → IsBelow i (insert_entry k v m)
  unfolding insert_entry
  IsBelow-insert_entry i k v [] h b = h
  IsBelow-insert_entry i k v ((j, w) ∷ m) h b = ground (arith, str_eq_iff k j)

  pub insert_entry-IsAscending :
      (k : Str) (v : V) (m : Map V) → IsAscending m → IsAscending (insert_entry k v m)
  unfolding insert_entry
  insert_entry-IsAscending k v [] a = (tt, tt)
  insert_entry-IsAscending k v ((j, w) ∷ m) a = elim (Bool-cases (str_eq k j)) [
    | inl e ↦ rw e (rw ((str_eq_iff k j).0 e) a)
    | inr e ↦ elim (Bool-cases (str_lt k j)) [
      | inl l ↦ rw e (rw l (l, a))
      | inr l ↦ rw e (
          rw l (
            IsBelow-insert_entry j k v m (str_lt_total k j e l) a.0,
            insert_entry-IsAscending k v m a.1,
          ))
    ]
  ]

  IsBelow-trans : (i j : Str) (m : Map V) → str_lt i j ≡ true → IsBelow j m → IsBelow i m
  IsBelow-trans i j [] h b = tt
  IsBelow-trans i j ((k, w) ∷ m) h b = str_lt_trans i j k h b

  IsBelow-remove :
      (i k : Str) (m : Map V) → IsBelow i m → IsAscending m → IsBelow i (Map.remove k m)
  unfolding Map.remove
  IsBelow-remove i k [] b a = tt
  IsBelow-remove i k ((j, w) ∷ m) b a = elim (Bool-cases (str_eq j k)) [
    | inl e ↦ rw e (IsBelow-remove i k m (IsBelow-trans i j m b a.0) a.1)
    | inr e ↦ rw e b
  ]

  pub remove-IsAscending : (k : Str) (m : Map V) → IsAscending m → IsAscending (Map.remove k m)
  unfolding Map.remove
  remove-IsAscending k [] a = tt
  remove-IsAscending k ((j, w) ∷ m) a = elim (Bool-cases (str_eq j k)) [
    | inl e ↦ rw e (remove-IsAscending k m a.1)
    | inr e ↦ rw e (IsBelow-remove j k m a.0 a.1, remove-IsAscending k m a.1)
  ]

pub record OrderedBucket (V : Type 0) : Type 0 where
  pub entries : Map V
  pub ascending : IsAscending entries

unfoldable pub put_entry : {V : Type 0} → Str → V → OrderedBucket V → OrderedBucket V
unfolding insert_entry
put_entry k v b = record {
  entries = insert_entry k v b.entries;
  ascending = insert_entry-IsAscending k v b.entries b.ascending;
}

unfoldable pub delete_entry : {V : Type 0} → Str → OrderedBucket V → OrderedBucket V
unfolding Map.remove
delete_entry k b = record {
  entries = Map.remove k b.entries;
  ascending = remove-IsAscending k b.entries b.ascending;
}

pub get-put_entry :
    {V : Type 0} (k j : Str) (v : V) (b : OrderedBucket V)
    → Map.get j (put_entry k v b).entries ≡ (if str_eq k j then some v else Map.get j b.entries)
unfolding put_entry
get-put_entry k j v b = get-insert_entry k j v b.entries

pub get-delete_entry :
    {V : Type 0} (k j : Str) (b : OrderedBucket V)
    → Map.get j (delete_entry k b).entries ≡ (if str_eq k j then none else Map.get j b.entries)
unfolding delete_entry
get-delete_entry k j b = get-remove k j b.entries

pub get-empty_entries : {V : Type 0} (k : Str) → Map.get {V = V} k [] ≡ none
unfolding Map.get
get-empty_entries k = refl

abbrev pub ordered : Engine
ordered = record {
  Bucket = OrderedBucket;
  empty = record { entries = []; ascending = tt };
  get = λ k b. Map.get k b.entries;
  put = put_entry;
  delete = delete_entry;
  entries = λ b. b.entries;
  seek = λ k b. from_key k b.entries;
  get-empty = get-empty_entries;
  get-put = get-put_entry;
  get-delete = get-delete_entry;
  entries-IsAscending = λ b. b.ascending;
  get-entries = λ k b. refl;
  seek_lem = λ k b. refl;
}
