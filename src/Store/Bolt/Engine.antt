-- ===== src/Store/Bolt/Engine.antt =====
-- The embedded key/value library that internal/store/boltstore.go is written over, as the code uses
-- it: a bucket maps keys to values, a cursor visits it in the order of the keys' bytes, and a read
-- within a transaction sees the writes before it. Refused writes are part of a transaction's outcome
-- (`commit_ok` of Store/Bolt/State).
use cubozoa.Prelude.{
  str_lt, true, List, [], ◌∷◌, Option, none, some, ◌≡◌, Str, str_eq, if◌then◌else◌,
}
use cubozoa.Prelude.Map
use cubozoa.Prelude.Map.{Map}

-- The entries that a cursor visits from a sought key on.
unfoldable pub from_key {ℓ} : {V : Type ℓ} → Str → List (Str × V) → List (Str × V)
from_key k [] = []
from_key k ((j, v) ∷ m) = let rest = from_key k m in if str_lt j k then rest else (j, v) ∷ m

-- Keys rise strictly along the entries.
abbrev pub IsBelow {ℓ} : {V : Type ℓ} → Str → List (Str × V) → Type 0
IsBelow k [] = Unit
IsBelow k ((j, v) ∷ m) = str_lt k j ≡ true

abbrev pub IsAscending {ℓ} : {V : Type ℓ} → List (Str × V) → Type 0
IsAscending [] = Unit
IsAscending ((j, v) ∷ m) = IsBelow j m × IsAscending m

pub record Engine : Type 1 where
  pub Bucket : Type 0 → Type 0
  pub empty : {V : Type 0} → Bucket V
  pub get : {V : Type 0} → Str → Bucket V → Option V
  pub put : {V : Type 0} → Str → V → Bucket V → Bucket V
  pub delete : {V : Type 0} → Str → Bucket V → Bucket V
  -- `Bucket.ForEach`, and `Cursor.Seek` followed by `Cursor.Next` to the end.
  pub entries : {V : Type 0} → Bucket V → List (Str × V)
  pub seek : {V : Type 0} → Str → Bucket V → List (Str × V)
  pub get-empty : {V : Type 0} (k : Str) → get {V = V} k empty ≡ none
  pub get-put :
      {V : Type 0} (k j : Str) (v : V) (b : Bucket V)
      → get j (put k v b) ≡ (if str_eq k j then some v else get j b)
  pub get-delete :
      {V : Type 0} (k j : Str) (b : Bucket V)
      → get j (delete k b) ≡ (if str_eq k j then none else get j b)
  pub entries-IsAscending : {V : Type 0} (b : Bucket V) → IsAscending (entries b)
  pub get-entries : {V : Type 0} (k : Str) (b : Bucket V) → Map.get k (entries b) ≡ get k b
  pub seek_lem : {V : Type 0} (k : Str) (b : Bucket V) → seek k b ≡ from_key k (entries b)
