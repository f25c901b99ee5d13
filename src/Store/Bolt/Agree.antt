-- ===== src/Store/Bolt/Agree.antt =====
-- The buckets of internal/store/boltstore.go beside the maps of internal/store/jsonstore.go.
use cubozoa.Prelude.{
  ◌≡◌, refl, ap, ◌∙◌, sym, Bool, true, false, none, some, Option, Str, arith, if◌then◌else◌,
  Bool-cases, inl, inr, Result, ok, err, any,
}
use cubozoa.Prelude.Map
use cubozoa.Prelude.Map.{
  Map, IsMap, values, get-put, get-remove, get-drop_where, any-get, any-some, unless,
}
use cubozoa.Store.State.{Mem, JsonStore, StoreError, commit, flush_locked}
use cubozoa.Store.Bolt.Engine.{Engine}
use cubozoa.Store.Bolt.State.{Buckets, BoltStore, Tx, update}
use cubozoa.Store.Bolt.Scan.{entries-IsMap}

-- The same keys hold the same values.
abbrev pub Same : {V : Type 0} → (E : Engine) → E.Bucket V → Map V → Type 0
Same E b m = (k : Str) → E.get k b ≡ Map.get k m

-- Each primary bucket holds what the map of the JSON store holds.
abbrev pub Agrees : (E : Engine) → Buckets E → Mem → Type 0
Agrees E db m =
    Same E db.users m.users
    × Same E db.sessions m.sessions
    × Same E db.libraries m.libraries
    × Same E db.items m.items
    × Same E db.user_data m.user_data
    × Same E db.recordings m.recordings
    × Same E db.series_timers m.series_timers

-- The same answer, and states that agree.
abbrev pub Match :
    {A : Type 0}
    → (E : Engine) → Result StoreError A × BoltStore E
    → Result StoreError A × JsonStore
    → Type 0
Match E a b = (a.0 ≡ b.0) × Agrees E a.1.db b.1.mem

module _ (E : Engine) {V : Type 0} where
  pub Same-put :
      (k : Str) (v : V) (b : E.Bucket V) (m : Map V)
      → Same E b m
      → Same E (E.put k v b) (Map.put k v m)
  Same-put k v b m h j = ground (arith, E.get-put k j v b, get-put k j v m, h j)

  pub Same-delete :
      (k : Str) (b : E.Bucket V) (m : Map V) → Same E b m → Same E (E.delete k b) (Map.remove k m)
  Same-delete k b m h j = ground (arith, E.get-delete k j b, get-remove k j m, h j)

  -- A test that no value of the one passes is passed by none of the other.
  any-same :
      (p : V → Bool) (m n : Map V)
      → IsMap m
      → ((k : Str) → Map.get k m ≡ Map.get k n)
      → any p (values n) ≡ false
      → any p (values m) ≡ false
  any-same p m n hm same none_n = elim (Bool-cases (any p (values m))) [
    | inr e ↦ e
    | inl e ↦
        let (k, v, g, pv) = any-some p m hm e in cc (any-get p k v n none_n (sym (same k) ∙ g))
  ]

  -- Both stores find a conflict, or neither does.
  pub any-entries :
      (p : V → Bool) (b : E.Bucket V) (m : Map V)
      → IsMap m
      → Same E b m
      → any p (values (E.entries b)) ≡ any p (values m)
  any-entries p b m hm h = elim (Bool-cases (any p (values m))) [
    | inr e ↦
        any-same p (E.entries b) m (entries-IsMap E b) (λ k. E.get-entries k b ∙ h k) e ∙ sym e
    | inl e ↦ elim (Bool-cases (any p (values (E.entries b)))) [
      | inl f ↦ f ∙ sym e
      | inr f ↦ cc (any-same p m (E.entries b) hm (λ k. sym (E.get-entries k b ∙ h k)) f)
    ]
  ]

module _ (E : Engine) (s : BoltStore E) (j : JsonStore) where
  -- A transaction that goes through beside a flush that does.
  pub update-commit :
      (body : Tx E) (db : Buckets E) (m : Mem)
      → s.commit_ok s.updates ≡ true
      → j.write_ok j.flushes ≡ true
      → body s.db ≡ ok db
      → Agrees E db m
      → Match E (update E body s) (commit m j)
  unfolding update flush_locked
  update-commit body db m cs cj f h = rw (f, update) (rw cs (rw cj (refl, h)))

  update-err :
      (body : Tx E) (e : StoreError)
      → body s.db ≡ err e
      → Agrees E s.db j.mem
      → Match E (update E body s) (err e, j)
  unfolding update
  update-err body e f h = rw (f, update) (refl, h)

abbrev found_or :
    {E : Engine} {V : Type 0}
    → StoreError
    → (V → Buckets E)
    → Option V
    → Result StoreError (Buckets E)
found_or e f none = err e
found_or e f (some v) = ok (f v)

module _ (E : Engine) (s : BoltStore E) (j : JsonStore) (cs : s.commit_ok s.updates ≡ true)
    (cj : j.write_ok j.flushes ≡ true) (g : Agrees E s.db j.mem) where
  -- Both refuse on a test, or neither does.
  pub Match-unless :
      (body : Tx E) (e : StoreError) (b b' : Bool) (db : Buckets E) (m : Mem)
      → b ≡ b'
      → body s.db ≡ (if b then err e else ok db)
      → Agrees E db m
      → Match E (update E body s) (if b' then (err e, j) else commit m j)
  Match-unless body e b true db m same f h = update-err E s j body e (rw f (rw same)) g
  Match-unless body e b false db m same f h = update-commit E s j body db m cs cj (rw f (rw same)) h

  -- Both miss an entry, or neither does.
  pub Match-found :
      {V : Type 0} (body : Tx E) (e : StoreError) (o o' : Option V) (f : V → Buckets E)
      (m : V → Mem)
      → o ≡ o'
      → body s.db ≡ elim o [ none ↦ err e | some v ↦ ok (f v) ]
      → ((v : V) → o' ≡ some v → Agrees E (f v) (m v))
      → Match E (update E body s) (elim o' [ none ↦ (err e, j) | some v ↦ commit (m v) j ])
  Match-found body e o none f m same eq h = update-err E s j body e (eq ∙ ap (found_or e f) same) g
  Match-found body e o (some v) f m same eq h =
      update-commit E s j body (f v) (m v) cs cj (eq ∙ ap (found_or e f) same) (h v refl)
