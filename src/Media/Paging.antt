-- ===== src/Media/Paging.antt =====
-- What a browse of internal/media/service.go lists, and how its pages fit together.
use mathlib.Core.List.{Perm}
use mathlib.Core.List.Perm
use cubozoa.Prelude.{
  ℕ, pos, zero, suc, ◌+◌, ◌*◌, ◌≤◌, ◌<◌, ◌≡◌, refl, sym, ap, ◌∙◌, Bool, true, false, List, [], ◌∷◌,
  ◌++◌, length, take, drop, keep, Str, str_lt_asym, not_lt_not_lt, ltb, leb, IsWeak, InOrder,
  sort_stable-Perm, sort_stable-InOrder, min, arith, Bool-cases, inl, inr,
}
use cubozoa.Store.Models.{MediaItem}
use cubozoa.Store.State.{JsonStore}
use cubozoa.Media.Sorted.{MediaItem-IsSet, IsStrict, keep-Perm, strict_unique}
use cubozoa.Media.Browse.{
  BrowseQuery, item_less, directed_less, sort_items, page, candidates, matches, listing, browse,
}

item_less-IsWeak : (by : Str) → IsWeak (item_less by)
unfolding item_less
item_less-IsWeak by = record {
  asym = λ a b h. ground (arith, str_lt_asym a.name b.name, str_lt_asym a.sort_name b.sort_name);
  chain = λ a b c h k. ground (
    arith,
    not_lt_not_lt a.name b.name c.name,
    not_lt_not_lt a.sort_name b.sort_name c.sort_name,
  );
}

directed_less-IsWeak : (by : Str) (desc : Bool) → IsWeak (directed_less by desc)
unfolding directed_less
directed_less-IsWeak by true =
    let w = item_less-IsWeak by in
    record { asym = λ a b h. w.asym b a h; chain = λ a b c h k. w.chain c b a k h }
directed_less-IsWeak by false = item_less-IsWeak by

module _ (to_lower trim_space : Str → Str) where
  -- Before paging a browse lists exactly the candidates that match, in the order that is asked for.
  pub listing_lem :
      (q : BrowseQuery) (s : JsonStore)
      → Perm
          (listing to_lower trim_space q s)
          (keep (matches to_lower trim_space q) (candidates q s))
        × InOrder (directed_less q.sort_by q.sort_descending) (listing to_lower trim_space q s)
  unfolding listing sort_items
  listing_lem q s = (
    sort_stable-Perm _ _,
    sort_stable-InOrder _ _ (directed_less-IsWeak q.sort_by q.sort_descending),
  )

-- The pages of `n` items from the start on, one behind the other.
abbrev pub pages : (ℕ → List MediaItem) → ℕ → List MediaItem
pages fetch zero = []
pages fetch (suc k) = pages fetch k ++ fetch k

pages-same : (f g : ℕ → List MediaItem) (k : ℕ) → ((i : ℕ) → f i ≡ g i) → pages f k ≡ pages g k
pages-same f g zero h = refl
pages-same f g (suc k) h = rw (pages-same f g k h, h k) refl

take-all : (n : ℕ) (xs : List MediaItem) → length xs ≤ n → take n xs ≡ xs
take-all zero [] h = refl
take-all zero (x ∷ xs) h = absurd (omega arith)
take-all (suc n) [] h = refl
take-all (suc n) (x ∷ xs) h = ap (◌∷◌ x) (take-all n xs (omega arith))

take_of_nil : (n : ℕ) → take {A = MediaItem} n [] ≡ []
take_of_nil zero = refl
take_of_nil (suc n) = refl

take-append-take :
    (m n : ℕ) (xs : List MediaItem) → take m xs ++ take n (drop m xs) ≡ take (m + n) xs
take-append-take zero n xs = ap (λ (k : ℕ). take k xs) (omega arith)
take-append-take (suc m) n [] = take_of_nil n ∙ sym (take_of_nil (suc m + n))
take-append-take (suc m) n (x ∷ xs) =
    let e : suc m + n ≡ suc (m + n) = omega arith in rw e (ap (◌∷◌ x) (take-append-take m n xs))

drop-all : (n : ℕ) (xs : List MediaItem) → length xs ≤ n → drop n xs ≡ []
drop-all zero [] h = refl
drop-all zero (x ∷ xs) h = absurd (omega arith)
drop-all (suc n) [] h = refl
drop-all (suc n) (x ∷ xs) h = drop-all n xs (omega arith)

drop-min : (n : ℕ) (xs : List MediaItem) → drop (min n (length xs)) xs ≡ drop n xs
drop-min n xs = elim (Bool-cases (leb n (length xs))) [
  | inl e ↦ ap (λ (k : ℕ). drop k xs) (ground arith)
  | inr e ↦
      ap (λ (k : ℕ). drop k xs) (min-len n xs e)
      ∙ drop-all (length xs) xs (omega arith)
      ∙ sym (drop-all n xs (ground arith))
]
  where
    min-len :
        (n : ℕ) (xs : List MediaItem) → leb n (length xs) ≡ false → min n (length xs) ≡ length xs
    min-len n xs e = ground arith

page-eq-take :
    (a n : ℕ) (xs : List MediaItem) → 0 < n → page (pos a) (pos n) xs ≡ take n (drop a xs)
unfolding page
page-eq-take a n xs h = rw (drop-min a xs) (elim (Bool-cases (ltb n (length (drop a xs)))) [
  | inl e ↦ ground arith
  | inr e ↦ ground (arith, take-all n (drop a xs))
])

pages-eq-take :
    (n : ℕ) (xs : List MediaItem) (k : ℕ)
    → 0 < n
    → pages (λ i. page (pos (i * n)) (pos n) xs) k ≡ take (k * n) xs
pages-eq-take n xs zero h = let e : 0 * n ≡ 0 = omega arith in rw e
pages-eq-take n xs (suc k) h = rw (pages-eq-take n xs k h) (
    rw (page-eq-take (k * n) n xs h)
      (take-append-take (k * n) n xs ∙ ap (λ (j : ℕ). take j xs) (grind arith)))

module _ (to_lower trim_space : Str → Str) where
  -- The `i`-th page of `n` items.
  abbrev pub fetch : BrowseQuery → JsonStore → ℕ → ℕ → List MediaItem
  fetch q s n i =
      (browse to_lower trim_space (record q { start_index = pos (i * n); limit = pos n }) s).0

  -- The listing of a store that gives the same items in whatever order, if no two of them tie.
  listing-same :
      (q : BrowseQuery) (s t : JsonStore)
      → IsStrict (directed_less q.sort_by q.sort_descending) (listing to_lower trim_space q s)
      → Perm (candidates q t) (candidates q s)
      → listing to_lower trim_space q t ≡ listing to_lower trim_space q s
  listing-same q s t strict p =
      let less = directed_less q.sort_by q.sort_descending in
      let (kept_s, ordered_s) = listing_lem to_lower trim_space q s in
      let (kept_t, ordered_t) = listing_lem to_lower trim_space q t in
      let kept = keep-Perm (matches to_lower trim_space q) (candidates q t) (candidates q s) p in
      strict_unique MediaItem-IsSet less (directed_less-IsWeak q.sort_by q.sort_descending)
        (listing to_lower trim_space q s) (listing to_lower trim_space q t) strict ordered_t
        (Perm.trans kept_t (Perm.trans kept (Perm.symm kept_s)))

  page-fetch :
      (q : BrowseQuery) (s : JsonStore) (n i : ℕ)
      → fetch q s n i ≡ page (pos (i * n)) (pos n) (listing to_lower trim_space q s)
  unfolding browse listing candidates matches
  page-fetch q s n i = refl

  -- Pages of one size, each requested of a store that gives the same items in an order of its own, are
  -- together the whole listing of the first request, if they are enough to reach its total and no two
  -- items of it tie in the order that is asked for: no item is missing and none comes twice.
  pub pages-browse :
      (q : BrowseQuery) (s : ℕ → JsonStore) (n k : ℕ)
      → 0 < n
      → IsStrict (directed_less q.sort_by q.sort_descending) (listing to_lower trim_space q (s 0))
      → ((i : ℕ) → Perm (candidates q (s i)) (candidates q (s 0)))
      → (browse to_lower trim_space q (s 0)).1 ≤ k * n
      → pages (λ i. fetch q (s i) n i) k ≡ listing to_lower trim_space q (s 0)
  unfolding browse
  pages-browse q s n k h strict same enough =
      let xs = listing to_lower trim_space q (s 0) in
      pages-same (λ i. fetch q (s i) n i) (λ i. page (pos (i * n)) (pos n) xs) k
        (λ i.
          page-fetch q (s i) n i
          ∙ ap (page (pos (i * n)) (pos n)) (listing-same q (s 0) (s i) strict (same i)))
      ∙ pages-eq-take n xs k h
      ∙ take-all (k * n) xs enough
