-- ===== src/Media/Growth.antt =====
-- How the links and the counts of a tree of internal/media/scan.go grow with the files.
use cubozoa.Prelude.{
  ℕ, ◌+◌, ◌≡◌, refl, sym, ap, ◌∙◌, Bool, true, false, none, some, Option, List, [], ◌∷◌, Str,
  str_eq, str_eq_iff, arith, All, count_where, if◌then◌else◌, Bool-cases, inl, inr,
}
use cubozoa.Prelude.Map
use cubozoa.Prelude.Map.{Map, has, values, get-put}
use cubozoa.Store.Models.{MediaItem}
use cubozoa.Media.Tree.{
  Tree, Branch, count_child, add_branch, grow, count_each, counted, empty_tree,
}
use cubozoa.Media.Counts.{
  raised, or_item, is_there, FolderFits, TopFits, FoldersFit, IsJoined, IsLinked, get-count_child,
  folders-add_branch, tops-add_branch, leaves-add_branch, has-add_branch, has_own-add_branch,
}

or_item-TopFits :
    (it : MediaItem) (k : Str) (o : Option MediaItem)
    → it.id ≡ k
    → it.child_count ≡ 0
    → TopFits k 0 o
    → TopFits k 0 (or_item it o)
or_item-TopFits it k none e z f = (e, z)
or_item-TopFits it k (some x) e z f = f

add_zero : (n : ℕ) → n + 0 ≡ n
add_zero n = omega arith

add_assoc : (a b c : ℕ) → a + b + c ≡ a + (b + c)
add_assoc a b c = omega arith

add_left : (a n : ℕ) → a + n ≡ a + (0 + n)
add_left a n = omega arith

raised_zero : (o : Option MediaItem) → raised 0 o ≡ o
raised_zero none = refl
raised_zero (some it) =
    ap (λ (n : ℕ). some (record it { child_count = n })) (add_zero it.child_count)

raised_if :
    (b : Bool) (n : ℕ) (o : Option MediaItem)
    → raised n (if b then raised 1 o else o) ≡ raised ((if b then 1 else 0) + n) o
raised_if true n none = refl
raised_if false n none = refl
raised_if true n (some it) =
    ap (λ (c : ℕ). some (record it { child_count = c })) (add_assoc it.child_count 1 n)
raised_if false n (some it) =
    ap (λ (c : ℕ). some (record it { child_count = c })) (add_left it.child_count n)

raised-there : (n : ℕ) (o : Option MediaItem) → is_there (raised n o) ≡ is_there o
raised-there n none = refl
raised-there n (some it) = refl

raised-TopFits : (k : Str) (n : ℕ) (o : Option MediaItem) → TopFits k 0 o → TopFits k n (raised n o)
raised-TopFits k n none h = tt
raised-TopFits k n (some it) (i, z) = (i, omega arith)

module _ (owner : MediaItem → Str)
    (steady : (it : MediaItem) (n : ℕ) → owner (record it { child_count = n }) ≡ owner it) where
  joined-FolderFits :
      (b : Branch) (tops tops' : Map MediaItem) (k : Str) (n : ℕ) (o : Option MediaItem)
      → IsJoined owner b
      → b.folder.id ≡ k
      → ((j : Str) → has j tops ≡ true → has j tops' ≡ true)
      → has b.top.id tops' ≡ true
      → FolderFits owner tops k n o
      → FolderFits owner tops' k (n + 1) (raised 1 (or_item b.folder o))
  joined-FolderFits b tops tops' k n none (leaf_in, fo_in, fo_new, top_new, up) e mono own f = (
    e,
    omega arith,
    ap (λ (j : Str). has j tops') (steady b.folder (b.folder.child_count + 1) ∙ fo_in) ∙ own,
    up ∙ sym (steady b.folder (b.folder.child_count + 1) ∙ fo_in),
  )
  joined-FolderFits b tops tops' k n (some x) j e mono own (i, c, h, u) = (
    i,
    omega arith,
    ap (λ (j : Str). has j tops') (steady x (x.child_count + 1)) ∙ mono (owner x) h,
    u ∙ sym (steady x (x.child_count + 1)),
  )

  mono-FolderFits :
      (tops tops' : Map MediaItem) (k : Str) (n : ℕ) (o : Option MediaItem)
      → ((j : Str) → has j tops ≡ true → has j tops' ≡ true)
      → FolderFits owner tops k n o
      → FolderFits owner tops' k n o
  mono-FolderFits tops tops' k n none mono f = f
  mono-FolderFits tops tops' k n (some x) mono (i, c, h, u) = (i, c, mono (owner x) h, u)

  kept-FolderFits :
      (tops tops' : Map MediaItem) (k : Str) (n : ℕ) (o : Option MediaItem)
      → ((j : Str) → has j tops ≡ true → has j tops' ≡ true)
      → FolderFits owner tops k n o
      → FolderFits owner tops' k (n + 0) o
  kept-FolderFits tops tops' k n none mono f = omega arith
  kept-FolderFits tops tops' k n (some x) mono (i, c, h, u) = (i, omega arith, mono (owner x) h, u)

  add_branch-FoldersFit :
      (b : Branch) (t : Tree)
      → IsJoined owner b
      → FoldersFit owner t
      → FoldersFit owner (add_branch b t)
  add_branch-FoldersFit b t j g k = rw (folders-add_branch b t k) (
      rw (leaves-add_branch b t k j.0) (elim (Bool-cases (str_eq b.folder.id k)) [
        | inl e ↦ rw e (
            joined-FolderFits b t.tops (add_branch b t).tops k _ (Map.get k t.folders) j
              ((str_eq_iff _ _).0 e) (has-add_branch b t) (has_own-add_branch b t) (g k))
        | inr e ↦ rw e (
            kept-FolderFits t.tops (add_branch b t).tops k _ (Map.get k t.folders)
              (has-add_branch b t) (g k))
      ]))

  add_branch-TopFits :
      (b : Branch) (t : Tree)
      → b.top.child_count ≡ 0
      → ((k : Str) → TopFits k 0 (Map.get k t.tops))
      → (k : Str) → TopFits k 0 (Map.get k (add_branch b t).tops)
  add_branch-TopFits b t z g k = rw (tops-add_branch b t k) (elim (Bool-cases (str_eq b.top.id k)) [
    | inr e ↦ rw e (g k)
    | inl e ↦ rw e (or_item-TopFits b.top k (Map.get k t.tops) ((str_eq_iff _ _).0 e) z (g k))
  ])

  grow-Fits :
      (bs : List Branch) (t : Tree)
      → All (IsJoined owner) bs
      → FoldersFit owner t
      → ((k : Str) → TopFits k 0 (Map.get k t.tops))
      → FoldersFit owner (grow bs t) × ((k : Str) → TopFits k 0 (Map.get k (grow bs t).tops))
  unfolding grow
  grow-Fits [] t j f g = (f, g)
  grow-Fits (b ∷ bs) t (j, js) f g =
      grow-Fits bs (add_branch b t) js (add_branch-FoldersFit b t j f)
        (add_branch-TopFits b t j.3 g)

  get-count_each :
      (fos : List MediaItem) (k : Str) (tops : Map MediaItem)
      → Map.get k (count_each owner fos tops)
        ≡ raised (count_where (λ fo. str_eq (owner fo) k) fos) (Map.get k tops)
  unfolding count_each
  get-count_each [] k tops = sym (raised_zero (Map.get k tops))
  get-count_each (fo ∷ fos) k tops =
      get-count_each fos k (count_child (owner fo) tops)
      ∙ ap (raised (count_where (λ fo. str_eq (owner fo) k) fos))
          (get-count_child (owner fo) k tops)
      ∙ raised_if (str_eq (owner fo) k) _ (Map.get k tops)

  has-count_each :
      (fos : List MediaItem) (k : Str) (tops : Map MediaItem)
      → has k tops ≡ true
      → has k (count_each owner fos tops) ≡ true
  has-count_each fos k tops h =
      ap is_there (get-count_each fos k tops) ∙ raised-there _ (Map.get k tops) ∙ h

  empty-FoldersFit : FoldersFit owner empty_tree
  unfolding Map.get
  empty-FoldersFit k = refl

  empty-TopFits : (k : Str) → TopFits k 0 (Map.get k empty_tree.tops)
  unfolding Map.get
  empty-TopFits k = tt

  pub counted-IsLinked :
      (bs : List Branch) → All (IsJoined owner) bs → IsLinked owner (counted owner bs)
  unfolding counted
  counted-IsLinked bs j =
      let (f, g) = grow-Fits bs empty_tree j empty-FoldersFit empty-TopFits in
      let t = grow bs empty_tree in
      (
        λ k.
            mono-FolderFits t.tops _ k _ (Map.get k t.folders)
              (λ i. has-count_each (values t.folders) i t.tops) (f k),
        λ k.
            rw (get-count_each (values t.folders) k t.tops)
              (raised-TopFits k _ (Map.get k t.tops) (g k)),
      )
