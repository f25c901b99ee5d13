-- ===== src/Media/Counts.antt =====
-- The trees of internal/media/scan.go: who is under whom, and the counts of children.
use cubozoa.Prelude.{
  ℕ, ◌+◌, ◌≡◌, refl, ap, ◌∙◌, Bool, true, false, none, some, Option, [], ◌∷◌, Str, str_eq,
  str_eq_iff, str_eq_refl, arith, count_where, count_where-append, if◌then◌else◌, Option-cases,
  Bool-cases, inl, inr,
}
use cubozoa.Prelude.Map
use cubozoa.Prelude.Map.{Map, has, values, get-put}
use cubozoa.Store.Models.{MediaItem}
use cubozoa.Media.Tree.{Tree, Branch, ensure_item, count_child, add_branch}

-- An item with more children.
abbrev pub raised : ℕ → Option MediaItem → Option MediaItem
raised n none = none
raised n (some it) = some (record it { child_count = it.child_count + n })

abbrev pub or_item : MediaItem → Option MediaItem → Option MediaItem
or_item it none = some it
or_item it (some x) = some x

pub get-count_child :
    (id k : Str) (m : Map MediaItem)
    → Map.get k (count_child id m) ≡ (if str_eq id k then raised 1 (Map.get k m) else Map.get k m)
unfolding count_child
get-count_child id k m = elim (Option-cases (Map.get id m)) [
  | inl e ↦ rw (e, count_child) (ground (arith, str_eq_iff id k))
  | inr (it, e) ↦
      rw (e, count_child)
        (ground
          (arith, get-put id k (record it { child_count = it.child_count + 1 }) m, str_eq_iff id k))
]

get-ensure_item :
    (it : MediaItem) (k : Str) (m : Map MediaItem)
    → Map.get k (ensure_item it m)
      ≡ (if str_eq it.id k then or_item it (Map.get k m) else Map.get k m)
unfolding ensure_item
get-ensure_item it k m = elim (Option-cases (Map.get it.id m)) [
  | inl e ↦ rw (e, ensure_item) (ground (arith, get-put it.id k it m, str_eq_iff it.id k))
  | inr (x, e) ↦ rw (e, ensure_item) (ground (arith, str_eq_iff it.id k))
]

abbrev pub under : Str → MediaItem → Bool
under k it = str_eq it.parent_id k

-- A folder stands under its identity, counts the items that are under it, and its parent is its top,
-- which is there; where
-- no folder stands, no item is under it.
abbrev pub FolderFits : (MediaItem → Str) → Map MediaItem → Str → ℕ → Option MediaItem → Type 0
FolderFits owner tops k n none = n ≡ 0
FolderFits owner tops k n (some fo) =
    (fo.id ≡ k) × (fo.child_count ≡ n) × (has (owner fo) tops ≡ true) × (fo.parent_id ≡ owner fo)

abbrev pub TopFits : Str → ℕ → Option MediaItem → Type 0
TopFits k n none = Unit
TopFits k n (some it) = (it.id ≡ k) × (it.child_count ≡ n)

abbrev pub FoldersFit : (MediaItem → Str) → Tree → Type 0
FoldersFit owner t =
    (k : Str) → FolderFits owner t.tops k (count_where (under k) t.leaves) (Map.get k t.folders)

-- The links and the counts of a whole tree: each folder stands under its identity, its parent is its
-- top, which is there, and it counts the items under it; an item is under a folder that is there; each top stands under
-- its identity and counts the folders that it owns.
abbrev pub IsLinked : (MediaItem → Str) → Tree → Type 0
IsLinked owner t =
    FoldersFit owner t
    × ((k : Str)
        → TopFits k (count_where (λ fo. str_eq (owner fo) k) (values t.folders)) (Map.get k t.tops))

-- What the items of one file owe each other.
abbrev pub IsJoined : (MediaItem → Str) → Branch → Type 0
IsJoined owner b =
    (b.leaf.parent_id ≡ b.folder.id)
    × (owner b.folder ≡ b.top.id)
    × (b.folder.child_count ≡ 0)
    × (b.top.child_count ≡ 0)
    × (b.folder.parent_id ≡ b.top.id)

-- One round of the loop, as it shows at each key.
pub folders-add_branch :
    (b : Branch) (t : Tree) (k : Str)
    → Map.get k (add_branch b t).folders ≡ (
        if str_eq b.folder.id k
        then raised 1 (or_item b.folder (Map.get k t.folders))
        else Map.get k t.folders)
unfolding add_branch
folders-add_branch b t k = elim (Bool-cases (str_eq b.folder.id k)) [
  | inl e ↦
      get-count_child b.folder.id k (ensure_item b.folder t.folders)
      ∙ (rw e (ap (raised 1) (get-ensure_item b.folder k t.folders ∙ (rw e))))
  | inr e ↦
      get-count_child b.folder.id k (ensure_item b.folder t.folders)
      ∙ (rw e (get-ensure_item b.folder k t.folders ∙ (rw e)))
]

pub tops-add_branch :
    (b : Branch) (t : Tree) (k : Str)
    → Map.get k (add_branch b t).tops
      ≡ (if str_eq b.top.id k then or_item b.top (Map.get k t.tops) else Map.get k t.tops)
unfolding add_branch
tops-add_branch b t k = get-ensure_item b.top k t.tops

pub leaves-add_branch :
    (b : Branch) (t : Tree) (k : Str)
    → b.leaf.parent_id ≡ b.folder.id
    → count_where (under k) (add_branch b t).leaves
      ≡ count_where (under k) t.leaves + (if str_eq b.folder.id k then 1 else 0)
unfolding add_branch
leaves-add_branch b t k e =
    let same : str_eq b.leaf.parent_id k ≡ str_eq b.folder.id k = ap (λ (p : Str). str_eq p k) e in
    ground (arith, count_where-append (under k) t.leaves (b.leaf ∷ []), same)

abbrev pub is_there : Option MediaItem → Bool
is_there none = false
is_there (some _) = true

pub or_item-there : (it : MediaItem) (o : Option MediaItem) → is_there (or_item it o) ≡ true
or_item-there it none = refl
or_item-there it (some x) = refl

pub has-add_branch :
    (b : Branch) (t : Tree) (k : Str) → has k t.tops ≡ true → has k (add_branch b t).tops ≡ true
has-add_branch b t k h = elim (Bool-cases (str_eq b.top.id k)) [
  | inl e ↦ ap is_there (tops-add_branch b t k ∙ (rw e)) ∙ or_item-there b.top (Map.get k t.tops)
  | inr e ↦ ap is_there (tops-add_branch b t k ∙ (rw e)) ∙ h
]

pub has_own-add_branch : (b : Branch) (t : Tree) → has b.top.id (add_branch b t).tops ≡ true
has_own-add_branch b t =
    ap is_there (tops-add_branch b t b.top.id ∙ (rw (str_eq_refl b.top.id)))
    ∙ or_item-there b.top (Map.get b.top.id t.tops)
