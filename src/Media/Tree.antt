-- ===== src/Media/Tree.antt =====
-- The two-level trees of internal/media/scan.go, as buildEpisodes and buildTracks both grow them: a map
-- of tops (series or artists), a map of folders (seasons or albums), and the media items.
use cubozoa.Prelude.{◌+◌, none, some, List, [], ◌∷◌, ◌++◌, Str}
use cubozoa.Prelude.Map
use cubozoa.Prelude.Map.{Map, values}
use cubozoa.Store.Models.{MediaItem}

pub record Tree : Type 0 where
  pub tops : Map MediaItem
  pub folders : Map MediaItem
  pub leaves : List MediaItem

abbrev pub empty_tree : Tree
empty_tree = record { tops = []; folders = []; leaves = [] }

-- `if _, ok := m[id]; !ok { m[id] = item }`
unfoldable pub ensure_item : MediaItem → Map MediaItem → Map MediaItem
ensure_item it m = elim (Map.get it.id m) [ none ↦ Map.put it.id it m | some _ ↦ m ]

-- `m[id].ChildCount++`, if it is there.
unfoldable pub count_child : Str → Map MediaItem → Map MediaItem
count_child id m = elim (Map.get id m) [
  | none ↦ m
  | some it ↦ Map.put id (record it { child_count = it.child_count + 1 }) m
]

-- What one file contributes: the top and the folder that it needs, and its own item.
pub record Branch : Type 0 where
  pub top : MediaItem
  pub folder : MediaItem
  pub leaf : MediaItem

-- One round of the loop over the files.
unfoldable pub add_branch : Branch → Tree → Tree
unfolding ensure_item count_child
add_branch b t = record {
  tops = ensure_item b.top t.tops;
  folders = count_child b.folder.id (ensure_item b.folder t.folders);
  leaves = t.leaves ++ (b.leaf ∷ []);
}

unfoldable pub grow : List Branch → Tree → Tree
unfolding add_branch
grow [] t = t
grow (b ∷ bs) t = grow bs (add_branch b t)

-- The loop that counts each folder under its top, which `owner` names.
unfoldable pub count_each : (MediaItem → Str) → List MediaItem → Map MediaItem → Map MediaItem
unfolding count_child
count_each owner [] tops = tops
count_each owner (fo ∷ fos) tops = count_each owner fos (count_child (owner fo) tops)

-- The tree with its counts.
unfoldable pub counted : (MediaItem → Str) → List Branch → Tree
unfolding grow count_each
counted owner bs =
    let t = grow bs empty_tree in record t { tops = count_each owner (values t.folders) t.tops }

-- The items of the tree in the order that the functions return them.
unfoldable pub items_of : Tree → List MediaItem
items_of t = values t.tops ++ (values t.folders ++ t.leaves)
