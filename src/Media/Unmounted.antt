-- ===== src/Media/Unmounted.antt =====
-- A scan of internal/media where the library's directory cannot be read.
use cubozoa.Prelude.{
  ◌≡◌, refl, ap, ◌∙◌, inl, inr, true, Option, none, some, List, [], Str, codes, str_eq, Bool-cases,
  sort_stable, sort_into,
}
use cubozoa.Prelude.Map
use cubozoa.Prelude.Map.{IsMap, unless}
use cubozoa.Store.Models.{Time, Library, MediaItem}
use cubozoa.Store.State.{JsonStore}
use cubozoa.Store.Catalog.{get_library}
use cubozoa.Store.Reads.{get_item-replace, of_library}
use cubozoa.Media.Tree.{counted, grow, count_each, items_of}
use cubozoa.Media.Disk.{Disk}
use cubozoa.Media.Scan.{scan, build_flat, build_episodes, build_tracks, episode_tree, track_tree}
use cubozoa.Media.Walk.{Nodes, collect_files}
use cubozoa.Media.Library.{scan_library}

-- `Scan` of a library on a disk of which `root` is what the walk can read.
abbrev pub scan_at : Disk → (Str → Option Nodes) → Library → Option (List MediaItem)
scan_at d root lib = scan d lib (collect_files d.to_lower d.join lib.path (root lib.path))

scan_nothing : (d : Disk) (lib : Library) → scan d lib (some []) ≡ some []
unfolding scan build_flat build_episodes build_tracks episode_tree track_tree counted grow
    count_each items_of sort_stable sort_into
scan_nothing d lib = elim (Bool-cases (str_eq lib.type (codes "tvshows"))) [
  | inl e ↦ rw (e, scan) refl
  | inr e ↦ elim (Bool-cases (str_eq lib.type (codes "music"))) [
    | inl f ↦ rw (e, f, scan) refl
    | inr f ↦ rw (e, f, scan) refl
  ]
]

-- A library whose directory cannot be read at the time of a scan, as on a volume that is not mounted,
-- loses every item: the scan answers no error and replaces the items by none, if what refines a scan
-- adds no item to none.
pub scan_library_unreadable :
    (d : Disk) (root : Str → Option Nodes) (refine : List MediaItem → List MediaItem) (now : Time)
    (id k : Str) (lib : Library) (it : MediaItem) (s : JsonStore)
    → IsMap s.mem.items
    → Map.get id s.mem.libraries ≡ some lib
    → root lib.path ≡ none
    → refine [] ≡ []
    → Map.get k s.mem.items ≡ some it
    → str_eq it.library_id id ≡ true
    → Map.get k (scan_library (scan_at d root) refine now id s).1.mem.items ≡ none
unfolding scan_library collect_files get_library
scan_library_unreadable d root refine now id k lib it s h g away e i own =
    rw (g, scan_library)
      (rw (away, collect_files)
        (rw (scan_nothing d lib) (
          rw e (
            get_item-replace now id k lib [] s h g tt
            ∙ ap (unless (of_library id)) i
            ∙ (rw own refl)))))
