-- ===== src/Media/Hierarchy.antt =====
-- The items that a scan makes of a library of shows or of music (internal/media/scan.go).
use mathlib.Core.List.{append-nil}
use cubozoa.Prelude.{
  ◌≡◌, refl, sym, ap, ◌∙◌, Bool, List, [], ◌∷◌, ◌++◌, map, Str, All, Bool-cases, inl, inr,
  append_assoc, is_empty, not, ◌||◌, leb, length,
}
use cubozoa.Store.Models.{MediaItem, Library}
use cubozoa.Media.Tree.{Tree, Branch, add_branch, grow, counted, empty_tree}
use cubozoa.Media.Disk.{Disk, ScannedFile, Artwork, apply_artwork}
use cubozoa.Media.Scan.{episode_branch, episode_tree, track_branch, track_tree}
use cubozoa.Media.Counts.{IsJoined, IsLinked}
use cubozoa.Media.Growth.{counted-IsLinked}

leaves-grow :
    (bs : List Branch) (t : Tree) → (grow bs t).leaves ≡ t.leaves ++ map (λ (b : Branch). b.leaf) bs
unfolding grow add_branch
leaves-grow [] t = sym (append-nil t.leaves)
leaves-grow (b ∷ bs) t =
    leaves-grow bs (add_branch b t) ∙ append_assoc t.leaves (b.leaf ∷ []) (map (λ c. c.leaf) bs)

All-IsJoined :
    (owner : MediaItem → Str) (branch : ScannedFile → Branch) (files : List ScannedFile)
    → ((f : ScannedFile) → IsJoined owner (branch f))
    → All (IsJoined owner) (map branch files)
All-IsJoined owner branch [] h = tt
All-IsJoined owner branch (f ∷ files) h = (h f, All-IsJoined owner branch files h)

map-leaf :
    (branch : ScannedFile → Branch) (files : List ScannedFile)
    → map (λ (b : Branch). b.leaf) (map branch files) ≡ map (λ f. (branch f).leaf) files
map-leaf branch [] = refl
map-leaf branch (f ∷ files) = ap (◌∷◌ (branch f).leaf) (map-leaf branch files)

leaves-counted :
    (owner : MediaItem → Str) (branch : ScannedFile → Branch) (files : List ScannedFile)
    → (counted owner (map branch files)).leaves ≡ map (λ f. (branch f).leaf) files
unfolding counted
leaves-counted owner branch files =
    leaves-grow (map branch files) empty_tree ∙ map-leaf branch files

abbrev pictured : Artwork → Bool
pictured a = not (is_empty a.primary) || not (is_empty a.backdrop)

module _ (d : Disk) (lib : Library) where
  parent-apply_artwork :
      (path : Str) (it : MediaItem) → (apply_artwork d path it).parent_id ≡ it.parent_id
  unfolding apply_artwork
  parent-apply_artwork path it = elim (Bool-cases (pictured (d.find_artwork path))) [
    | inl e ↦ rw e
    | inr e ↦ rw e
  ]

  episode-IsJoined : (f : ScannedFile) → IsJoined (λ se. se.series_id) (episode_branch d lib f)
  unfolding episode_branch
  episode-IsJoined f = (parent-apply_artwork f.path _, refl, refl, refl, refl)

  -- In a library of shows every file is one episode, in the order of the files; each episode is under a
  -- season that is there and each season under its series, which is there; and the child counts of seasons
  -- and series are the numbers of their episodes and seasons.
  pub episode_tree-IsLinked :
      (files : List ScannedFile)
      → IsLinked (λ se. se.series_id) (episode_tree d lib files)
        × ((episode_tree d lib files).leaves ≡ map (λ f. (episode_branch d lib f).leaf) files)
  unfolding episode_tree
  episode_tree-IsLinked files = (
    counted-IsLinked (λ se. se.series_id) (λ it n. refl) (map (episode_branch d lib) files)
        (All-IsJoined (λ se. se.series_id) (episode_branch d lib) files episode-IsJoined),
    leaves-counted (λ se. se.series_id) (episode_branch d lib) files,
  )

  track-IsJoined : (f : ScannedFile) → IsJoined (λ al. al.artist_id) (track_branch d lib f)
  unfolding track_branch
  track-IsJoined f = elim (Bool-cases (leb 3 (length f.rel_parts))) [
    | inl e ↦ rw e (parent-apply_artwork f.path _, refl, refl, refl, refl)
    | inr e ↦ rw e (parent-apply_artwork f.path _, refl, refl, refl, refl)
  ]

  -- A library of music is linked and counted in the same way: every file is one track.
  pub track_tree-IsLinked :
      (files : List ScannedFile)
      → IsLinked (λ al. al.artist_id) (track_tree d lib files)
        × ((track_tree d lib files).leaves ≡ map (λ f. (track_branch d lib f).leaf) files)
  unfolding track_tree
  track_tree-IsLinked files = (
    counted-IsLinked (λ al. al.artist_id) (λ it n. refl) (map (track_branch d lib) files)
        (All-IsJoined (λ al. al.artist_id) (track_branch d lib) files track-IsJoined),
    leaves-counted (λ al. al.artist_id) (track_branch d lib) files,
  )
