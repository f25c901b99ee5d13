-- ===== src/Tests/Browsing.antt =====
-- Browsing, registering and scanning libraries at small concrete ones.
use mathlib.Core.List.{Perm}
use mathlib.Core.List.Perm
use cubozoa.Prelude.{
  ℕ, zero, suc, refl, ◌≡◌, true, false, some, Option, List, [], ◌∷◌, ◌++◌, map, Str, codes, str_eq,
  pos, sort_stable, str_lt, arith, if◌then◌else◌,
}
use cubozoa.Store.Models.{Library, MediaItem}
use cubozoa.Store.State.{JsonStore, empty_mem}
use cubozoa.Store.Catalog.{all_items}
use cubozoa.Media.Browse.{BrowseQuery, directed_less, candidates, matches, listing, browse}
use cubozoa.Media.Paging.{pages, fetch, pages-browse}
use cubozoa.Media.Library.{new_library}
use cubozoa.Media.Disk.{ScannedFile, EpisodeName, Disk}
use cubozoa.Media.Scan.{episode_branch, episode_tree}
use cubozoa.Media.Counts.{IsLinked}
use cubozoa.Media.Hierarchy.{episode_tree-IsLinked}
use cubozoa.Tests.Fixtures.{host, film, store}

abbrev zebra : MediaItem
zebra = record film { id = codes "i2"; name = codes "Zebra"; sort_name = codes "zebra" }

-- A store with two films, the later one first.
abbrev two_films : JsonStore
two_films = record store {
  mem = record empty_mem { items = (codes "i2", zebra) ∷ (codes "i1", film) ∷ [] };
}

abbrev all_films : BrowseQuery
all_films = record {
  parent_id = [];
  include_item_types = codes "Movie" ∷ [];
  recursive = true;
  search_term = [];
  sort_by = codes "SortName";
  sort_descending = false;
  start_index = pos 0;
  limit = pos 0;
}

abbrev lower : Str → Str
lower = host.to_lower

abbrev same : Str → Str
same s = s

-- The later requests find the films in the other order.
abbrev turned : ℕ → JsonStore
turned zero = two_films
turned (suc i) = record store {
  mem = record empty_mem { items = (codes "i1", film) ∷ (codes "i2", zebra) ∷ [] };
}

same_films : (i : ℕ) → Perm (candidates all_films (turned i)) (candidates all_films (turned 0))
unfolding candidates all_items
same_films zero = Perm.refl _
same_films (suc i) = Perm.swap zebra film []

pages-browse_example :
    pages (λ i. fetch lower same all_films (turned i) 1 i) 2
    ≡ listing lower same all_films (turned 0)
unfolding browse listing candidates matches sort_stable all_items str_eq str_lt directed_less
pages-browse_example =
    pages-browse lower same all_films turned 1 2 (omega arith) ((refl, tt), (tt, tt)) same_films
      (omega arith)

abbrev absolute : Str → Option Str
absolute p = some (b'/' ∷ p)

abbrev mark : Str → Str
mark s = b'#' ∷ s

abbrev empty_store : JsonStore
empty_store = record store { mem = empty_mem }

abbrev shows : Library
shows = new_library mark 5 (codes "Shows") (codes "tvshows") (codes "/shows")

-- Two seasons of one series: the folder of a file names its season.
abbrev episode_of : List Str → EpisodeName
episode_of (show ∷ season ∷ parts) = record {
  series = show;
  season = if str_eq season (codes "S2") then 2 else 1;
  episode = 1;
  title = codes "Pilot";
}
episode_of parts = record { series = codes "Shows"; season = 1; episode = 1; title = codes "Pilot" }

abbrev disk : Disk
disk = record {
  hash_id = mark;
  to_lower = lower;
  join = λ a b. a ++ (b'/' ∷ b);
  base_name = same;
  parse_name = λ s. (s, 0);
  parse_episode = episode_of;
  parse_track = λ ps. record { artist = []; album = []; track = 0; title = [] };
  find_artwork = λ p. record { primary = []; backdrop = [] };
  folder_artwork = λ p. record { primary = codes "/poster.jpg"; backdrop = [] };
  image_tag = mark;
  find_subtitles = λ p. [];
}

abbrev file_in : Str → ScannedFile
file_in season = record {
  path = codes "/shows/Lost/" ++ season;
  rel_parts = codes "Lost" ∷ season ∷ codes "e.mkv" ∷ [];
  kind = codes "Video";
  container = codes "mkv";
  size = 10;
  mod_time = 3;
}

abbrev files : List ScannedFile
files = file_in (codes "S1") ∷ file_in (codes "S2") ∷ []

episode_tree-IsLinked_example :
    IsLinked (λ (se : MediaItem). se.series_id) (episode_tree disk shows files)
    × ((episode_tree disk shows files).leaves ≡ map (λ f. (episode_branch disk shows f).leaf) files)
episode_tree-IsLinked_example = episode_tree-IsLinked disk shows files
