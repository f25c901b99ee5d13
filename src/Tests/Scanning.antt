-- ===== src/Tests/Scanning.antt =====
-- The walk of a directory, and a scan of one that is away, at small concrete ones.
use cubozoa.Prelude.{◌≡◌, refl, false, some, none, [], ◌∷◌, ◌++◌, Str, codes, is_empty, str_eq}
use cubozoa.Prelude.Map
use cubozoa.Prelude.Map.{IsMap}
use cubozoa.Media.Disk.{Disk}
use cubozoa.Media.Library.{scan_library}
use cubozoa.Media.Walk.{Stat, Nodes, file, folder, nil, more}
use cubozoa.Media.Unmounted.{scan_at, scan_library_unreadable}
use cubozoa.Tests.Fixtures.{host, films, film, store}

abbrev slash : Str → Str → Str
slash a b = a ++ (b'/' ∷ b)

abbrev stat : Stat
stat = record { size = 10; mod_time = 3 }

-- A film, a hidden file, a link and a folder with one more film.
abbrev tree : Nodes
tree = more (file (codes "a.MKV") false (some stat)) (
    more (file (codes ".b.mkv") false (some stat))
      (more (folder (codes "sub") (more (file (codes "c.mp3") false (some stat)) nil)) nil))

abbrev disk : Disk
disk = record {
  hash_id = λ s. b'#' ∷ s;
  to_lower = host.to_lower;
  join = slash;
  base_name = λ s. s;
  parse_name = λ s. (s, 0);
  parse_episode = λ ps. record { series = []; season = 1; episode = 1; title = [] };
  parse_track = λ ps. record { artist = []; album = []; track = 0; title = [] };
  find_artwork = λ p. record { primary = []; backdrop = [] };
  folder_artwork = λ p. record { primary = []; backdrop = [] };
  image_tag = λ s. s;
  find_subtitles = λ p. [];
}

store-IsMap : IsMap store.mem.items
unfolding Map.get
store-IsMap = (refl, tt)

scan_library_unreadable_example :
    Map.get
      (codes "i1")
      (scan_library (scan_at disk (λ p. none)) (λ items. items) 9 (codes "l1") store).1.mem.items
    ≡ none
unfolding Map.get str_eq
scan_library_unreadable_example =
    scan_library_unreadable disk (λ p. none) (λ items. items) 9 (codes "l1") (codes "i1") films film
      store store-IsMap refl refl refl refl refl
