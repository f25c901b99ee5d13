-- ===== src/Tests/Serving.antt =====
-- The theorems on served files at a small library.
use cubozoa.Prelude.{
  ℕ, ◌≡◌, refl, Bool, true, false, Option, some, none, List, [], ◌∷◌, ◌++◌, Str, codes, ok,
}
use cubozoa.Store.Models.{Library, MediaItem, SubtitleTrack}
use cubozoa.Store.State.{JsonStore, empty_mem}
use cubozoa.Store.Catalog.{get_library, get_item}
use cubozoa.Store.Preserve.{empty-IsValid}
use cubozoa.Store.Exec.{Mutation, run, create_library, replace_library_items}
use cubozoa.Media.Files.{Stream, within_root, item_stream, item_subtitle}
use cubozoa.Media.Containment.{item_stream_contained}
use cubozoa.Tests.Fixtures.{host, films, film, store}

-- A relative path that does not climb.
abbrev pub rel : Str → Str → Option Str
rel root p = some (codes "film.mkv")

abbrev track : SubtitleTrack
track = record {
  path = codes "/films/film.srt";
  language = [];
  codec = codes "subrip";
  format = codes "srt";
  forced = false;
  title = codes "Subtitle";
}

abbrev pub history : List Mutation
history =
    create_library films
    ∷ replace_library_items 3 (codes "l1") (record film { subtitles = track ∷ [] } ∷ [])
    ∷ []

abbrev pub start : JsonStore
start = record store { mem = empty_mem }

abbrev stream : Stream
stream = record {
  path = codes "/films/film.mkv";
  container = codes "mkv";
  content_type = codes "mkv";
  size = 1000;
}

item_stream_contained_example :
    (it : MediaItem) × (lib : Library) × (get_item (codes "i1") (run host.fold history start)
      ≡ ok it)
    × (get_library it.library_id (run host.fold history start) ≡ ok lib)
    × (within_root rel lib.path stream.path ≡ true)
unfolding item_stream get_item cubozoa.Prelude.Map.get run cubozoa.Prelude.Map.put
    cubozoa.Prelude.str_eq cubozoa.Prelude.Map.drop_where cubozoa.Media.Files.rejected get_library
    within_root cubozoa.Prelude.has_prefix
item_stream_contained_example =
    item_stream_contained rel (λ s. s) host.fold history start (codes "i1") {st = stream}
      (tt, (tt, tt)) (empty-IsValid host.fold) refl
