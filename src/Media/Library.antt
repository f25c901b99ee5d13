-- ===== src/Media/Library.antt =====
-- internal/media/service.go: how libraries are registered and scanned. `abs` is filepath.Abs, `none` its
-- error, `hash_id` is hashID, `join` is filepath.Join. `scan` is what Scan finds of a library on the
-- disk, `none` its error, and `refine` what the prober and the metadata provider add to the items.
use cubozoa.Prelude.{
  ℕ, Bool, true, false, not, ◌&&◌, ◌||◌, Option, none, some, List, [], ◌∷◌, ◌++◌, Str, codes,
  is_empty, str_eq, has_prefix, any, ◌==◌, map, Result, ok, err, if◌then◌else◌,
}
use cubozoa.Store.Models.{Time, Library, MediaItem, MediaStreamInfo}
use cubozoa.Store.State.{JsonStore, Op, StoreError, conflict, read_failed}
use cubozoa.Store.Catalog.{
  create_library, get_library, get_library_by_path, list_libraries, replace_library_items,
}
use cubozoa.Media.Browse.{contains}

unfoldable pub contains_any : Str → List Str → Bool
unfolding contains
contains_any s subs = any (contains s) subs

unfoldable pub infer_library_type : (Str → Str) → Str → Str
unfolding contains_any
infer_library_type to_lower folder_name =
    let n = to_lower folder_name in
    if contains_any n (codes "movie" ∷ codes "film" ∷ codes "cinema" ∷ [])
    then codes "movies"
    else if contains_any n (codes "tv" ∷ codes "show" ∷ codes "series" ∷ codes "episode" ∷ [])
    then codes "tvshows"
    else if contains_any n (codes "music" ∷ codes "audio" ∷ codes "song" ∷ codes "album" ∷ [])
    then codes "music"
    else if contains_any n (codes "home video" ∷ codes "homevideo" ∷ codes "personal" ∷ [])
    then codes "homevideos"
    else codes "mixed"

unfoldable pub library_id : (Str → Str) → Str → Str
library_id hash_id path = hash_id (codes "library:" ++ path)

-- A conflict is no error: another call registered the path meanwhile.
unfoldable pub registered :
    Library → Result StoreError (Unit {0}) × JsonStore → Result StoreError Library × JsonStore
registered lib (ok _, s) = (ok lib, s)
registered lib (err conflict, s) = (ok lib, s)
registered lib (err e, s) = (err e, s)

-- The library that a path is given.
unfoldable pub new_library : (Str → Str) → Time → Str → Str → Str → Library
unfolding library_id
new_library hash_id now name lib_type path = record {
  id = library_id hash_id path;
  name = name;
  type = lib_type;
  path = path;
  item_count = 0;
  created_at = now;
  scanned_at = 0;
}

module _ (abs : Str → Option Str) (hash_id : Str → Str) where
  unfoldable pub register_library :
      Time → Str → Str → Str → JsonStore → Result StoreError Library × JsonStore
  unfolding registered new_library
  register_library now name lib_type path s = elim (abs path) [
    | none ↦ (err read_failed, s)
    | some p ↦ elim (get_library_by_path p s) [
      | ok existing ↦ (ok existing, s)
      | err _ ↦
          let lib = new_library hash_id now name lib_type p in registered lib (create_library lib s)
    ]
  ]

  -- One entry of the media directory.
  pub record Entry : Type 0 where
    pub name : Str
    pub is_dir : Bool

  unfoldable sync_entries :
      Time → (Str → Str) → (Str → Str → Str) → Str → List Entry → JsonStore → JsonStore
  unfolding register_library infer_library_type
  sync_entries now to_lower join media_dir [] s = s
  sync_entries now to_lower join media_dir (e ∷ es) s =
      let path = join media_dir e.name in
      let known : Bool = elim (get_library_by_path path s) [ ok _ ↦ true | err _ ↦ false ] in
      let lib_type = infer_library_type to_lower e.name in
      sync_entries now to_lower join media_dir es (
        if (not e.is_dir || has_prefix e.name (codes ".")) || known
        then s
        else (register_library now e.name lib_type path s).1)

  -- `entries` is what os.ReadDir lists, or its error.
  unfoldable sync_libraries_from_media_dir :
      Time → (Str → Str) → (Str → Str → Str) → Str → Option (List Entry) → Op (Unit {0})
  unfolding sync_entries
  sync_libraries_from_media_dir now to_lower join media_dir entries s =
      if is_empty media_dir then (ok tt, s) else elim entries [
        | none ↦ (err read_failed, s)
        | some es ↦ (ok tt, sync_entries now to_lower join media_dir es s)
      ]

module _ (scan : Library → Option (List MediaItem)) (refine : List MediaItem → List MediaItem) where
  unfoldable pub scan_library : Time → Str → Op (Unit {0})
  scan_library now id s = elim (get_library id s) [
    | err e ↦ (err e, s)
    | ok lib ↦ elim (scan lib) [
      | none ↦ (err read_failed, s)
      | some items ↦ replace_library_items now id (refine items) s
    ]
  ]

  -- A library whose scan fails is passed over.
  unfoldable pub scan_each : Time → List Library → JsonStore → JsonStore
  unfolding scan_library
  scan_each now [] s = s
  scan_each now (lib ∷ libs) s = scan_each now libs (scan_library now lib.id s).1

  unfoldable scan_all : Time → JsonStore → JsonStore
  unfolding scan_each
  scan_all now s = scan_each now (list_libraries s) s

-- What ffprobe says of a file.
pub record ProbeResult : Type 0 where
  pub duration_ticks : ℕ
  pub bitrate : ℕ
  pub width : ℕ
  pub height : ℕ
  pub video_codec : Str
  pub audio_codec : Str
  pub streams : List MediaStreamInfo

unfoldable apply_probe : MediaItem → ProbeResult → MediaItem
apply_probe it res = record it {
  run_time_ticks = res.duration_ticks;
  width = res.width;
  height = res.height;
  video_codec = res.video_codec;
  audio_codec = res.audio_codec;
  bitrate = res.bitrate;
  streams = res.streams;
}

-- What the metadata provider found.
pub record Metadata : Type 0 where
  pub title : Str
  pub overview : Str
  pub rating : ℕ
  pub genres : List Str
  pub year : ℕ
  pub primary_image_url : Str
  pub backdrop_image_url : Str

-- `cache` downloads a picture under a name and returns its path, empty on any failure.
module _ (cache : Str → Str → Str) (image_tag : Str → Str) where
  unfoldable with_primary : Metadata → MediaItem → MediaItem
  with_primary res it =
      let p = cache (it.id ++ codes "-primary") res.primary_image_url in
      if (is_empty it.primary_image_path && not (is_empty res.primary_image_url))
        && not (is_empty p)
      then record it { primary_image_path = p; primary_image_tag = image_tag p }
      else it

  unfoldable with_backdrop : Metadata → MediaItem → MediaItem
  with_backdrop res it =
      let p = cache (it.id ++ codes "-backdrop") res.backdrop_image_url in
      if (is_empty it.backdrop_image_path && not (is_empty res.backdrop_image_url))
        && not (is_empty p)
      then record it { backdrop_image_path = p; backdrop_image_tag = image_tag p }
      else it

  -- `none` is a failed lookup.
  unfoldable enrich_one : Option Metadata → MediaItem → MediaItem
  unfolding with_primary with_backdrop
  enrich_one none it = it
  enrich_one (some res) it = with_backdrop res (
      with_primary res (record it {
        name = if is_empty res.title then it.name else res.title;
        overview = res.overview;
        community_rating = res.rating;
        genres = res.genres;
        production_year = if it.production_year == 0 then res.year else it.production_year;
      }))

  unfoldable enrich_items : (MediaItem → Option Metadata) → List MediaItem → List MediaItem
  unfolding enrich_one
  enrich_items lookup items =
      map
        (λ (it : MediaItem).
          if not (str_eq it.type (codes "Movie")) && not (str_eq it.type (codes "Series"))
          then it
          else enrich_one (lookup it) it)
        items
