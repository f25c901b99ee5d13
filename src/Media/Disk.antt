-- ===== src/Media/Disk.antt =====
-- internal/media/scan.go: what a scan reads of a library, and what every item of a file has. What the
-- code reads of the file system, the regular expressions of naming.go and the hash of identities are
-- fields of `Disk`.
use cubozoa.Prelude.{
  ℕ, zero, suc, ◌-◌, not, ◌||◌, List, [], ◌∷◌, ◌++◌, length, Str, codes, is_empty, str_eq, itoa,
  if◌then◌else◌,
}
use cubozoa.Store.Models.{Time, MediaItem, SubtitleTrack}

pub record ScannedFile : Type 0 where
  pub path : Str
  pub rel_parts : List Str
  pub kind : Str
  pub container : Str
  pub size : ℕ
  pub mod_time : Time

pub record EpisodeName : Type 0 where
  pub series : Str
  pub season : ℕ
  pub episode : ℕ
  pub title : Str

pub record TrackName : Type 0 where
  pub artist : Str
  pub album : Str
  pub track : ℕ
  pub title : Str

-- Pictures of an item, empty where there is none.
pub record Artwork : Type 0 where
  pub primary : Str
  pub backdrop : Str

pub record Disk : Type 0 where
  -- `hashID`
  pub hash_id : Str → Str
  pub to_lower : Str → Str
  pub join : Str → Str → Str
  pub base_name : Str → Str
  -- `parseName`, `parseEpisode` and `parseTrack` of naming.go.
  pub parse_name : Str → Str × ℕ
  pub parse_episode : List Str → EpisodeName
  pub parse_track : List Str → TrackName
  -- `findArtwork`, and the pictures of a folder that `applyFolderArtwork` picks.
  pub find_artwork : Str → Artwork
  pub folder_artwork : Str → Artwork
  pub image_tag : Str → Str
  -- `findSubtitles` of `Media/Subtitles`, over the directory of a file.
  pub find_subtitles : Str → List SubtitleTrack

-- An item with nothing but its identity, its library and its parent.
abbrev pub bare_item : Str → Str → Str → MediaItem
bare_item id library_id parent_id = record {
  id = id;
  library_id = library_id;
  parent_id = parent_id;
  name = [];
  sort_name = [];
  type = [];
  media_type = [];
  path = [];
  container = [];
  production_year = 0;
  size_bytes = 0;
  date_created = 0;
  child_count = 0;
  series_id = [];
  series_name = [];
  season_id = [];
  index_number = 0;
  parent_index_number = 0;
  artist_id = [];
  album_id = [];
  album = [];
  album_artist = [];
  artists = [];
  run_time_ticks = 0;
  width = 0;
  height = 0;
  video_codec = [];
  audio_codec = [];
  bitrate = 0;
  streams = [];
  subtitles = [];
  overview = [];
  community_rating = 0;
  genres = [];
  primary_image_path = [];
  primary_image_tag = [];
  backdrop_image_path = [];
  backdrop_image_tag = [];
}

-- `%05d` and `%04d`
abbrev pub zeros : ℕ → Str
zeros zero = []
zeros (suc n) = b'0' ∷ zeros n

unfoldable pub pad : ℕ → ℕ → Str
pad width n = let s = itoa n in zeros (width - length s) ++ s

unfoldable pub item_type_for : Str → Str → Str
item_type_for library_type kind =
    if str_eq library_type (codes "movies")
    then codes "Movie"
    else if str_eq library_type (codes "tvshows")
    then codes "Episode"
    else if str_eq library_type (codes "music")
    then codes "Audio"
    else if str_eq kind (codes "Audio")
    then codes "Audio"
    else codes "Video"

-- The first path segment; a file has one at least.
abbrev pub first_part : List Str → Str
first_part [] = []
first_part (p ∷ ps) = p

abbrev pub second_part : List Str → Str
second_part [] = []
second_part (p ∷ ps) = first_part ps

module _ (d : Disk) where
  unfoldable pub item_id : Str → Str
  item_id path = d.hash_id (codes "item:" ++ path)

  unfoldable pub series_id : Str → Str → Str
  series_id library_id name =
      d.hash_id (codes "series:" ++ (library_id ++ (b':' ∷ d.to_lower name)))

  unfoldable pub season_id : Str → ℕ → Str
  season_id sid season = d.hash_id (codes "season:" ++ (sid ++ (b':' ∷ itoa season)))

  unfoldable pub artist_id : Str → Str → Str
  artist_id library_id name =
      d.hash_id (codes "artist:" ++ (library_id ++ (b':' ∷ d.to_lower name)))

  unfoldable pub album_id : Str → Str → Str
  album_id aid name = d.hash_id (codes "album:" ++ (aid ++ (b':' ∷ d.to_lower name)))

  unfoldable pub apply_artwork : Str → MediaItem → MediaItem
  apply_artwork path it =
      let a = d.find_artwork path in
      if not (is_empty a.primary) || not (is_empty a.backdrop)
      then record it {
        primary_image_path = a.primary;
        primary_image_tag = d.image_tag a.primary;
        backdrop_image_path = a.backdrop;
        backdrop_image_tag = d.image_tag a.backdrop;
      }
      else it

  -- Each picture by itself, since a folder may have one without the other.
  unfoldable pub apply_folder_artwork : Str → MediaItem → MediaItem
  apply_folder_artwork dir it =
      let a = d.folder_artwork dir in
      record it {
        primary_image_path = if is_empty a.primary then it.primary_image_path else a.primary;
        primary_image_tag =
            if is_empty a.primary then it.primary_image_tag else d.image_tag a.primary;
        backdrop_image_path = if is_empty a.backdrop then it.backdrop_image_path else a.backdrop;
        backdrop_image_tag =
            if is_empty a.backdrop then it.backdrop_image_tag else d.image_tag a.backdrop;
      }

  -- The item of a file, with what every kind of library gives it.
  abbrev pub file_item : Str → Str → ScannedFile → MediaItem
  file_item library_id parent_id f = record (bare_item (item_id f.path) library_id parent_id) {
    path = f.path;
    container = f.container;
    size_bytes = f.size;
    date_created = f.mod_time;
  }
