-- ===== src/Media/Scan.antt =====
-- internal/media/scan.go: how the files of a library become items.
use cubozoa.Prelude.{
  Bool, not, Option, none, some, List, [], ◌∷◌, ◌++◌, map, length, codes, str_eq, str_lt, leb, itoa,
  sort_stable, if◌then◌else◌,
}
use cubozoa.Store.Models.{Library, MediaItem}
use cubozoa.Media.Tree.{Tree, Branch, counted, items_of}
use cubozoa.Media.Disk.{
  ScannedFile, Disk, bare_item, pad, item_type_for, first_part, second_part, item_id, series_id,
  season_id, artist_id, album_id, apply_artwork, apply_folder_artwork, file_item,
}

module _ (d : Disk) where
  unfoldable flat_item : Library → ScannedFile → MediaItem
  unfolding item_id apply_artwork item_type_for
  flat_item lib f =
      let (title, year) = d.parse_name (d.base_name f.path) in
      record (apply_artwork d f.path (record (file_item d lib.id lib.id f) {
        name = title;
        sort_name = d.to_lower title;
        type = item_type_for lib.type f.kind;
        media_type = f.kind;
        production_year = year;
      })) { subtitles = d.find_subtitles f.path }

  unfoldable pub build_flat : Library → List ScannedFile → List MediaItem
  unfolding flat_item
  build_flat lib files = map (flat_item lib) files

  -- The series, the season and the episode of one file.
  unfoldable pub episode_branch : Library → ScannedFile → Branch
  unfolding item_id series_id season_id apply_artwork apply_folder_artwork pad
  episode_branch lib f =
      let n = d.parse_episode f.rel_parts in
      let sid = series_id d lib.id n.series in
      let seid = season_id d sid n.season in
      record {
        top =
            apply_folder_artwork d (d.join lib.path (first_part f.rel_parts))
              (record (bare_item sid lib.id lib.id) {
                name = n.series;
                sort_name = d.to_lower n.series;
                type = codes "Series";
                date_created = f.mod_time;
                series_id = sid;
                series_name = n.series;
              });
        folder = record (bare_item seid lib.id sid) {
          name = codes "Season " ++ itoa n.season;
          sort_name = pad 5 n.season;
          type = codes "Season";
          date_created = f.mod_time;
          series_id = sid;
          series_name = n.series;
          index_number = n.season;
        };
        leaf =
            record (apply_artwork d f.path (record (file_item d lib.id seid f) {
              name = n.title;
              sort_name = pad 5 n.episode;
              type = codes "Episode";
              media_type = f.kind;
              series_id = sid;
              series_name = n.series;
              season_id = seid;
              index_number = n.episode;
              parent_index_number = n.season;
            })) { subtitles = d.find_subtitles f.path };
      }

  unfoldable pub episode_tree : Library → List ScannedFile → Tree
  unfolding episode_branch
  episode_tree lib files =
      counted (λ (se : MediaItem). se.series_id) (map (episode_branch lib) files)

  unfoldable pub build_episodes : Library → List ScannedFile → List MediaItem
  unfolding episode_tree
  build_episodes lib files = items_of (episode_tree lib files)

  -- The artist, the album and the track of one file.
  unfoldable pub track_branch : Library → ScannedFile → Branch
  unfolding item_id artist_id album_id apply_artwork apply_folder_artwork pad
  track_branch lib f =
      let n = d.parse_track f.rel_parts in
      let aid = artist_id d lib.id n.artist in
      let alid = album_id d aid n.album in
      let album : MediaItem = record (bare_item alid lib.id aid) {
        name = n.album;
        sort_name = d.to_lower n.album;
        type = codes "MusicAlbum";
        date_created = f.mod_time;
        artist_id = aid;
        album_id = alid;
        album = n.album;
        album_artist = n.artist;
        artists = n.artist ∷ [];
      } in
      record {
        top =
            apply_folder_artwork d (d.join lib.path (first_part f.rel_parts))
              (record (bare_item aid lib.id lib.id) {
                name = n.artist;
                sort_name = d.to_lower n.artist;
                type = codes "MusicArtist";
                date_created = f.mod_time;
                artist_id = aid;
              });
        folder =
            if leb 3 (length f.rel_parts)
            then apply_folder_artwork d
                (d.join (d.join lib.path (first_part f.rel_parts)) (second_part f.rel_parts)) album
            else album;
        leaf = apply_artwork d f.path (record (file_item d lib.id alid f) {
          name = n.title;
          sort_name = pad 4 n.track;
          type = codes "Audio";
          media_type = codes "Audio";
          artist_id = aid;
          album_id = alid;
          album = n.album;
          album_artist = n.artist;
          artists = n.artist ∷ [];
          index_number = n.track;
        });
      }

  unfoldable pub track_tree : Library → List ScannedFile → Tree
  unfolding track_branch
  track_tree lib files = counted (λ (al : MediaItem). al.artist_id) (map (track_branch lib) files)

  unfoldable pub build_tracks : Library → List ScannedFile → List MediaItem
  unfolding track_tree
  build_tracks lib files = items_of (track_tree lib files)

  abbrev sort_name_less : MediaItem → MediaItem → Bool
  sort_name_less a b =
      if not (str_eq a.sort_name b.sort_name)
      then str_lt a.sort_name b.sort_name
      else str_lt a.id b.id

  -- `Scan`, after the walk of the directory: `files` is what collectFiles found, `none` its error.
  unfoldable pub scan : Library → Option (List ScannedFile) → Option (List MediaItem)
  unfolding build_flat build_episodes build_tracks
  scan lib none = none
  scan lib (some files) = some (
      sort_stable sort_name_less (
        if str_eq lib.type (codes "tvshows")
        then build_episodes lib files
        else if str_eq lib.type (codes "music")
        then build_tracks lib files
        else build_flat lib files))
