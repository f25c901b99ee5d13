-- ===== src/Media/Files.antt =====
-- internal/media/service.go: which file of an item a request may read. `rel` is filepath.Rel, `none` its
-- error; `content_type` is StreamContentType.
use cubozoa.Prelude.{
  ℕ, zero, suc, Bool, true, false, not, ◌&&◌, Option, none, some, List, [], ◌∷◌, Str, codes,
  is_empty, str_eq, has_prefix, Result, ok, err, if◌then◌else◌,
}
use cubozoa.Store.Models.{SubtitleTrack}
use cubozoa.Store.State.{JsonStore, StoreError, not_found}
use cubozoa.Store.Catalog.{get_library, get_item}

pub record Stream : Type 0 where
  pub path : Str
  pub container : Str
  pub content_type : Str
  pub size : ℕ

pub record Image : Type 0 where
  pub path : Str
  pub content_type : Str
  pub tag : Str

pub data ImageError : Type 0 where
  no_image : ImageError
  store_error : StoreError → ImageError

-- `it.Subtitles[index]` after the test of the bounds.
unfoldable pub subtitle_at : ℕ → List SubtitleTrack → Option SubtitleTrack
subtitle_at index [] = none
subtitle_at zero (tr ∷ trs) = some tr
subtitle_at (suc index) (tr ∷ trs) = subtitle_at index trs

module _ (rel : Str → Str → Option Str) where
  unfoldable pub within_root : Str → Str → Bool
  within_root root p = elim (rel root p) [
    | none ↦ false
    | some r ↦ not (str_eq r (codes "..")) && not (has_prefix r (codes "../"))
  ]

  -- `err == nil && !withinRoot(lib.Path, path)`
  unfoldable pub rejected : Str → Str → JsonStore → Bool
  rejected library_id path s = elim (get_library library_id s) [
    | err _ ↦ false
    | ok lib ↦ not (within_root lib.path path)
  ]

  unfoldable pub item_stream : (Str → Str) → Str → JsonStore → Result StoreError Stream
  item_stream content_type id s = elim (get_item id s) [
    | err e ↦ err e
    | ok it ↦
        if is_empty it.path
        then err not_found
        else if rejected it.library_id it.path s
        then err not_found
        else ok (record {
          path = it.path;
          container = it.container;
          content_type = content_type it.container;
          size = it.size_bytes;
        })
  ]

  -- A negative index is refused before.
  unfoldable pub item_subtitle : Str → ℕ → JsonStore → Result StoreError SubtitleTrack
  unfolding subtitle_at
  item_subtitle id index s = elim (get_item id s) [
    | err e ↦ err e
    | ok it ↦ elim (subtitle_at index it.subtitles) [
      | none ↦ err not_found
      | some tr ↦ if rejected it.library_id tr.path s then err not_found else ok tr
    ]
  ]

  -- `cache` is the folder of downloaded artwork.
  unfoldable image_path_allowed : Str → Str → Str → JsonStore → Bool
  image_path_allowed cache library_id path s =
      if not (is_empty cache) && within_root cache path
      then true
      else elim (get_library library_id s) [ err _ ↦ false | ok lib ↦ within_root lib.path path ]

  -- `content_type` is imageContentType here.
  unfoldable item_image :
      (Str → Str) → (Str → Str) → Str → Str → Str → JsonStore → Result ImageError Image
  unfolding image_path_allowed
  item_image to_lower content_type cache id image_type s = elim (get_item id s) [
    | err e ↦ err (store_error e)
    | ok it ↦
        let kind = to_lower image_type in
        let primary = str_eq kind (codes "primary") in
        let path = if primary then it.primary_image_path else it.backdrop_image_path in
        let tag = if primary then it.primary_image_tag else it.backdrop_image_tag in
        if not primary && not (str_eq kind (codes "backdrop"))
        then err no_image
        else if is_empty path
        then err no_image
        else if not (image_path_allowed cache it.library_id path s)
        then err no_image
        else ok (record { path = path; content_type = content_type path; tag = tag })
  ]
