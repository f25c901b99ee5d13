-- ===== src/Livetv/Logo.antt =====
-- internal/livetv/service.go: the cache of channel logos. The files are those of the cache directory, by
-- path; `join` is filepath.Join.
use cubozoa.Prelude.{
  ◌*◌, Bool, false, not, ◌||◌, Option, none, some, List, [], ◌∷◌, ◌++◌, Str, codes, is_empty,
  str_eq, has_prefix, reverse, length, ltb, if◌then◌else◌,
}
use cubozoa.Prelude.Map
use cubozoa.Prelude.Map.{Map}
use cubozoa.Host.{Host}
use cubozoa.Media.Subtitles.{split}
use cubozoa.Livetv.Guide.{Service, channel}
use cubozoa.Livetv.Reload.{Upstream, fetch}

-- `strings.HasSuffix`
abbrev has_suffix : Str → Str → Bool
has_suffix s p = has_prefix (reverse s) (reverse p)

abbrev before_query : List Str → Str
before_query [] = []
before_query (u ∷ rest) = u

unfoldable logo_ext : Host → Str → Str
logo_ext host u =
    let path = host.to_lower (before_query (split b'?' u)) in
    if has_suffix path (codes ".png")
    then codes ".png"
    else if has_suffix path (codes ".webp")
    then codes ".webp"
    else if has_suffix path (codes ".gif")
    then codes ".gif"
    else codes ".jpg"

unfoldable logo_content_type : Str → Str
logo_content_type ext =
    if str_eq ext (codes ".png")
    then codes "image/png"
    else if str_eq ext (codes ".webp")
    then codes "image/webp"
    else if str_eq ext (codes ".gif")
    then codes "image/gif"
    else codes "image/jpeg"

abbrev is_filled : Option Str → Bool
is_filled none = false
is_filled (some text) = not (is_empty text)

-- The file and its content type. `written` and `renamed` say whether the system could do that. A
-- temporary file that could not be renamed stays; one that could not be written is left out.
unfoldable pub logo_path :
    Host
    → Upstream
    → (Str → Str → Str)
    → Str
    → Bool
    → Bool
    → Str
    → Service
    → Map Str
    → Option (Str × Str) × Map Str
unfolding logo_ext logo_content_type
logo_path host up join logo_dir written renamed channel_id s files = elim (channel channel_id s) [
  | none ↦ (none, files)
  | some c ↦
      let ext = logo_ext host c.logo in
      let dest = join logo_dir (channel_id ++ ext) in
      let tmp = dest ++ codes ".tmp" in
      let served = some (dest, logo_content_type ext) in
      if is_empty c.logo || is_empty logo_dir
      then (none, files)
      else if is_filled (Map.get dest files)
      then (served, files)
      else elim (fetch up c.logo) [
        | none ↦ (none, files)
        | some text ↦
            if is_empty text || ltb (8 * 1024 * 1024) (length text)
            then (none, files)
            else if not written
            then (none, files)
            else if not renamed
            then (none, Map.put tmp text files)
            else (served, Map.remove tmp (Map.put dest text files))
      ]
]
