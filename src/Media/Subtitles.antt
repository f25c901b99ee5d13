-- ===== src/Media/Subtitles.antt =====
-- internal/media/subtitles.go: the subtitle files beside a video, and SubRip text as WebVTT.
-- `to_lower` and `to_upper` are those of package strings, and `join` is filepath.Join.
use cubozoa.Prelude.{
  ℕ, zero, suc, Bool, false, not, ◌&&◌, ◌||◌, Option, none, some, List, [], ◌∷◌, ◌++◌, take, ◌-◌,
  drop, length, min, Str, codes, is_empty, str_eq, has_prefix, leb, ◌==◌, if◌then◌else◌,
}
use Prim.Native.String.{String}
use cubozoa.Store.Models.{SubtitleTrack}
use cubozoa.Media.Browse.{contains}
use cubozoa.Media.Walk.{ext, without_dot}

-- The codec of a recognized extension.
unfoldable pub subtitle_codec : Str → Option Str
subtitle_codec e =
    if str_eq e (codes ".srt") || str_eq e (codes ".sub")
    then some (codes "subrip")
    else if str_eq e (codes ".vtt")
    then some (codes "webvtt")
    else if str_eq e (codes ".ass")
    then some (codes "ass")
    else if str_eq e (codes ".ssa")
    then some (codes "ssa")
    else none

abbrev language_names : List (String × String)
language_names =
    ("en", "English")
    ∷ ("eng", "English")
    ∷ ("es", "Spanish")
    ∷ ("spa", "Spanish")
    ∷ ("fr", "French")
    ∷ ("fre", "French")
    ∷ ("fra", "French")
    ∷ ("de", "German")
    ∷ ("ger", "German")
    ∷ ("deu", "German")
    ∷ ("it", "Italian")
    ∷ ("ita", "Italian")
    ∷ ("pt", "Portuguese")
    ∷ ("por", "Portuguese")
    ∷ ("ru", "Russian")
    ∷ ("rus", "Russian")
    ∷ ("ja", "Japanese")
    ∷ ("jpn", "Japanese")
    ∷ ("ko", "Korean")
    ∷ ("kor", "Korean")
    ∷ ("zh", "Chinese")
    ∷ ("chi", "Chinese")
    ∷ ("zho", "Chinese")
    ∷ ("nl", "Dutch")
    ∷ ("dut", "Dutch")
    ∷ ("nld", "Dutch")
    ∷ ("sv", "Swedish")
    ∷ ("swe", "Swedish")
    ∷ ("pl", "Polish")
    ∷ ("pol", "Polish")
    ∷ ("ar", "Arabic")
    ∷ ("ara", "Arabic")
    ∷ []

unfoldable pub language_name : List (String × String) → Str → Str
language_name [] lang = []
language_name ((code, name) ∷ names) lang =
    let rest = language_name names lang in if str_eq lang (codes code) then codes name else rest

unfoldable subtitle_title : (Str → Str) → Str → Bool → Str
unfolding language_name
subtitle_title to_upper lang forced =
    let known = language_name language_names lang in
    let name =
      if not (is_empty known)
      then known
      else if is_empty lang
      then codes "Subtitle"
      else to_upper lang in
    if forced then name ++ codes " (Forced)" else name

-- `strings.Split(s, sep)` for a separator of one byte, given the piece so far.
unfoldable pub split_loop : ℕ → Str → Str → List Str
split_loop sep piece [] = piece ∷ []
split_loop sep piece (c ∷ s) =
    let new = split_loop sep [] s in
    let more = split_loop sep (piece ++ (c ∷ [])) s in if c == sep then piece ∷ new else more

unfoldable pub split : ℕ → Str → List Str
unfolding split_loop
split sep s = split_loop sep [] s

abbrev pub is_letter : ℕ → Bool
is_letter c = leb b'a' c && leb c b'z'

-- `^[a-z]{2,3}$`
unfoldable pub is_lang_token : Str → Bool
is_lang_token (a ∷ b ∷ []) = is_letter a && is_letter b
is_lang_token (a ∷ b ∷ c ∷ []) = is_letter a && (is_letter b && is_letter c)
is_lang_token s = false

abbrev is_marker : Str → Bool
is_marker tok = str_eq tok (codes "sdh") || (str_eq tok (codes "cc") || str_eq tok (codes "hi"))

-- The loop over the tokens.
unfoldable pub token_loop : List Str → Str → Bool → Str × Bool
unfolding is_lang_token
token_loop [] lang forced = (lang, forced)
token_loop (tok ∷ toks) lang forced =
    let is_lang =
      not (is_empty tok || (str_eq tok (codes "forced") || is_marker tok))
      && (is_empty lang && is_lang_token tok) in
    token_loop toks (if is_lang then tok else lang) (forced || str_eq tok (codes "forced"))

unfoldable pub parse_subtitle_tokens : Str → Str × Bool
unfolding token_loop split
parse_subtitle_tokens rest = token_loop (split b'.' rest) [] false

-- `strings.TrimSuffix(name, filepath.Ext(name))`: the name up to its last dot.
abbrev pub stem_of : Str → Str
stem_of name = take (length name - length (ext name)) name

module _ (to_lower to_upper : Str → Str) (join : Str → Str → Str) where
  -- The track of one file of the directory, if it is one of the video's.
  unfoldable pub subtitle_of : Str → Str → Str → Option SubtitleTrack
  unfolding subtitle_codec subtitle_title parse_subtitle_tokens
  subtitle_of dir base name =
      let e = to_lower (ext name) in
      let stem = to_lower (stem_of name) in
      let base_lower = to_lower base in
      let (lang, forced) =
        parse_subtitle_tokens (drop (min (length base_lower) (length stem)) stem) in
      elim (subtitle_codec e) [
        | none ↦ none
        | some codec ↦
            if not (str_eq stem base_lower) && not (has_prefix stem (base_lower ++ codes "."))
            then none
            else some (record {
              path = join dir name;
              language = lang;
              codec = codec;
              format = without_dot e;
              forced = forced;
              title = subtitle_title to_upper lang forced;
            })
      ]

  -- `names` are the files of the video's directory, `base` its name without the extension.
  unfoldable pub find_subtitles : Str → Str → List Str → List SubtitleTrack
  unfolding subtitle_of
  find_subtitles dir base [] = []
  find_subtitles dir base (name ∷ names) =
      let rest = find_subtitles dir base names in
      elim (subtitle_of dir base name) [ none ↦ rest | some t ↦ t ∷ rest ]

-- `strings.ReplaceAll(s, "\r\n", "\n")`: a carriage return that stands before a line feed is dropped.
abbrev starts_line : Str → Bool
starts_line [] = false
starts_line (c ∷ s) = c == 10

unfoldable pub replace_crlf : Str → Str
replace_crlf [] = []
replace_crlf (c ∷ s) =
    let rest = replace_crlf s in if c == 13 && starts_line s then rest else c ∷ rest

abbrev pub is_digit : ℕ → Bool
is_digit c = leb b'0' c && leb c b'9'

-- `(\d{2}:\d{2}:\d{2}),(\d{3})` at the start of a text.
unfoldable pub is_stamp : Str → Bool
is_stamp (a ∷ b ∷ c1 ∷ c ∷ d ∷ c2 ∷ e ∷ f ∷ comma ∷ g ∷ h ∷ i ∷ s) =
    (is_digit a && (is_digit b && c1 == b':'))
    && ((is_digit c && (is_digit d && c2 == b':'))
        && ((is_digit e && (is_digit f && comma == b','))
            && (is_digit g && (is_digit h && is_digit i))))
is_stamp s = false

-- The replacement of the matches from left to right: `left` bytes of the last match are still to be
-- copied, and its comma is the fourth byte from its end.
unfoldable pub stamp_loop : ℕ → Str → Str
unfolding is_stamp
stamp_loop left [] = []
stamp_loop zero (c ∷ s) =
    let inside = stamp_loop 11 s in
    let outside = stamp_loop 0 s in c ∷ (if is_stamp (c ∷ s) then inside else outside)
stamp_loop (suc left) (c ∷ s) = (if left == 3 then b'.' else c) ∷ stamp_loop left s

unfoldable pub vtt_timestamp : Str → Str
unfolding stamp_loop
vtt_timestamp line = stamp_loop 0 line

unfoldable pub vtt_line : Str → Str
unfolding vtt_timestamp
vtt_line line = if contains line (codes "-->") then vtt_timestamp line else line

-- The loop over the lines.
unfoldable pub write_lines : List Str → Str
unfolding vtt_line
write_lines [] = []
write_lines (line ∷ lines) = vtt_line line ++ (10 ∷ write_lines lines)

unfoldable pub srt_to_vtt : Str → Str
unfolding write_lines replace_crlf split
srt_to_vtt srt = codes "WEBVTT" ++ (10 ∷ 10 ∷ write_lines (split 10 (replace_crlf srt)))
