-- ===== src/Livetv/M3u.antt =====
-- internal/livetv/m3u.go: the playlist parser.
use cubozoa.Prelude.{
  ℕ, ◌+◌, Bool, true, false, not, ◌&&◌, ◌||◌, Option, none, some, List, [], ◌∷◌, ◌++◌, Str, codes,
  is_empty, str_eq, has_prefix, drop, itoa, leb, ◌==◌, if◌then◌else◌,
}
use cubozoa.Host.{Host}

pub record Channel : Type 0 where
  pub id : Str
  pub tvg_id : Str
  pub name : Str
  pub number : Str
  pub logo : Str
  pub group : Str
  pub url : Str

abbrev empty_channel : Channel
empty_channel = record {
  id = [];
  tvg_id = [];
  name = [];
  number = [];
  logo = [];
  group = [];
  url = [];
}

-- `strings.Split(strings.ReplaceAll(s, "\r\n", "\n"), "\n")`: the line built so far, and whether a
-- carriage return waits for what follows it.
unfoldable lines_loop : Bool → Str → Str → List Str
lines_loop false line [] = line ∷ []
lines_loop true line [] = (line ++ 13 ∷ []) ∷ []
lines_loop false line (c ∷ s) =
    let ended = line ∷ lines_loop false [] s in
    let waits = lines_loop true line s in
    let longer = lines_loop false (line ++ c ∷ []) s in
    if c == 10 then ended else if c == 13 then waits else longer
lines_loop true line (c ∷ s) =
    let ended = line ∷ lines_loop false [] s in
    let waits = lines_loop true (line ++ 13 ∷ []) s in
    let longer = lines_loop false (line ++ 13 ∷ c ∷ []) s in
    if c == 10 then ended else if c == 13 then waits else longer

unfoldable pub split_lines : Str → List Str
unfolding lines_loop
split_lines text = lines_loop false [] text

-- The class `[a-zA-Z0-9\-]`.
unfoldable is_key_byte : ℕ → Bool
is_key_byte c =
    (leb b'a' c && leb c b'z')
    || (leb b'A' c && leb c b'Z')
    || (leb b'0' c && leb c b'9')
    || (c == b'-')

-- Where the search for `attrRe` stands: in a key, behind its equals sign, or in its value.
pub data Scan : Type 0 where
  in_key : Str → Scan
  after_equals : Str → Scan
  in_value : Str → Str → Scan

-- `attrRe.FindAllStringSubmatch`: the keys and the values of the matches, from left to right.
unfoldable find_attrs : Scan → Str → List (Str × Str)
unfolding is_key_byte
find_attrs scan [] = []
find_attrs (in_key key) (c ∷ s) =
    let longer = find_attrs (in_key (key ++ c ∷ [])) s in
    let equals = find_attrs (after_equals key) s in
    let again = find_attrs (in_key []) s in
    if is_key_byte c then longer else if (c == b'=') && not (is_empty key) then equals else again
find_attrs (after_equals key) (c ∷ s) =
    let opened = find_attrs (in_value key []) s in
    let other = find_attrs (in_key (c ∷ [])) s in
    let again = find_attrs (in_key []) s in
    if c == b'"' then opened else if is_key_byte c then other else again
find_attrs (in_value key value) (c ∷ s) =
    let closed = (key, value) ∷ find_attrs (in_key []) s in
    let longer = find_attrs (in_value key (value ++ c ∷ [])) s in
    if c == b'"' then closed else longer

-- The loop of `splitDisplayName`: the name behind the first comma outside quotes, and what is before.
unfoldable pub split_display_loop : Bool → Str → Option (Str × Str)
split_display_loop in_quotes [] = none
split_display_loop in_quotes (c ∷ s) =
    let rest = split_display_loop (if c == b'"' then not in_quotes else in_quotes) s in
    if (c == b',') && not in_quotes
    then some (s, [])
    else elim rest [ none ↦ none | some (name, before) ↦ some (name, c ∷ before) ]

unfoldable pub split_display_name : Str → Option (Str × Str)
unfolding split_display_loop
split_display_name s = split_display_loop false s

-- The `switch` on the lower-case key of an attribute.
unfoldable pub assign : Str → Str → Channel → Channel
assign key value ch =
    if str_eq key (codes "tvg-id")
    then record ch { tvg_id = value }
    else if str_eq key (codes "tvg-name")
    then (if is_empty ch.name then record ch { name = value } else ch)
    else if str_eq key (codes "tvg-logo")
    then record ch { logo = value }
    else if str_eq key (codes "tvg-chno") || str_eq key (codes "channel-number")
    then record ch { number = value }
    else if str_eq key (codes "group-title")
    then record ch { group = value }
    else ch

unfoldable pub is_stream_url : Str → Bool
is_stream_url s =
    has_prefix s (codes "http://")
    || has_prefix s (codes "https://")
    || has_prefix s (codes "rtmp://")
    || has_prefix s (codes "rtsp://")

-- The entries so far, the one that waits for its address, and the last automatic number.
pub record Parser : Type 0 where
  pub channels : List Channel
  pub pending : Option Channel
  pub auto_num : ℕ

module _ (host : Host) where
  unfoldable assign_attrs : List (Str × Str) → Channel → Channel
  unfolding assign
  assign_attrs [] ch = ch
  assign_attrs ((key, value) ∷ attrs) ch = assign_attrs attrs (assign (host.to_lower key) value ch)

  unfoldable parse_ext_inf : Str → Channel
  unfolding assign_attrs split_display_name find_attrs
  parse_ext_inf s = elim (split_display_name s) [
    | none ↦ assign_attrs (find_attrs (in_key []) s) empty_channel
    | some (name, rest) ↦
        assign_attrs (find_attrs (in_key []) rest)
          (record empty_channel { name = host.trim_space name })
  ]

  unfoldable pub channel_id : Channel → Str
  channel_id ch =
      host.hash_prefix (codes "livetv:" ++ (if is_empty ch.tvg_id then ch.url else ch.tvg_id))

  unfoldable pub finalize_channel : Channel → ℕ → Channel
  unfolding channel_id
  finalize_channel ch auto_num =
      let named =
        if is_empty ch.name then record ch { name = codes "Channel " ++ itoa auto_num } else ch in
      let numbered =
        if is_empty ch.number then record named { number = itoa auto_num } else named in
      record numbered { id = channel_id numbered }

  -- A line that completes the entry that waits.
  unfoldable pub complete : Str → Parser → Parser
  unfolding finalize_channel is_stream_url
  complete line p = elim p.pending [
    | none ↦ p
    | some ch ↦ if not (is_stream_url line) then record p { pending = none } else record {
      channels = p.channels ++ finalize_channel (record ch { url = line }) (p.auto_num + 1) ∷ [];
      pending = none;
      auto_num = p.auto_num + 1;
    }
  ]

  -- `#EXTGRP:` sets the group of an entry that has none.
  unfoldable set_group : Str → Option Channel → Option Channel
  set_group group none = none
  set_group group (some ch) = some (if is_empty ch.group then record ch { group = group } else ch)

  unfoldable pub parse_line : Str → Parser → Parser
  unfolding parse_ext_inf set_group complete
  parse_line raw p =
      let line = host.trim_space raw in
      if is_empty line || str_eq line (codes "#EXTM3U")
      then p
      else if has_prefix line (codes "#EXTINF:")
      then record p { pending = some (parse_ext_inf (drop 8 line)) }
      else if has_prefix line (codes "#EXTGRP:")
      then record p { pending = set_group (host.trim_space (drop 8 line)) p.pending }
      else if has_prefix line (codes "#")
      then p
      else complete line p

  unfoldable pub parse_lines : List Str → Parser → Parser
  unfolding parse_line
  parse_lines [] p = p
  parse_lines (line ∷ lines) p = parse_lines lines (parse_line line p)

  unfoldable pub parse_m3u : Str → List Channel
  unfolding parse_lines split_lines
  parse_m3u text =
      (parse_lines (split_lines text)
        (record { channels = []; pending = none; auto_num = 0 })).channels

  -- The first attribute that names a guide.
  unfoldable guide_of : List (Str × Str) → Str
  guide_of [] = []
  guide_of ((key, value) ∷ attrs) =
      let name = host.to_lower key in
      let known =
        str_eq name (codes "url-tvg")
        || str_eq name (codes "x-tvg-url")
        || str_eq name (codes "tvg-url") in
      let rest = guide_of attrs in if known && not (is_empty value) then value else rest

  unfoldable guide_url_loop : List Str → Str
  unfolding find_attrs guide_of
  guide_url_loop [] = []
  guide_url_loop (raw ∷ lines) =
      let line = host.trim_space raw in
      let rest = guide_url_loop lines in
      if has_prefix line (codes "#EXTM3U") then guide_of (find_attrs (in_key []) line) else rest

  unfoldable pub m3u_guide_url : Str → Str
  unfolding split_lines guide_url_loop
  m3u_guide_url text = guide_url_loop (split_lines text)
