-- ===== src/Jellyfin/AuthHeader.antt =====
-- internal/jellyfin/authheader.go: the client's metadata and token. A header's bytes need not
-- be UTF-8; where the code walks over runes it writes U+FFFD for each byte that is part of none.
use cubozoa.Prelude.{
  ℕ, zero, suc, leb, ltb, Bool, true, false, not, ◌&&◌, ◌||◌, Option, none, some, List, [], ◌∷◌,
  ◌++◌, Str, codes, is_empty, str_eq, trim, ◌==◌, if◌then◌else◌,
}
use cubozoa.Host.{Host}

pub record ClientAuth : Type 0 where
  pub token : Str
  pub client : Str
  pub device : Str
  pub device_id : Str
  pub version : Str

-- What the code reads of a request: its headers, where an absent one is empty, and `api_key`.
pub record Request : Type 0 where
  pub header : Str → Str
  pub api_key : Str

-- The loop of `splitParams`: whether it is inside quotes, and the text in the builder.
unfoldable pub split_loop : Bool → Str → Str → List Str
split_loop in_quotes built [] = if is_empty built then [] else built ∷ []
split_loop in_quotes built (c ∷ s) =
    let toggled = split_loop (not in_quotes) (built ++ c ∷ []) s in
    let ended = built ∷ split_loop in_quotes [] s in
    let longer = split_loop in_quotes (built ++ c ∷ []) s in
    if c == b'"' then toggled else if (c == b',') && not in_quotes then ended else longer

abbrev between : ℕ → ℕ → ℕ → Bool
between lo hi c = leb lo c && leb c hi

-- Whether the next `n` bytes continue a rune, the first of them between two bounds.
unfoldable continues : ℕ → ℕ → ℕ → Str → Bool
continues zero lo hi s = true
continues (suc n) lo hi [] = false
continues (suc n) lo hi (c ∷ s) = between lo hi c && continues n 128 191 s

-- How many bytes the first byte of a rune wants behind it, and whether they are there.
unfoldable rune_tail : ℕ → Str → Option ℕ
unfolding continues
rune_tail c s =
    let n =
      if between 194 223 c
      then 1
      else if between 224 239 c
      then 2
      else if between 240 244 c
      then 3
      else 0 in
    let lo = if c == 224 then 160 else if c == 240 then 144 else 128 in
    let hi = if c == 237 then 159 else if c == 244 then 143 else 191 in
    if ltb c 128 then some 0 else if not (n == 0) && continues n lo hi s then some n else none

-- The runes of a text, written back: `skip` bytes of the present rune are still to come.
unfoldable runes_loop : ℕ → Str → Str
unfolding rune_tail
runes_loop skip [] = []
runes_loop (suc skip) (c ∷ s) = c ∷ runes_loop skip s
runes_loop zero (c ∷ s) = elim (rune_tail c s) [
  | none ↦ 239 ∷ 191 ∷ 189 ∷ runes_loop 0 s
  | some n ↦ c ∷ runes_loop n s
]

unfoldable pub runes : Str → Str
unfolding runes_loop
runes s = runes_loop 0 s

-- A quote and a comma are one byte each and no part of a longer rune.
unfoldable pub split_params : Str → List Str
unfolding split_loop runes
split_params s = split_loop false [] (runes s)

-- `strings.Cut(s, sep)` for a separator of one byte.
unfoldable pub cut : ℕ → Str → Option (Str × Str)
cut sep [] = none
cut sep (c ∷ s) =
    let rest = cut sep s in
    if c == sep then some ([], s) else elim rest [ none ↦ none | some (a, b) ↦ some (c ∷ a, b) ]

-- The `switch` on the lower-case key.
unfoldable pub assign : Str → Str → ClientAuth → ClientAuth
assign key value ca =
    if str_eq key (codes "token")
    then record ca { token = value }
    else if str_eq key (codes "client")
    then record ca { client = value }
    else if str_eq key (codes "device")
    then record ca { device = value }
    else if str_eq key (codes "deviceid")
    then record ca { device_id = value }
    else if str_eq key (codes "version")
    then record ca { version = value }
    else ca

abbrev pub no_auth : ClientAuth
no_auth = record { token = []; client = []; device = []; device_id = []; version = [] }

-- The first text that is there.
abbrev first_of : Str → Str → Str
first_of a b = if is_empty a then b else a

module _ (host : Host) where
  unfoldable pub parse_part : Str → ClientAuth → ClientAuth
  unfolding cut assign
  parse_part part ca = elim (cut b'=' part) [
    | none ↦ ca
    | some (key, value) ↦
        assign (host.to_lower (host.trim_space key)) (trim (λ c. c == b'"') (host.trim_space value))
          ca
  ]

  unfoldable pub parse_parts : List Str → ClientAuth → ClientAuth
  unfolding parse_part
  parse_parts [] ca = ca
  parse_parts (part ∷ parts) ca = parse_parts parts (parse_part part ca)

  abbrev pub is_scheme : Str → Bool
  is_scheme word =
      let scheme = host.to_lower (host.trim_space word) in
      str_eq scheme (codes "mediabrowser") || str_eq scheme (codes "emby")

  -- The header without its scheme.
  unfoldable pub strip_scheme : Str → Str
  unfolding cut
  strip_scheme header = elim (cut b' ' header) [
    | none ↦ header
    | some (word, rest) ↦ if is_scheme word then rest else header
  ]

  unfoldable pub parse_auth_grammar : Str → ClientAuth → ClientAuth
  unfolding strip_scheme split_params parse_parts
  parse_auth_grammar header ca = parse_parts (split_params (strip_scheme header)) ca

  unfoldable pub parse_client_auth : Request → ClientAuth
  unfolding parse_auth_grammar
  parse_client_auth r =
      let header =
        first_of (r.header (codes "Authorization")) (r.header (codes "X-Emby-Authorization")) in
      let ca = if is_empty header then no_auth else parse_auth_grammar header no_auth in
      let bare =
        first_of (r.header (codes "X-Emby-Token"))
          (first_of (r.header (codes "X-MediaBrowser-Token")) r.api_key) in
      if is_empty ca.token then record ca { token = bare } else ca
