-- ===== src/Server/Url.antt =====
-- What internal/server uses of Go's net/url and strconv to write and read the addresses of a playlist.
use cubozoa.Prelude.{
  ℕ, ◌+◌, ◌-◌, ◌*◌, ◌/◌, ◌%◌, ◌^◌, ℤ, pos, negsuc, Bool, ◌&&◌, ◌||◌, any, ltb, leb, ◌==◌, Option,
  none, some, [], ◌∷◌, ◌++◌, Str, codes, if◌then◌else◌,
}

abbrev pub is_decimal : ℕ → Bool
is_decimal c = leb b'0' c && leb c b'9'

-- The bytes that stand for themselves everywhere in an address.
unfoldable pub is_unreserved : ℕ → Bool
is_unreserved c =
    (leb b'a' c && leb c b'z')
    || ((leb b'A' c && leb c b'Z') || (is_decimal c || any (λ d. c == d) (codes "-_.~")))

abbrev upper_hex : ℕ → ℕ
upper_hex n = if ltb n 10 then b'0' + n else b'A' + (n - 10)

abbrev pub percent : ℕ → Str
percent c = b'%' ∷ upper_hex (c / 16) ∷ upper_hex (c % 16) ∷ []

unfoldable pub query_byte : ℕ → Str
query_byte c = if is_unreserved c then c ∷ [] else if c == b' ' then b'+' ∷ [] else percent c

-- `url.QueryEscape`
unfoldable pub query_escape : Str → Str
unfolding query_byte
query_escape [] = []
query_escape (c ∷ s) = query_byte c ++ query_escape s

-- The bytes that stand for themselves in a part of a path.
unfoldable pub is_path_byte : ℕ → Bool
unfolding is_unreserved
is_path_byte c = is_unreserved c || any (λ d. c == d) (codes "$&+:=@")

unfoldable pub path_byte : ℕ → Str
path_byte c = if is_path_byte c then c ∷ [] else percent c

-- `url.PathEscape`
unfoldable pub path_escape : Str → Str
unfolding path_byte
path_escape [] = []
path_escape (c ∷ s) = path_byte c ++ path_escape s

-- `strconv.ParseUint` behind the digits read so far: a number that leaves 64 bits is the largest one,
-- and what follows it is not read. `none` is a syntax error.
unfoldable pub parse_digits : ℕ → Str → Option ℕ
parse_digits n [] = some n
parse_digits n (c ∷ s) =
    let m = n * 10 + (c - b'0') in
    let rest = parse_digits m s in
    if is_decimal c then (if leb (2 ^ 64) m then some (2 ^ 64 - 1) else rest) else none

unfoldable pub parse_uint : Str → Option ℕ
unfolding parse_digits
parse_uint [] = none
parse_uint (c ∷ s) = parse_digits 0 (c ∷ s)

abbrev minus : ℕ → ℤ
minus n = if n == 0 then pos 0 else negsuc (n - 1)

-- `n, _ := strconv.ParseInt(s, 10, 64)`: 0 for a syntax error, the nearest number for one out of range.
unfoldable pub parse_int : Str → ℤ
unfolding parse_uint
parse_int [] = pos 0
parse_int (c ∷ s) =
    let digits = if (c == b'+') || (c == b'-') then s else c ∷ s in
    elim (parse_uint digits) [
      | none ↦ pos 0
      | some n ↦
          if c == b'-'
          then minus (if ltb (2 ^ 63) n then 2 ^ 63 else n)
          else pos (if leb (2 ^ 63) n then 2 ^ 63 - 1 else n)
    ]
