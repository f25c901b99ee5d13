-- ===== src/Dvr/Title.antt =====
-- Title matching in internal/dvr/recorder.go.
use cubozoa.Prelude.{
  ℕ, Bool, true, false, ◌&&◌, ◌||◌, [], ◌∷◌, ◌++◌, Str, is_empty, str_eq, has_prefix, leb, ◌==◌,
  if◌then◌else◌,
}
use cubozoa.Host.{Host}

unfoldable pub is_word : ℕ → Bool
is_word c = (leb b'a' c && leb c b'z') || (leb b'0' c && leb c b'9')

-- The loop: `space` is `prevSpace`. A byte of a longer rune is no word byte, as its rune is none.
unfoldable pub collapse : Bool → Str → Str
unfolding is_word
collapse space [] = []
collapse space (c ∷ s) =
    let word = c ∷ collapse false s in
    let gap = if space then collapse true s else b' ' ∷ collapse true s in
    if is_word c then word else gap

-- Without one space at the end.
unfoldable pub drop_last_space : Str → Str
drop_last_space [] = []
drop_last_space (c ∷ []) = if c == b' ' then [] else c ∷ []
drop_last_space (c ∷ d ∷ s) = c ∷ drop_last_space (d ∷ s)

unfoldable pub normalize_title : Host → Str → Str
unfolding collapse drop_last_space
normalize_title host s = drop_last_space (collapse true (host.to_lower s))

unfoldable pub title_matches : Str → Str → Bool
title_matches airing series =
    if is_empty series || is_empty airing
    then false
    else if str_eq airing series
    then true
    else has_prefix airing (series ++ b' ' ∷ [])
