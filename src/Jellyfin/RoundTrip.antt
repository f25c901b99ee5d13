-- ===== src/Jellyfin/RoundTrip.antt =====
-- The grammar of internal/jellyfin/authheader.go, printed and parsed again.
use mathlib.Core.List.{reverse-append, reverse-reverse}
use cubozoa.Prelude.{
  ℕ, ◌≡◌, ◌≢◌, refl, ap, ◌∙◌, true, false, some, List, [], ◌∷◌, ◌++◌, reverse, Str, trim, trim_left,
  ◌==◌, All, All-reverse, All-map, arith,
}
use cubozoa.Host.{Host}
use cubozoa.Jellyfin.AuthHeader.{
  ClientAuth, runes, split_loop, split_params, cut, assign, parse_part, parse_parts, is_scheme,
  strip_scheme, parse_auth_grammar,
}
use cubozoa.Jellyfin.Grammar.{
  Plain, Quoteless, Param, ParamOk, Tidy, render_onto, render_rest, rest_parts, split_rest,
}

quoted : Str → Str
quoted v = b'"' ∷ (v ++ (b'"' ∷ []))

quoted-Tidy : (v : Str) → Tidy (quoted v)
unfolding quoted
quoted-Tidy v = (
  (b'"', v ++ b'"' ∷ [], refl, (ground arith, ground arith)),
  (b'"' ∷ v, b'"', refl, (ground arith, ground arith)),
)

cut_plain : (sep : ℕ) (k w : Str) → All (λ c. c ≢ sep) k → cut sep (k ++ sep ∷ w) ≡ some (k, w)
unfolding cut
cut_plain sep [] w h = ground arith
cut_plain sep (c ∷ k) w (a, h) = ground (arith, cut_plain sep k w h)

strip_scheme_known :
    (host : Host) (scheme body : Str)
    → All (λ c. c ≢ b' ') scheme
    → is_scheme host scheme ≡ true
    → strip_scheme host (scheme ++ b' ' ∷ body) ≡ body
unfolding strip_scheme
strip_scheme_known host scheme body h e =
    rw (cut_plain b' ' scheme body h, strip_scheme) (rw e refl)

trim_left_kept : (v : Str) → Quoteless v → trim_left (λ c. c == b'"') v ≡ v
unfolding trim_left
trim_left_kept [] h = refl
trim_left_kept (c ∷ v) (a, h) = ground arith

trim_left_open : (s : Str) → trim_left (λ c. c == b'"') (b'"' ∷ s) ≡ trim_left (λ c. c == b'"') s
unfolding trim_left
trim_left_open s = refl

trim_left_at : (c : ℕ) (s : Str) → c ≢ b'"' → trim_left (λ c. c == b'"') (c ∷ s) ≡ c ∷ s
unfolding trim_left
trim_left_at c s a = ground arith

trim_enclosed : (v : Str) → Quoteless v → trim (λ c. c == b'"') (quoted v) ≡ v
unfolding trim quoted
trim_enclosed [] h = rw (trim_left_open (b'"' ∷ []), trim_left_open []) refl
trim_enclosed (c ∷ v) (a, h) =
    rw (trim_left_open (c ∷ (v ++ b'"' ∷ [])), trim_left_at c (v ++ b'"' ∷ []) a)
      (ap (λ (l : Str). reverse (trim_left (λ c. c == b'"') l)) (reverse-append (c ∷ v) (b'"' ∷ []))
        ∙ ap reverse (trim_left_open (reverse (c ∷ v)))
        ∙ ap reverse (trim_left_kept (reverse (c ∷ v)) (All-reverse (λ x. x ≢ b'"') (c ∷ v) (a, h)))
        ∙ reverse-reverse (c ∷ v))

Plain-cut : (k : Str) → Plain k → All (λ c. c ≢ b'=') k
Plain-cut k h = All-map (λ c p. p.2) k h

module _ (host : Host) where
  -- What a part that holds one equals sign assigns.
  part_of :
      (k w key value : Str) (ca : ClientAuth)
      → All (λ c. c ≢ b'=') k
      → host.trim_space k ≡ key
      → host.trim_space w ≡ w
      → trim (λ c. c == b'"') w ≡ value
      → parse_part host (k ++ b'=' ∷ w) ca ≡ assign (host.to_lower key) value ca
  unfolding parse_part assign
  part_of k w key value ca h ek ew ev = rw (cut_plain b'=' k w h, parse_part) (rw (ek, ew, ev) refl)

  module _
      (trims : (s : Str)
        → Tidy s
        → (host.trim_space s ≡ s) × (host.trim_space (b' ' ∷ s) ≡ s)) where
    part_first :
        (k v : Str) (ca : ClientAuth)
        → Plain k
        → Tidy k
        → Quoteless v
        → parse_part host (render_onto (k, v) []) ca ≡ assign (host.to_lower k) v ca
    unfolding quoted
    part_first k v ca hk tk hv =
        part_of k (quoted v) k v ca (Plain-cut k hk) (trims k tk).0
          (trims (quoted v) (quoted-Tidy v)).0 (trim_enclosed v hv)

    part_next :
        (k v : Str) (ca : ClientAuth)
        → Plain k
        → Tidy k
        → Quoteless v
        → parse_part host (b' ' ∷ render_onto (k, v) []) ca ≡ assign (host.to_lower k) v ca
    unfolding quoted
    part_next k v ca hk tk hv =
        part_of (b' ' ∷ k) (quoted v) k v ca ((λ e. ground (arith, e)), Plain-cut k hk)
          (trims k tk).1 (trims (quoted v) (quoted-Tidy v)).0 (trim_enclosed v hv)

    -- The assignments that a list of parameters makes, in order.
    abbrev assign_all : List Param → ClientAuth → ClientAuth
    assign_all [] ca = ca
    assign_all ((k, v) ∷ ps) ca = assign_all ps (assign (host.to_lower k) v ca)

    folds_rest :
        (ps : List Param) (ca : ClientAuth)
        → All ParamOk ps
        → parse_parts host (rest_parts ps) ca ≡ assign_all ps ca
    unfolding parse_parts
    folds_rest [] ca h = refl
    folds_rest ((k, v) ∷ ps) ca ((hk, tk, hv), h) =
        ap (parse_parts host (rest_parts ps)) (part_next k v ca hk tk hv)
        ∙ folds_rest ps (assign (host.to_lower k) v ca) h

    -- A header that is printed as the scheme, a space and `key="value"` pairs with a comma and a space
    -- between two of them is parsed back: each value is assigned to the field of its key, in order. A
    -- value may hold commas, spaces and equals signs, but no quote; a key holds none of them and is
    -- visible ASCII at both ends, where trimming leaves it as it is. What is printed is UTF-8: its runes,
    -- written back, are the text itself.
    pub parse_auth_grammar-render :
        (scheme : Str) (p : Param) (ps : List Param) (ca : ClientAuth)
        → All (λ c. c ≢ b' ') scheme
        → is_scheme host scheme ≡ true
        → All ParamOk (p ∷ ps)
        → runes (render_onto p (render_rest ps)) ≡ render_onto p (render_rest ps)
        → parse_auth_grammar host (scheme ++ b' ' ∷ render_onto p (render_rest ps)) ca
          ≡ assign_all (p ∷ ps) ca
    unfolding parse_auth_grammar split_params parse_parts
    parse_auth_grammar-render scheme (k, v) ps ca hs e ((hk, tk, hv), h) text =
        let body = render_onto (k, v) (render_rest ps) in
        ap (λ (t : Str). parse_parts host (split_params t) ca)
          (strip_scheme_known host scheme body hs e)
        ∙ ap (λ (t : Str). parse_parts host (split_loop false [] t) ca) text
        ∙ ap (λ (l : List Str). parse_parts host l ca) (split_rest [] (k, v) ps ((hk, tk, hv), h))
        ∙ ap (parse_parts host (rest_parts ps)) (part_first k v ca hk tk hv)
        ∙ folds_rest ps (assign (host.to_lower k) v ca) h
