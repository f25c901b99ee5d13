-- ===== src/Tests/Reading.antt =====
-- The parsers' theorems at concrete texts.
use mathlib.Core.List.{reverse-append, reverse-reverse}
use cubozoa.Prelude.{
  ℕ, ◌≤◌, ◌≡◌, refl, sym, ap, ◌∙◌, some, [], ◌∷◌, ◌++◌, reverse, Str, codes, trim, trim_left,
  str_eq, ◌==◌, arith,
}
use cubozoa.Host.{Host}
use cubozoa.Jellyfin.AuthHeader.{ClientAuth, no_auth, parse_auth_grammar}
use cubozoa.Jellyfin.Grammar.{Tidy, Param, ParamOk, render_onto, render_rest}
use cubozoa.Jellyfin.RoundTrip.{parse_auth_grammar-render}
use cubozoa.Server.ClientIp.{Request}
use cubozoa.Tests.Fixtures.{host}

abbrev trimming_host : Host
trimming_host = record host { trim_space = λ s. trim (λ c. c == b' ') s }

trim_left_open : (a : ℕ) (s : Str) → (33 ≤ a) → trim_left (λ c. c == b' ') (a ∷ s) ≡ a ∷ s
unfolding trim_left
trim_left_open a s h = ground arith

trim_space_left : (s : Str) → trim_left (λ c. c == b' ') (b' ' ∷ s) ≡ trim_left (λ c. c == b' ') s
unfolding trim_left
trim_space_left s = refl

trim_right :
    (m : Str) (b : ℕ)
    → (33 ≤ b)
    → reverse (trim_left (λ c. c == b' ') (reverse (m ++ b ∷ []))) ≡ m ++ b ∷ []
trim_right m b h =
    ap (λ (l : Str). reverse (trim_left (λ c. c == b' ') l)) (reverse-append m (b ∷ []))
    ∙ ap reverse (trim_left_open b (reverse m) h)
    ∙ ap reverse (sym (reverse-append m (b ∷ [])))
    ∙ reverse-reverse (m ++ b ∷ [])

trims_law :
    (s : Str) → Tidy s → (trim (λ c. c == b' ') s ≡ s) × (trim (λ c. c == b' ') (b' ' ∷ s) ≡ s)
unfolding trim
trims_law s ((a, m, e, va), (m', b, e', vb)) =
    let left : trim_left (λ c. c == b' ') s ≡ s =
      ap (trim_left (λ c. c == b' ')) e ∙ trim_left_open a m va.0 ∙ sym e in
    let right : reverse (trim_left (λ c. c == b' ') (reverse s)) ≡ s =
      ap (λ (l : Str). reverse (trim_left (λ c. c == b' ') (reverse l))) e'
      ∙ trim_right m' b vb.0
      ∙ sym e' in
    (
      ap (λ (l : Str). reverse (trim_left (λ c. c == b' ') (reverse l))) left ∙ right,
      ap (λ (l : Str). reverse (trim_left (λ c. c == b' ') (reverse l))) (trim_space_left s ∙ left)
          ∙ right,
    )

abbrev token_param : Param
token_param = (codes "Token", codes "a=b")

abbrev device_param : Param
device_param = (codes "Device", codes "Living Room, TV")

device-ParamOk : ParamOk device_param
device-ParamOk = (
  ground arith,
  (
    (b'D', codes "evice", refl, (ground arith, ground arith)),
    (codes "Devic", b'e', refl, (ground arith, ground arith)),
  ),
  ground arith,
)

token-ParamOk : ParamOk token_param
token-ParamOk = (
  ground arith,
  (
    (b'T', codes "oken", refl, (ground arith, ground arith)),
    (codes "Toke", b'n', refl, (ground arith, ground arith)),
  ),
  ground arith,
)

parse_auth_grammar-render_example :
    parse_auth_grammar trimming_host
      (codes "MediaBrowser" ++ b' ' ∷ render_onto device_param (render_rest (token_param ∷ [])))
      no_auth
    ≡ record no_auth { device = codes "Living Room, TV"; token = codes "a=b" }
unfolding str_eq trim trim_left cubozoa.Jellyfin.AuthHeader.assign cubozoa.Jellyfin.AuthHeader.runes
parse_auth_grammar-render_example =
    parse_auth_grammar-render trimming_host trims_law (codes "MediaBrowser") device_param
      (token_param ∷ []) no_auth (ground arith) refl (device-ParamOk, (token-ParamOk, tt)) refl

abbrev forwarded : Request
forwarded = record {
  header = λ k. codes "10.0.0.7 , 10.0.0.1";
  remote_addr = codes "10.0.0.2:99";
  split_host_port = some (codes "10.0.0.2");
}
