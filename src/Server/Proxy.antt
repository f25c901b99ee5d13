-- ===== src/Server/Proxy.antt =====
-- Which address clientIP of internal/server/ratelimit.go takes from the headers.
use mathlib.Core.List.{reverse-append, reverse-reverse}
use cubozoa.Prelude.{
  ℕ, suc, ◌≡◌, ◌≢◌, refl, sym, ap, ◌∙◌, subst, inl, inr, true, false, some, [], ◌∷◌, ◌++◌, reverse,
  Str, codes, is_empty, take, trim, trim_left, All, All-reverse, Bool-cases, arith,
}
use cubozoa.Server.ClientIp.{Request, index_byte, is_blank, trim_space, peer, client_ip}

-- Only blanks.
abbrev Blank : Str → Type 0
Blank = All (λ c. is_blank c ≡ true)

-- Not a blank at the start.
abbrev StartsOpen : Str → Type 0
StartsOpen [] = Unit
StartsOpen (c ∷ s) = is_blank c ≡ false

trim_left_split :
    (s : Str)
    → (before : Str) × (s ≡ before ++ trim_left is_blank s)
      × Blank before
      × StartsOpen (trim_left is_blank s)
unfolding trim_left
trim_left_split [] = ([], refl, tt, tt)
trim_left_split (c ∷ s) = elim (Bool-cases (is_blank c)) [
  | inl e ↦
      let (before, same, blank, starts) = trim_left_split s in
      (c ∷ before, rw e (ap (λ (t : Str). c ∷ t) same), (e, blank), rw e starts)
  | inr e ↦ ([], rw e refl, tt, rw e e)
]

StartsOpen-append : (a b : Str) → StartsOpen (a ++ b) → StartsOpen a
StartsOpen-append [] b h = tt
StartsOpen-append (c ∷ a) b h = h

-- What `trimSpace` returns is the text between its blanks: it neither starts nor ends with one.
trim_space_lem :
    (s : Str)
    → (before after : Str) × (s ≡ before ++ (trim_space s ++ after))
      × Blank before
      × Blank after
      × StartsOpen (trim_space s)
      × StartsOpen (reverse (trim_space s))
unfolding trim_space trim
trim_space_lem s =
    let u = trim_left is_blank s in
    let t = trim_left is_blank (reverse u) in
    let (before, e, blank, starts) = trim_left_split s in
    let (tail, e', blank', starts') = trim_left_split (reverse u) in
    let whole : u ≡ reverse t ++ reverse tail =
      sym (reverse-reverse u) ∙ ap reverse e' ∙ reverse-append tail t in
    (
      before,
      reverse tail,
      e ∙ ap (λ (l : Str). before ++ l) whole,
      blank,
      All-reverse (λ c. is_blank c ≡ true) tail blank',
      StartsOpen-append (reverse t) (reverse tail) (subst StartsOpen whole starts),
      subst StartsOpen (sym (reverse-reverse t)) starts',
    )

before_comma :
    (hop rest : Str)
    → All (λ c. c ≢ b',') hop
    → (i : ℕ) × (index_byte (hop ++ b',' ∷ rest) b',' ≡ some i)
      × (take i (hop ++ b',' ∷ rest) ≡ hop)
unfolding index_byte
before_comma [] rest h = (0, refl, refl)
before_comma (c ∷ hop) rest (a, h) =
    let (i, e, t) = before_comma hop rest h in (suc i, ground (arith, e), ap (λ (l : Str). c ∷ l) t)

-- Behind a proxy that is not declared trusted the headers change nothing: two requests from one peer
-- count as one client, whatever their headers say.
client_ip_untrusted :
    (r r' : Request)
    → r.remote_addr ≡ r'.remote_addr
    → r.split_host_port ≡ r'.split_host_port
    → client_ip r false ≡ client_ip r' false
unfolding client_ip peer
client_ip_untrusted r r' a b = rw (a, b) refl

-- Behind a trusted proxy the address is the first entry of X-Forwarded-For, without its blanks.
client_ip_first :
    (r : Request) (hop rest : Str)
    → All (λ c. c ≢ b',') hop
    → r.header (codes "X-Forwarded-For") ≡ hop ++ b',' ∷ rest
    → client_ip r true ≡ trim_space hop
unfolding client_ip
client_ip_first r hop rest h e =
    let (i, at, t) = before_comma hop rest h in ground (arith, e, filled hop rest, at, t)
  where
    filled : (a b : Str) → is_empty (a ++ b',' ∷ b) ≡ false
    filled [] b = refl
    filled (c ∷ a) b = refl
