-- ===== src/Server/ClientIp.antt =====
-- The client's address in internal/server/ratelimit.go: clientIP and its helpers.
use cubozoa.Prelude.{
  ℕ, suc, Bool, not, ◌||◌, Option, none, some, [], ◌∷◌, Str, codes, is_empty, take, trim, ◌==◌,
  if◌then◌else◌,
}

-- What the code reads of a request: its headers, where an absent one is empty, the peer's address,
-- and what `net.SplitHostPort` makes of that.
pub record Request : Type 0 where
  pub header : Str → Str
  pub remote_addr : Str
  pub split_host_port : Option Str

-- `none` is the answer -1.
unfoldable pub index_byte : Str → ℕ → Option ℕ
index_byte [] b = none
index_byte (c ∷ s) b =
    let rest = index_byte s b in
    if c == b then some 0 else elim rest [ none ↦ none | some i ↦ some (suc i) ]

abbrev pub is_blank : ℕ → Bool
is_blank c = c == b' ' || c == 9

unfoldable pub trim_space : Str → Str
trim_space s = trim is_blank s

unfoldable pub peer : Request → Str
peer r = elim r.split_host_port [ none ↦ r.remote_addr | some host ↦ host ]

unfoldable pub client_ip : Request → Bool → Str
unfolding index_byte trim_space peer
client_ip r trust_proxy =
    let xff = r.header (codes "X-Forwarded-For") in
    let xrip = r.header (codes "X-Real-Ip") in
    if not trust_proxy
    then peer r
    else if not (is_empty xff)
    then elim (index_byte xff b',') [ none ↦ trim_space xff | some i ↦ trim_space (take i xff) ]
    else if not (is_empty xrip)
    then trim_space xrip
    else peer r
