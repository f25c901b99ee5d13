-- ===== src/Host.antt =====
-- What the server takes from its surroundings: the Unicode tables behind package `strings`, and
-- cryptography (argon2 of golang.org/x/crypto, and Go's SHA-1, SHA-256 and base32). Each is any
-- function; a theorem that needs a law of one has it as a hypothesis.
use cubozoa.Prelude.{Bool, Option, Str}

pub record Host : Type 0 where
  -- the form that `strings.EqualFold` compares
  pub fold : Str → Str
  pub to_lower : Str → Str
  pub to_upper : Str → Str
  pub trim_space : Str → Str
  -- `security.HashToken`: SHA-256, in hexadecimal
  pub hash_token : Str → Str
  -- the first 16 bytes of SHA-256, in hexadecimal
  pub hash_prefix : Str → Str
  -- `security.VerifyPassword(password, encoded)`, false also for a malformed hash
  pub verify_password : Str → Str → Bool
  -- HMAC-SHA1 of a message under a key
  pub hmac_sha1 : Str → Str → Str
  -- base32 with no padding; `none` is a decoding error
  pub base32_decode : Str → Option Str
