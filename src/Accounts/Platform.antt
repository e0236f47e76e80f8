-- ===== src/Accounts/Platform.antt =====
-- What the accounts take from outside the repository or from internal/crypto: the random tokens
-- are arguments of the handlers, and the rest is a parameter of the model.
use Prim.Native.Char.{Char}
use Prim.Native.String.{String}
use topology_v.Base.{ℕ, Bool, Option}

pub record Platform : Type 0 where
  -- unicode.ToLower and unicode.IsSpace, on one rune.
  pub lower : Char → Char
  pub is_space : Char → Bool
  -- The `%d` of fmt.
  pub decimal : ℕ → String
  -- crypto/sha256 of a token, and crypto/sha1 with encoding/hex.
  pub sha256 : String → String
  pub sha1_hex : String → String
  -- EncryptPII, with a fresh key each time; `none` is its error.
  pub encrypt : String → Option String
  -- hmac.New(sha256.New, key) over a message, under the server's key, as encoded text.
  pub mac : String → String
  -- base64.RawURLEncoding; `none` is the decoder's error.
  pub encode : String → String
  pub decode : String → Option String
  -- url.QueryEscape.
  pub query_escape : String → String
