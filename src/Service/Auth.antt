-- ===== src/Service/Auth.antt =====
-- backend/internal/service/auth_service.go. The JWT and bcrypt libraries are parameters.
pub mod Tokens
use geo_note.Common.Int.{ℤ, pos, negsuc, ◌+ℤ◌}
use geo_note.Common.{ℕ, ◌/◌, String, Bool, Option, none, some, if◌then◌else◌}

-- `Unix()` of a time in nanoseconds: the seconds, rounded down.
unfoldable pub unix : ℤ → ℤ
unix (pos n) = pos (n / 1000000000)
unix (negsuc n) = negsuc (n / 1000000000)

-- The claims that `generateToken` signs; times are Unix seconds.
pub record Claims : Type 0 where
  pub sub : String
  pub iat : ℕ
  pub exp : ℤ

-- What the service calls of github.com/golang-jwt/jwt/v5. `parse` is given the time and the
-- function that chooses a key for a token; `sub` is `claims["sub"].(string)` of map claims.
pub record Jwt : Type 1 where
  pub Token : Type 0
  pub parse : ℕ → (Token → Option String) → String → Option Token
  pub is_hmac : Token → Bool
  pub valid : Token → Bool
  pub sub : Token → Option String
  pub signed_string : String → Claims → Option String

module _ (jwt : Jwt) (secret : String) where
  -- The key function of `ValidateToken`.
  pub key_of : jwt.Token → Option String
  key_of token = if jwt.is_hmac token then some secret else none

  subject : jwt.Token → Option String
  subject token = if jwt.valid token then jwt.sub token else none

  checked : Option jwt.Token → Option String
  checked none = none
  checked (some token) = subject token

  -- `none` is an error; every caller treats all errors alike.
  pub validate_token : ℕ → String → Option String
  unfolding key_of checked subject
  validate_token now token_str = checked (jwt.parse now key_of token_str)

-- `generateToken`, with the time and the expiry in nanoseconds.
unfoldable pub generate_token :
    (jwt : Jwt) (secret : String) (expiry : ℤ) → ℕ → String → Option String
generate_token jwt secret expiry now user_id =
    jwt.signed_string secret
      (record { sub = user_id; iat = now / 1000000000; exp = unix (pos now +ℤ expiry) })
