-- ===== src/Middleware/Auth.antt =====
-- backend/internal/middleware/auth.go. A request's context holds the user, if a middleware put one.
pub mod Access
use geo_note.Common.{
  String, ℕ, Bool, true, false, Option, none, some, str_eq, ◌⊎◌, inl, inr, ◌&&◌, not, if◌then◌else◌,
}
use geo_note.Common.Text.{trim_prefix}
use geo_note.Http.{Response, unauthorized}

-- `GetUserID`: the empty text where the context holds no user.
unfoldable pub get_user_id : Option String → String
get_user_id none = ""
get_user_id (some v) = v

-- The token service, at the time of the request.
module _ (validate_token : String → Option String) where
  admit : Option String → Response ⊎ Option String
  admit none = inl (unauthorized "AUTH_INVALID" "Token invalide")
  admit (some user_id) = inr (some user_id)

  -- The answer that ends the request, or the context that the next handler gets.
  pub auth : String → Response ⊎ Option String
  unfolding admit
  auth header =
      if str_eq header ""
      then inl (unauthorized "AUTH_REQUIRED" "Token requis")
      else let token = trim_prefix header "Bearer " in
        if str_eq token header
        then inl (unauthorized "AUTH_INVALID" "Format: Bearer <token>")
        else admit (validate_token token)

  -- `OptionalAuth` always calls the next handler: this is the context that it gets.
  pub optional_auth : String → Option String
  optional_auth header =
      let token = trim_prefix header "Bearer " in
      if not (str_eq header "") && not (str_eq token header) then validate_token token else none
