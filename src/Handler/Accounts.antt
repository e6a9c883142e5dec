-- ===== src/Handler/Accounts.antt =====
-- backend/internal/handler/auth_handler.go, gamification_handler.go and health.go.
use geo_note.Common.Int.{ℤ}
use geo_note.Common.{ℕ, String}
use geo_note.External.{External}
use geo_note.Http.{write_error}
use geo_note.Model.Validation.{validate_register, validate_login}
use geo_note.Repository.Query.{
  Error, not_found, no_rows, invalid_credentials, panicked, failed, begin,
}
use geo_note.Service.Accounts as Auth
use geo_note.Service.Accounts.{Bcrypt}
use geo_note.Service.Auth.{Jwt}
use geo_note.Service.Interactions as Service
use geo_note.Service.State.{on_db}
use geo_note.Handler.Replies.{
  Request, Handler, send, validated, replied, server_error, session, account, profile, note,
}

module _ (x : External) where
  -- `err.Error()`
  unfoldable pub error_text : Error → String
  error_text not_found = "resource not found"
  error_text no_rows = x.describe_error
  error_text invalid_credentials = "identifiants invalides"
  error_text panicked = x.describe_error
  error_text failed = x.describe_error

  module _ (jwt : Jwt) (bcrypt : Bcrypt) (secret : String) (expiry : ℤ) where
    -- `Register`
    unfoldable pub register : String → String → ℕ → Request → Handler x
    register salt new_id now r = validated x (x.decode_register r.body) validate_register λ req s.
        replied x (λ e. write_error 409 "REGISTER_FAILED" (error_text e))
          (λ resp. send 201 (session resp))
          (on_db x (Auth.register jwt bcrypt secret expiry salt new_id now req) s)

    -- `Login`
    unfoldable pub login : ℕ → Request → Handler x
    login now r = validated x (x.decode_login r.body) validate_login λ req s.
        replied x (λ e. write_error 401 "LOGIN_FAILED" (error_text e))
          (λ resp. send 200 (session resp))
          (on_db x (Auth.login jwt bcrypt secret expiry now req) s)

  -- `Me`
  unfoldable pub me : Request → Handler x
  me r s =
      replied x (λ e. write_error 404 "USER_NOT_FOUND" "Utilisateur introuvable")
        (λ user. send 200 (account user)) (on_db x (Auth.get_user r.user_id) s)

  -- `GetUserProfile`
  unfoldable pub get_user_profile : String → Handler x
  get_user_profile user_id s =
      replied x (server_error "PROFILE_ERROR")
        (λ (streak, badges). send 200 (profile streak badges))
        (on_db x (Service.get_profile user_id) s)

  -- `GetMyProfile`
  unfoldable pub get_my_profile : Request → Handler x
  get_my_profile r s =
      replied x (server_error "PROFILE_ERROR")
        (λ (streak, badges). send 200 (profile streak badges))
        (on_db x (Service.get_profile r.user_id) s)

  -- `HealthCheck`: `Ping` is a statement that looks at no table.
  unfoldable pub health_check : Handler x
  health_check s =
      replied x (λ e. write_error 503 "DB_DOWN" "Base de donnees inaccessible")
        (λ _. send 200 (note "ok")) (on_db x begin s)
