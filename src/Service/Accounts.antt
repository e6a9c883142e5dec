-- ===== src/Service/Accounts.antt =====
-- `Register`, `Login` and `GetUser` of backend/internal/service/auth_service.go. Times are in
-- nanoseconds.
pub mod Login
use geo_note.Common.Int.{ℤ, pos, ◌+ℤ◌, ltb_ℤ}
use geo_note.Common.{ℕ, ◌/◌, String, Bool, Option, none, some, not, if◌then◌else◌}
use geo_note.Model.{User, RegisterRequest, LoginRequest, AuthResponse}
use geo_note.Repository.Query.{
  Error, failed, invalid_credentials, Result, ok, err, Query, pure, raise, ◌>>=◌, attempt,
}
use geo_note.Repository.Users
use geo_note.Service.Auth.{Jwt, generate_token}

-- What the service calls of golang.org/x/crypto/bcrypt: `GenerateFromPassword` under the bytes that
-- it draws, and whether `CompareHashAndPassword` accepts.
pub record Bcrypt : Type 0 where
  pub generate : String → String → Option String
  pub compare_hash : String → String → Bool

abbrev pub or_failed : {A : Type 0} → Option A → Query A
or_failed none = raise failed
or_failed (some a) = pure a

abbrev pub new_user : RegisterRequest → String → User
new_user req hash = record {
  id = "";
  username = req.username;
  email = req.email;
  password_hash = hash;
  created_at = 0;
}

module _ (jwt : Jwt) (bcrypt : Bcrypt) (secret : String) (expiry : ℤ) where
  -- The end of both: a token for the user.
  unfoldable pub signed_in : ℕ → User → Query AuthResponse
  signed_in now u = do
    token ← or_failed (generate_token jwt secret expiry now u.id)
    pure (record { token = token; user = u })

  -- `Register`, with the salt, the id and the time that it is given.
  unfoldable pub register : String → String → ℕ → RegisterRequest → Query AuthResponse
  unfolding signed_in
  register salt new_id now req = do
    hash ← or_failed (bcrypt.generate salt req.password)
    u ← Users.create new_id now (new_user req hash)
    signed_in now u

  -- An error of the query, whatever it is, refuses the login.
  unfoldable pub checked_login : ℕ → String → Result User → Query AuthResponse
  unfolding signed_in
  checked_login now password (err e) = raise invalid_credentials
  checked_login now password (ok u) =
      if not (bcrypt.compare_hash u.password_hash password)
      then raise invalid_credentials
      else signed_in now u

  -- `Login`
  unfoldable pub login : ℕ → LoginRequest → Query AuthResponse
  unfolding checked_login
  login now req = do
    found ← attempt (Users.get_by_email req.email)
    checked_login now req.password found

-- `GetUser`
unfoldable pub get_user : String → Query User
get_user id = Users.get_by_id id
