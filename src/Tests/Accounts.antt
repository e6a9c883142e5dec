-- ===== src/Tests/Accounts.antt =====
-- Registration and login, with a hash that is the password itself.
use geo_note.Common.{◌≡◌, refl, String, true, false, some, [], ◌∷◌, str_eq, eq_iff, arith}
use geo_note.Model.{User, RegisterRequest, LoginRequest}
use geo_note.Repository.Query.{ok, Db}
use geo_note.Repository.Query.Rules.{Ensures, steady}
use geo_note.Repository.Messages.Hashtags.{is_word}
use geo_note.Repository.Users.{user_violates}
use geo_note.Service.Accounts.{Bcrypt, register, login}
use geo_note.Service.Accounts.Login.{LoggedIn, login-LoggedIn, login-register}
use geo_note.Service.Auth.{validate_token, generate_token, unix}
use geo_note.Common.Int.{pos, ◌+ℤ◌}
use geo_note.Tests.Data.{two_users}
use geo_note.Tests.Tokens.{one_token, Verified, one_token-IsJwt}

abbrev pub plain_hash : Bcrypt
plain_hash = record { generate = λ salt p. some p; compare_hash = str_eq }

plain_hash-IsBcrypt :
    (salt password hash : String) → some password ≡ some hash → str_eq hash password ≡ true
plain_hash-IsBcrypt salt password hash h = ground (arith, eq_iff hash password, h)

abbrev alice : User
alice = record {
  id = "alice";
  username = "alice";
  email = "alice@geonote.app";
  password_hash = "opensesame";
  created_at = 40000000000;
}

abbrev no_users : Db
no_users = record two_users { users = []; messages = [] }

abbrev joined : Db
joined = record no_users { users = alice ∷ [] }

abbrev good : LoginRequest
good = record { email = "alice@geonote.app"; password = "opensesame" }

abbrev bad : LoginRequest
bad = record { email = "alice@geonote.app"; password = "sesame" }

login-LoggedIn_example :
    Ensures
      (λ resp d.
        LoggedIn one_token plain_hash "key" (pos 60000000000) joined 40000000000 good resp
        × (d ≡ joined))
      (login one_token plain_hash "key" (pos 60000000000) 40000000000 good (steady joined))
login-LoggedIn_example =
    login-LoggedIn one_token plain_hash "key" (pos 60000000000) 40000000000 good (steady joined)

abbrev joining : RegisterRequest
joining = record { username = "alice"; email = "alice@geonote.app"; password = "opensesame" }

fits : user_violates alice no_users ≡ false
unfolding user_violates is_word
fits = refl

signed : generate_token one_token "key" (pos 60000000000) 40000000000 "alice" ≡ some "tok"
unfolding generate_token ◌+ℤ◌ unix
signed = refl

login-register_example :
    (register one_token plain_hash "key"
        (pos 60000000000)
        "salt"
        "alice"
        40000000000
        joining
        (steady no_users)
      ≡ (ok (record { token = "tok"; user = alice }), steady joined))
    × (login one_token plain_hash "key" (pos 60000000000) 40000000000 good (steady joined)
        ≡ (ok (record { token = "tok"; user = alice }), steady joined))
    × (validate_token one_token "key" 50 "tok" ≡ some "alice")
unfolding ◌+ℤ◌ unix
login-register_example =
    login-register one_token Verified one_token-IsJwt plain_hash plain_hash-IsBcrypt "key"
      (pos 60000000000) "salt" "alice" "opensesame" "tok" "tok" 40000000000 40000000000 50 joining
      no_users refl fits signed signed refl
