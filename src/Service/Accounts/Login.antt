-- ===== src/Service/Accounts/Login.antt =====
-- Who can log in, and with what error others are refused.
use geo_note.Common.Int.{ℤ, pos, ◌+ℤ◌, ltb_ℤ}
use geo_note.Common.{
  ℕ, ◌≡◌, refl, ap, ◌∙◌, ◌⊎◌, inl, inr, String, Bool, true, false, Option, none, some, List, [],
  ◌∷◌, eq_iff, Bool-cases, Option-cases,
}
use mathlib.Core.Path.{subst}
use geo_note.Model.{User, RegisterRequest, LoginRequest, AuthResponse}
use geo_note.Repository.Query.{
  failed, invalid_credentials, Result, ok, err, Db, Conn, read, attempt,
}
use geo_note.Repository.Query.Rules.{Ensures, bind-Ensures, attempt-read-Ensures, Looked, >>=-ok}
use geo_note.Repository.Users
use geo_note.Repository.Users.{with_email, user_or_error, user_violates, insert_user}
use geo_note.Service.Auth.{Jwt, generate_token, validate_token, unix}
use geo_note.Service.Auth.Tokens.{IsJwt, validate-generate}
use geo_note.Service.Accounts.{Bcrypt, signed_in, new_user, register, checked_login, login}

module _ (jwt : Jwt) (bcrypt : Bcrypt) (secret : String) (expiry : ℤ) where
  -- The password is that of the row.
  abbrev pub accepts : Option User → String → Bool
  accepts none password = false
  accepts (some u) password = bcrypt.compare_hash u.password_hash password

  -- What a login answers: the user that the mail names, with a token of that user.
  abbrev pub LoggedIn : Db → ℕ → LoginRequest → AuthResponse → Type 0
  LoggedIn before now req resp =
      (with_email req.email before ≡ some resp.user)
      × (bcrypt.compare_hash resp.user.password_hash req.password ≡ true)
      × (generate_token jwt secret expiry now resp.user.id ≡ some resp.token)

  signed_in-LoggedIn :
      (now : ℕ) (req : LoginRequest) (u : User) (before : Db) (c : Conn)
      → with_email req.email before ≡ some u
      → bcrypt.compare_hash u.password_hash req.password ≡ true
      → c.db ≡ before
      → Ensures
          (λ resp d. LoggedIn before now req resp × (d ≡ before))
          (signed_in jwt bcrypt secret expiry now u c)
  unfolding signed_in
  signed_in-LoggedIn now req u before c found same e =
      elim (Option-cases (generate_token jwt secret expiry now u.id)) [
        | inl f ↦ rw f tt
        | inr (token, f) ↦ rw f ((found, same, f), e)
      ]

  checked_user-LoggedIn :
      (now : ℕ) (req : LoginRequest) (before : Db) (o : Option User) (c : Conn)
      → c.db ≡ before
      → with_email req.email before ≡ o
      → Ensures
          (λ resp d. LoggedIn before now req resp × (d ≡ before))
          (checked_login jwt bcrypt secret expiry now req.password (user_or_error o) c)
  unfolding checked_login
  checked_user-LoggedIn now req before none c e f = tt
  checked_user-LoggedIn now req before (some u) c e f =
      elim (Bool-cases (bcrypt.compare_hash u.password_hash req.password)) [
        | inl same ↦ rw same (signed_in-LoggedIn now req u before c f same e)
        | inr other ↦ rw other tt
      ]

  checked-LoggedIn :
      (now : ℕ) (req : LoginRequest) (before : Db) (r : Result User) (c : Conn)
      → c.db ≡ before
      → (r ≡ user_or_error (with_email req.email before)) ⊎ (r ≡ err failed)
      → Ensures
          (λ resp d. LoggedIn before now req resp × (d ≡ before))
          (checked_login jwt bcrypt secret expiry now req.password r c)
  checked-LoggedIn now req before r c e (inr f) = rw f (unfold checked_login in tt)
  checked-LoggedIn now req before r c e (inl f) =
      rw f (checked_user-LoggedIn now req before (with_email req.email before) c e refl)

  -- `Login`, whatever statements fail: where it succeeds, the mail is that of the user it answers, the
  -- password is accepted by that user's hash, and the token is one for that user. The database is as
  -- before.
  pub login-LoggedIn :
      (now : ℕ) (req : LoginRequest) (c : Conn)
      → Ensures
          (λ resp d. LoggedIn c.db now req resp × (d ≡ c.db))
          (login jwt bcrypt secret expiry now req c)
  unfolding login Users.get_by_email
  login-LoggedIn now req c =
      let shown : Db → Result User = λ db. user_or_error (with_email req.email db) in
      bind-Ensures (Looked (λ d. d ≡ c.db) shown)
        (λ resp d. LoggedIn c.db now req resp × (d ≡ c.db)) (attempt (read shown))
        (checked_login jwt bcrypt secret expiry now req.password) c
        (attempt-read-Ensures (λ d. d ≡ c.db) shown c refl)
        (λ r c' (e, looked).
          checked-LoggedIn now req c.db r c' e
            (subst (λ d. (r ≡ user_or_error (with_email req.email d)) ⊎ (r ≡ err failed)) e looked))

  refused_split :
      (now : ℕ) (req : LoginRequest) (db : Db) (faults : List Bool)
      → accepts (with_email req.email db) req.password ≡ false
      → (login jwt bcrypt secret expiry now req (record { db = db; faults = faults })).0
        ≡ err invalid_credentials
  unfolding login checked_login Users.get_by_email
  refused_split now req db (true ∷ faults) h = refl
  refused_split now req db [] h = elim (Option-cases (with_email req.email db)) [
    | inl g ↦ rw g refl
    | inr (u, g) ↦ let h' = rw g at h in rw (g, h') refl
  ]
  refused_split now req db (false ∷ faults) h = elim (Option-cases (with_email req.email db)) [
    | inl g ↦ rw g refl
    | inr (u, g) ↦ let h' = rw g at h in rw (g, h') refl
  ]

  -- A mail that no user has, a password that is not the user's and a query that fails are refused
  -- with the same error.
  login_refused :
      (now : ℕ) (req : LoginRequest) (c : Conn)
      → accepts (with_email req.email c.db) req.password ≡ false
      → (login jwt bcrypt secret expiry now req c).0 ≡ err invalid_credentials
  login_refused now req c h = refused_split now req c.db c.faults h

-- What bcrypt documents: a hash accepts the password that it was made from.
abbrev pub IsBcrypt : Bcrypt → Type 0
IsBcrypt bcrypt =
    (salt password hash : String)
    → bcrypt.generate salt password ≡ some hash
    → bcrypt.compare_hash hash password ≡ true

insert_user-fits :
    (u : User) (db : Db)
    → user_violates u db ≡ false
    → insert_user u db ≡ (ok u, record db { users = u ∷ db.users })
unfolding insert_user
insert_user-fits u db h = rw h refl

create-fits :
    (new_id : String) (now : ℕ) (u : User) (db : Db)
    → user_violates (record u { id = new_id; created_at = now }) db ≡ false
    → Users.create new_id now u (record { db = db; faults = [] }) ≡ (
      ok (record u { id = new_id; created_at = now }),
      record {
        db = record db { users = record u { id = new_id; created_at = now } ∷ db.users };
        faults = [];
      },
    )
unfolding Users.create
create-fits new_id now u db h =
    ap {B = Result User × Conn} (λ (p : Result User × Db). (p.0, record { db = p.1; faults = [] }))
      (insert_user-fits (record u { id = new_id; created_at = now }) db h)

module _ (jwt : Jwt) (Verifies : String → jwt.Token → Type 0) (law : IsJwt jwt Verifies)
    (bcrypt : Bcrypt) (hashes : IsBcrypt bcrypt) (secret : String) (expiry : ℤ) where
  -- A user who has registered logs in with the mail and the password, and the token validates as
  -- that user until it expires: on a database that answers, where the new row violates no
  -- constraint, the password can be hashed and the tokens are signed.
  pub login-register :
      (salt new_id hash token token' : String) (now later last : ℕ) (req : RegisterRequest)
      (db : Db)
      → bcrypt.generate salt req.password ≡ some hash
      → user_violates (record (new_user req hash) { id = new_id; created_at = now }) db ≡ false
      → generate_token jwt secret expiry now new_id ≡ some token
      → generate_token jwt secret expiry later new_id ≡ some token'
      → ltb_ℤ (pos last) (unix (pos later +ℤ expiry)) ≡ true
      → let u : User = record (new_user req hash) { id = new_id; created_at = now } in
        let c : Conn = record { db = record db { users = u ∷ db.users }; faults = [] } in
        (register jwt bcrypt secret expiry salt new_id now req (record { db = db; faults = [] })
          ≡ (ok (record { token = token; user = u }), c))
        × (login jwt bcrypt secret expiry later
              (record { email = req.email; password = req.password })
              c
            ≡ (ok (record { token = token'; user = u }), c))
        × (validate_token jwt secret last token' ≡ some new_id)
  unfolding register login checked_login signed_in Users.get_by_email
  login-register salt new_id hash token token' now later last req db hashed fits signed signed' h =
      let u : User = record (new_user req hash) { id = new_id; created_at = now } in
      (
        rw hashed (
            >>=-ok (Users.create new_id now (new_user req hash))
              (signed_in jwt bcrypt secret expiry now) (record { db = db; faults = [] })
              (record { db = record db { users = u ∷ db.users }; faults = [] }) u
              (create-fits new_id now (new_user req hash) db fits)
            ∙ rw signed refl),
        rw ((eq_iff req.email req.email).1 refl, hashes salt req.password hash hashed, signed')
            refl,
        validate-generate jwt Verifies law secret expiry later last new_id token' signed' h,
      )
