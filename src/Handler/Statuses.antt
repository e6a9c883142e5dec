-- ===== src/Handler/Statuses.antt =====
-- The shape of an answer.
use geo_note.Common.{
  ◌≡◌, refl, ℕ, String, Bool, true, false, Option, none, some, List, [], ◌∷◌, exists, ltb, ◌==◌,
  if◌then◌else◌,
}
use geo_note.External.{External}
use geo_note.Http.{Response, write_error, write_json, write_validation_error}
use geo_note.Repository.Query.{
  Error, not_found, no_rows, invalid_credentials, panicked, failed, Result, ok, err,
}
use geo_note.Service.State.{State}
use geo_note.Handler.Replies.{
  Reply, Body, Handler, send, refuse, answer, or_missing, server_error, validated, checked,
}

abbrev pub statuses : List ℕ
statuses = 200 ∷ 201 ∷ 400 ∷ 401 ∷ 404 ∷ 405 ∷ 409 ∷ 429 ∷ 500 ∷ 503 ∷ []

abbrev pub has_data : Option Body → Bool
has_data none = false
has_data (some b) = true

-- The status is one of ten; a status below 400 comes with `success` and with data, and one from 400
-- on with neither.
unfoldable pub IsHonest : Reply → Type 0
IsHonest r =
    (exists (λ n. n == r.response.status) statuses ≡ true)
    × (r.response.success ≡ ltb r.response.status 400)
    × (has_data r.payload ≡ r.response.success)

abbrev pub Refuses : Response → Type 0
Refuses r = IsHonest (refuse r)

pub error-Refuses :
    (status : ℕ) (code message : String)
    → exists (λ n. n == status) statuses ≡ true
    → ltb status 400 ≡ false
    → Refuses (write_error status code message)
unfolding IsHonest write_error
error-Refuses status code message known high = (known, rw high, refl)

pub fields-Refuses : (fields : List (String × String)) → Refuses (write_validation_error fields)
unfolding IsHonest write_validation_error
fields-Refuses fields = (refl, refl, refl)

pub send-IsHonest :
    (status : ℕ) (b : Body)
    → exists (λ n. n == status) statuses ≡ true
    → ltb status 400 ≡ true
    → IsHonest (send status b)
unfolding IsHonest write_json
send-IsHonest status b known low = (known, rw low, refl)

pub answer-IsHonest :
    {A : Type 0} (on_error : Error → Response) (on_ok : A → Reply) (r : Result A)
    → ((e : Error) → Refuses (on_error e))
    → ((a : A) → IsHonest (on_ok a))
    → IsHonest (answer on_error on_ok r)
unfolding IsHonest answer
answer-IsHonest on_error on_ok (ok a) h k = k a
answer-IsHonest on_error on_ok (err panicked) h k = (refl, refl, refl)
answer-IsHonest on_error on_ok (err not_found) h k = h not_found
answer-IsHonest on_error on_ok (err no_rows) h k = h no_rows
answer-IsHonest on_error on_ok (err invalid_credentials) h k = h invalid_credentials
answer-IsHonest on_error on_ok (err failed) h k = h failed

pub server_error-Refuses : (code : String) (e : Error) → Refuses (server_error code e)
unfolding server_error
server_error-Refuses code e = error-Refuses 500 code "Erreur serveur" refl refl

or_missing-Refuses :
    (missing other : Response) (e : Error)
    → Refuses missing
    → Refuses other
    → Refuses (or_missing missing other e)
unfolding or_missing
or_missing-Refuses missing other not_found h k = h
or_missing-Refuses missing other no_rows h k = k
or_missing-Refuses missing other invalid_credentials h k = k
or_missing-Refuses missing other panicked h k = k
or_missing-Refuses missing other failed h k = k

-- A service call whose errors are all a 500, and whose success is a 200 or a 201.
pub served :
    {A : Type 0} (code : String) (status : ℕ) (body : A → Body) (r : Result A)
    → exists (λ n. n == status) statuses ≡ true
    → ltb status 400 ≡ true
    → IsHonest (answer (server_error code) (λ a. send status (body a)) r)
served code status body r known low =
    answer-IsHonest (server_error code) (λ a. send status (body a)) r (server_error-Refuses code)
      (λ a. send-IsHonest status (body a) known low)

-- The same where a missing row is a 404.
pub removed :
    {A : Type 0} (text code : String) (body : A → Body) (r : Result A)
    → IsHonest (
        answer
          (or_missing (write_error 404 "NOT_FOUND" text) (write_error 500 code "Erreur serveur"))
          (λ a. send 200 (body a))
          r)
removed text code body r =
    answer-IsHonest
      (or_missing (write_error 404 "NOT_FOUND" text) (write_error 500 code "Erreur serveur"))
      (λ a. send 200 (body a)) r
      (λ e.
        or_missing-Refuses (write_error 404 "NOT_FOUND" text)
          (write_error 500 code "Erreur serveur") e (error-Refuses 404 "NOT_FOUND" text refl refl)
          (error-Refuses 500 code "Erreur serveur" refl refl))
      (λ a. send-IsHonest 200 (body a) refl refl)

module _ {x : External} where
  abbrev pub Answers : Handler x → Type 0
  Answers h = (s : State x) → IsHonest (h s).0

  pub checked-Answers :
      (errors : List (String × String)) (h : Handler x) → Answers h → Answers (checked x errors h)
  checked-Answers [] h w = w
  checked-Answers (e ∷ errors) h w = λ s. fields-Refuses (e ∷ errors)

  pub validated-Answers :
      {A : Type 0} (o : Option A) (validate : A → List (String × String)) (next : A → Handler x)
      → ((a : A) → Answers (next a))
      → Answers (validated x o validate next)
  validated-Answers none validate next w =
      λ s. error-Refuses 400 "INVALID_JSON" "JSON invalide" refl refl
  validated-Answers (some a) validate next w = checked-Answers (validate a) (next a) (w a)

  pub if-IsHonest :
      (b : Bool) (u v : Reply × State x)
      → IsHonest u.0
      → IsHonest v.0
      → IsHonest (if b then u else v).0
  if-IsHonest true u v h k = h
  if-IsHonest false u v h k = k
