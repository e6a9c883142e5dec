-- ===== src/Handler/Replies.antt =====
-- What the handlers share: the request, the answer with its data, and the functions `parseFloat`,
-- `parseInt` and the checks that each body goes through (backend/internal/handler/helpers.go and
-- message_handler.go).
use geo_note.Common.{
  ℕ, String, Bool, true, false, ◌&&◌, Option, none, some, List, [], ◌∷◌, if◌then◌else◌,
}
use geo_note.Common.Int.{ℤ, pos, leb_ℤ, ltb_ℤ}
use geo_note.External.{External}
use geo_note.Http.{Response, write_json, write_error, write_validation_error}
use geo_note.Model.{
  Message, User, AuthResponse, LikeResponse, Interaction, ReactionResponse, UserStreak, Badge,
  HeatmapPoint, LeaderboardEntry, HashtagResult, SearchResult,
}
use geo_note.Repository.Interactions.Comments.{Comment}
use geo_note.Repository.Messages.Events.{Event}
use geo_note.Repository.Query.{
  Error, not_found, no_rows, invalid_credentials, panicked, failed, Result, ok, err,
}
use geo_note.Service.State.{State}

-- The data of a success. A list goes out with its length.
pub data Body : Type 0 where
  session : AuthResponse → Body
  account : User → Body
  posted : Message → Body
  nearby : List Message → ℕ → ℤ × ℤ → ℤ → Body
  messages : List Message → ℕ → Body
  opened : Message → Bool → Body
  points : List HeatmapPoint → ℕ → Body
  leaderboard : List LeaderboardEntry → ℕ → Body
  events : List Event → ℕ → Body
  liked : LikeResponse → Body
  comments : List Comment → ℕ → Body
  commented : Interaction → Body
  reacted : ReactionResponse → Body
  profile : UserStreak → List Badge → Body
  found : SearchResult → Body
  hashtags : List HashtagResult → ℕ → Body
  note : String → Body

pub record Reply : Type 0 where
  pub response : Response
  pub payload : Option Body

-- The parts of a request that handlers read: the query, the body, and the user of its context.
pub record Request : Type 0 where
  pub query : String → String
  pub body : String
  pub user_id : String

abbrev pub send : ℕ → Body → Reply
send status b = record { response = write_json status; payload = some b }

abbrev pub refuse : Response → Reply
refuse r = record { response = r; payload = none }

-- `WriteJSON` of data that encodes or not: the status is written first, and the error of `Encode` is
-- dropped, so that a status goes out without a body.
unfoldable pub send_encoded : Bool → ℕ → Body → Reply
send_encoded true status b = send status b
send_encoded false status b = refuse (record { status = status; success = false; error = none })

-- What `Recoverer` answers for a handler that panics: a status without a body.
abbrev pub recovered : Reply
recovered = refuse (record { status = 500; success = false; error = none })

-- `if err != nil` and the success. A panic is no error value and reaches `Recoverer`.
unfoldable pub answer : {A : Type 0} → (Error → Response) → (A → Reply) → Result A → Reply
answer on_error on_ok (ok a) = on_ok a
answer on_error on_ok (err panicked) = recovered
answer on_error on_ok (err not_found) = refuse (on_error not_found)
answer on_error on_ok (err no_rows) = refuse (on_error no_rows)
answer on_error on_ok (err invalid_credentials) = refuse (on_error invalid_credentials)
answer on_error on_ok (err failed) = refuse (on_error failed)

-- `errors.Is(err, repository.ErrNotFound)`
unfoldable pub or_missing : Response → Response → Error → Response
or_missing missing other not_found = missing
or_missing missing other no_rows = other
or_missing missing other invalid_credentials = other
or_missing missing other panicked = other
or_missing missing other failed = other

unfoldable pub server_error : String → Error → Response
server_error code e = write_error 500 code "Erreur serveur"

module _ (x : External) where
  abbrev pub Handler : Type 0
  Handler = State x → Reply × State x

  -- The answer to the result of a service call.
  abbrev pub replied :
      {A : Type 0} → (Error → Response) → (A → Reply) → Result A × State x → Reply × State x
  replied on_error on_ok (r, s) = (answer on_error on_ok r, s)

  abbrev pub checked : List (String × String) → Handler → Handler
  checked [] next s = next s
  checked (e ∷ es) next s = (refuse (write_validation_error (e ∷ es)), s)

  -- `DecodeJSON` and `Validate`, before the service is called.
  abbrev pub validated :
      {A : Type 0} → Option A → (A → List (String × String)) → (A → Handler) → Handler
  validated none validate next s = (refuse (write_error 400 "INVALID_JSON" "JSON invalide"), s)
  validated (some a) validate next s = checked (validate a) (next a) s

  abbrev or_fallback : ℤ → Option ℤ → ℤ
  or_fallback fallback none = fallback
  or_fallback fallback (some v) = v

  -- `parseFloat`
  unfoldable pub parse_float : Request → String → ℤ → ℤ
  parse_float r key fallback = or_fallback fallback (x.parse_float (r.query key))

  abbrev or_positive : ℤ → Option ℤ → ℤ
  or_positive fallback none = fallback
  or_positive fallback (some v) = if leb_ℤ v (pos 0) then fallback else v

  -- `parseInt`
  unfoldable pub parse_int : Request → String → ℤ → ℤ
  parse_int r key fallback = or_positive fallback (x.parse_int (r.query key))

  -- `parseInt` with the cap that handlers put on it.
  unfoldable pub capped_int : Request → String → ℤ → ℤ → ℤ
  capped_int r key fallback cap = let v = parse_int r key fallback in if ltb_ℤ cap v then cap else v

  -- The coordinates of a request, the centre of Paris where there are none.
  unfoldable pub latitude_of : Request → ℤ
  latitude_of r = parse_float r "lat" (pos 488566000)

  unfoldable pub longitude_of : Request → ℤ
  longitude_of r = parse_float r "lng" (pos 23522000)

  -- JSON has no number for NaN and the infinities.
  abbrev pub encodes : ℤ × ℤ → Bool
  encodes (latitude, longitude) = x.is_finite latitude && x.is_finite longitude
