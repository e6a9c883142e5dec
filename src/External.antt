-- ===== src/External.antt =====
-- What the backend calls and the repository does not hold: Redis, JSON, PostGIS, the
-- formatting and parsing of numbers and times, Unicode case folding, sorting, and the floating
-- point score of `rankScore`.
use geo_note.Common.{ℕ, String, Bool, Option, List, ◌≡◌, tally}
use geo_note.Common.Int.{ℤ}
use geo_note.Model.{Message, RegisterRequest, LoginRequest, CreateMessageRequest, ReportRequest}

pub record External : Type 1 where
  -- github.com/redis/go-redis: `Get`; `Set`, with whether it failed; `Scan` by a prefix; `Del`.
  pub Store : Type 0
  pub redis_get : Store → String → Option String
  pub redis_set : Store → String → String → Store × Bool
  pub redis_scan : Store → String → List String
  pub redis_del : Store → List String → Store
  -- encoding/json
  pub marshal_messages : List Message → Option String
  pub unmarshal_messages : String → Option (List Message)
  pub marshal_message : Message → Option String
  -- a message of the hub, from its kind and its payload as it is encoded
  pub marshal_event : String → String → Option String
  -- the bodies of requests, `none` where one does not decode: a comment and a reaction by their text,
  -- the position of an unlock by its coordinates
  pub decode_register : String → Option RegisterRequest
  pub decode_login : String → Option LoginRequest
  pub decode_message : String → Option CreateMessageRequest
  pub decode_comment : String → Option String
  pub decode_reaction : String → Option String
  pub decode_report : String → Option ReportRequest
  pub decode_position : String → Option (ℤ × ℤ)
  -- fmt: `%.3f` and `%d`
  pub format_coordinate : ℤ → String
  pub format_int : ℤ → String
  -- PostGIS: whether a point (latitude, longitude) lies in the envelope around the user that the
  -- query `get_nearby_messages` draws for a radius, and `ST_Distance`.
  pub in_envelope : ℤ × ℤ → ℤ → ℤ × ℤ → Bool
  pub st_distance : ℤ × ℤ → ℤ × ℤ → ℕ
  -- `time.Parse(time.RFC3339, …)`
  pub parse_rfc3339 : String → Option ℕ
  -- `strconv.Atoi`, and `strconv.ParseFloat` of a coordinate, whose values stand for 10^-7 degrees where
  -- they are finite, and else for NaN and the infinities, which it accepts as well
  pub parse_int : String → Option ℤ
  pub parse_float : String → Option ℤ
  pub is_finite : ℤ → Bool
  -- PostgreSQL: `ILIKE` of a value and a pattern, and whether a text is sorted before or with another
  pub ilike : String → String → Bool
  pub collates : String → String → Bool
  -- the text of an error that is none of the backend's own
  pub describe_error : String
  -- `strings.ToLower`
  pub to_lower : String → String
  -- `sort.Slice` with a comparison, and `rankScore(a, now) > rankScore(b, now)`.
  pub sort_slice : (Message → Message → Bool) → List Message → List Message
  pub ranks_above : ℕ → Message → Message → Bool

-- `sort.Slice` rearranges: it keeps how many items pass any test.
abbrev pub Rearranges : ((Message → Message → Bool) → List Message → List Message) → Type 0
Rearranges sort =
    (less : Message → Message → Bool) (ms : List Message) (p : Message → Bool)
    → tally p (sort less ms) ≡ tally p ms
