-- ===== src/Tests/Requests.antt =====
-- Requests to the server with the small database, where the token "tok" names alice.
use Prim.Native.String
use text.Mathlib.TextLemmas.{length-append}
use geo_note.Common.{ap, ◌≡◌, ◌≢◌, refl, String, none, [], ◌∷◌, false, ◌&&◌, str_eq, arith}
use geo_note.Common.Text.{bytes, trim_space}
use geo_note.Repository.Query.Frames.{OnlyUsers}
use geo_note.Model.Validation.{validate_message}
use geo_note.Server.{Config, Draw, Incoming, Server, serve}
use geo_note.Server.Anonymous.{serve-get, serve-anonymous}
use geo_note.Server.Guards.{Named, Reached, serve-Reached}
use geo_note.Server.Posting.{serve-Accepted}
use geo_note.Handler.Replies.{posted, send}
use geo_note.Repository.Messages.Writes.{new_row}
use geo_note.Service.Publishing.Secrecy.{made}
use geo_note.Handler.Statuses.{IsHonest}
use geo_note.Server.Routes.{match}
use geo_note.Server.Statuses.{serve-IsHonest}
use geo_note.Ws.Hub.{new_hub}
use geo_note.Ws.Hub.Safety.{new_hub-IsSafe, serve_ws-IsSafe}
use geo_note.Common.Int.{pos}
use geo_note.Tests.Accounts.{plain_hash}
use geo_note.Tests.Data.{plain, two_users, hello}
use geo_note.Tests.Posts.{quiet}
use geo_note.Tests.Tokens.{one_token, alice_validates}

abbrev pub wiring : Config
wiring = record {
  jwt = one_token;
  bcrypt = plain_hash;
  secret = "key";
  expiry = pos 60000000000;
  conflicts = λ r s. str_eq r.message_id s.message_id && str_eq r.reporter_id s.reporter_id;
}

abbrev pub drawn : Draw
drawn = record { now = 50000000000; new_id = "m2"; salt = "salt" }

abbrev pub fresh_server : Server plain
fresh_server = record { state = quiet; visitors = λ ip. none; last_action = λ u. none }

abbrev pub posting : Incoming
posting = record {
  method = "POST";
  segments = "api" ∷ "v1" ∷ "messages" ∷ [];
  addr = "10.0.0.1:5000";
  authorization = "Bearer tok";
  query = λ key. "";
  body = "{}";
}

abbrev stranger : Incoming
stranger = record posting { authorization = "" }

abbrev pub reading : Incoming
reading = record posting { method = "GET"; segments = "api" ∷ "v1" ∷ "messages" ∷ "nearby" ∷ [] }

pub by_alice : Named plain wiring drawn posting "alice"
by_alice = ("tok", refl, alice_validates)

by_nobody : (u : String) → ¬ Named plain wiring drawn stranger u
by_nobody u (token, e, valid) = omega (arith, ap String.count e, length-append "Bearer " token)

serve-Reached_example :
    Reached plain wiring drawn posting
      (match posting.method posting.segments)
      quiet
      (serve plain wiring drawn posting fresh_server).1.state
serve-Reached_example = serve-Reached plain wiring drawn posting fresh_server

serve-get_example : (serve plain wiring drawn reading fresh_server).1.state.conn.db ≡ two_users
serve-get_example = serve-get plain wiring drawn reading fresh_server refl

serve-anonymous_example :
    OnlyUsers two_users (serve plain wiring drawn stranger fresh_server).1.state.conn.db
serve-anonymous_example = serve-anonymous plain wiring drawn stranger fresh_server by_nobody

hello_valid : validate_message hello ≡ []
unfolding validate_message bytes
hello_valid = refl

hello_filled : str_eq (trim_space hello.content) "" ≡ false
unfolding trim_space
hello_filled = refl

alice_named : ◌≢◌ {A = String} "alice" ""
alice_named e = omega (arith, ap String.count e)

serve-Accepted_example :
    ((serve plain wiring drawn posting fresh_server).0
      ≡ send 201 (posted (made plain "m2" 50000000000 "alice" hello two_users)))
    × ((serve plain wiring drawn posting fresh_server).1.state.conn.db.messages
        ≡ new_row plain.parse_rfc3339 "m2" 50000000000 "alice" hello ∷ two_users.messages)
serve-Accepted_example =
    serve-Accepted plain wiring drawn hello "alice" two_users hello_valid hello_filled refl refl
      refl posting fresh_server refl refl refl by_alice alice_named (λ v h. absurd (cc)) refl refl
      (serve_ws-IsSafe new_hub new_hub-IsSafe)

serve-IsHonest_example : IsHonest (serve plain wiring drawn posting fresh_server).0
serve-IsHonest_example = serve-IsHonest plain wiring drawn posting fresh_server (λ u. refl)
