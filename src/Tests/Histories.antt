-- ===== src/Tests/Histories.antt =====
-- A history with a post of alice, a socket and a cleanup.
use Prim.Native.String
use geo_note.Common.{ap, ◌≡◌, ◌≢◌, sym, ◌∙◌, String, true, [], ◌∷◌, arith}
use geo_note.Middleware.Auth.Access.{auth_iff}
use geo_note.Model.{User}
use geo_note.Repository.Authorship.{written_by}
use geo_note.Repository.Growth.{Grown}
use geo_note.Repository.Query.Rules.{steady}
use geo_note.Repository.Query.{Db}
use geo_note.Repository.Soundness.{IsSound}
use geo_note.Repository.Soundness.Whole.{new_db, new_db-IsSound}
use geo_note.Repository.Interleaving.{
  Writes, none_yet, and_then, counts_post, registers, Writes-IsSound,
}
use geo_note.Repository.Gamification.{post_row}
use geo_note.Repository.Users.{insert_user}
use geo_note.Server.{Server, serve, serve_socket, validate}
use geo_note.Server.Guards.{Named}
use geo_note.Server.Histories.{
  answers, joins, Reach, here, next, Reach-IsSound, Reach-Grown, Reach-written,
}
use geo_note.Ws.Hub.{new_hub}
use geo_note.Ws.Hub.Safety.{IsSafe, new_hub-IsSafe, serve_ws-IsSafe}
use geo_note.Tests.Data.{plain, two_users, any_report}
use geo_note.Tests.Requests.{wiring, drawn, fresh_server, posting, reading, by_alice}

abbrev alice : User
alice = record {
  id = "alice";
  username = "alice";
  email = "alice@example.org";
  password_hash = "";
  created_at = 0;
}

abbrev one_user : Db
one_user = record (new_db any_report) { users = alice ∷ [] }

one_user-IsSound : IsSound one_user
one_user-IsSound = record {
  accounts = record {
    one_id = λ k. ground arith;
    one_name = λ k. ground arith;
    one_mail = λ k. ground arith;
  };
  authored = record { one_id = λ k. omega arith; author = tt };
  interacted = record {
    one_like = λ m u. omega arith;
    one_id = λ k. omega arith;
    counted = tt;
    refers = tt;
  };
  reacted = record { one_each = λ m u e. omega arith; one_id = λ k. omega arith; refers = tt };
  unlocked = record { one_each = λ m u. omega arith; refers = tt; counted = tt };
  profiled = record { one_streak = λ u. omega arith; one_badge = λ u b. omega arith };
  registered = record {
    by_interaction = tt;
    by_unlock = tt;
    by_reaction = tt;
    by_streak = tt;
    by_badge = tt;
  };
}

abbrev started : Server plain
started = record fresh_server { state = record fresh_server.state { conn = steady one_user } }

abbrev posted : Server plain
posted = (serve plain wiring drawn posting started).1

abbrev connected : Server plain
connected = (serve_socket plain wiring drawn true reading posted).1

-- Anyone may act.
a_day : Reach plain wiring (λ u. Unit) started connected
a_day =
    next (next here (answers drawn posting started (λ u named. tt)))
      (joins drawn true reading posted)

Reach-IsSound_example : IsSound connected.state.conn.db × IsSafe connected.state.hub
Reach-IsSound_example =
    Reach-IsSound plain wiring (λ u. Unit) a_day one_user-IsSound
      (serve_ws-IsSafe new_hub new_hub-IsSafe)

Reach-Grown_example : Grown one_user connected.state.conn.db
Reach-Grown_example = Reach-Grown plain wiring (λ u. Unit) a_day

only_alice : (u : String) → Named plain wiring drawn posting u → u ≡ "alice"
only_alice u named =
    let e = (auth_iff (validate plain wiring drawn) posting.authorization u).1 named in
    let k = (auth_iff (validate plain wiring drawn) posting.authorization "alice").1 by_alice in cc

abbrev later : Server plain
later = (serve plain wiring drawn posting fresh_server).1

-- Only alice acts.
her_post : Reach plain wiring (λ u. u ≡ "alice") fresh_server later
her_post = next here (answers drawn posting fresh_server only_alice)

not_bob : (u : String) → u ≡ "alice" → ◌≢◌ {A = String} u "bob"
not_bob u e k = omega (arith, ap String.count (sym e ∙ k))

Reach-written_example :
    written_by "bob" later.state.conn.db.messages ≡ written_by "bob" two_users.messages
Reach-written_example = Reach-written plain wiring (λ u. u ≡ "alice") "bob" not_bob her_post

-- A registration of one request between two statements of another.
mixed : Writes (new_db any_report) (insert_user alice (post_row "alice" 3 (new_db any_report)).1).1
mixed =
    and_then "bob" (and_then "alice" none_yet (counts_post 3 (new_db any_report)))
      (registers alice (post_row "alice" 3 (new_db any_report)).1)

Writes-IsSound_example : IsSound (insert_user alice (post_row "alice" 3 (new_db any_report)).1).1
Writes-IsSound_example = Writes-IsSound mixed (new_db-IsSound any_report)
