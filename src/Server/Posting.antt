-- ===== src/Server/Posting.antt =====
-- A post from the socket to the table: what it takes to be answered with 201.
use geo_note.Common.{
  ◌≡◌, refl, ap, ◌≢◌, ◌≤◌, ◌+◌, ℕ, ◌*◌, String, true, false, Option, none, some, [], ◌∷◌, str_eq,
  exists, arith,
}
use geo_note.Common.Int.{pos, ltb_ℤ}
use geo_note.Common.Text.{trim_space}
use geo_note.External.{External}
use geo_note.Http.{Response, write_error}
use geo_note.Middleware.AntiSpam.{anti_spam, LastAction}
use geo_note.Middleware.AntiSpam.Cooldown.{anti_spam_lets_through}
use geo_note.Middleware.Auth.{get_user_id}
use geo_note.Middleware.Auth.Access.{auth_iff}
use geo_note.Middleware.RateLimit.{rate_limit, second, Visitors}
use geo_note.Model.{MessageRow, User, CreateMessageRequest}
use geo_note.Model.Validation.{validate_message}
use geo_note.Repository.Query.{Db}
use geo_note.Repository.Query.Rules.{steady}
use geo_note.Repository.Messages.Writes.{new_row}
use geo_note.Service.Publishing.Success.{create-succeeds}
use geo_note.Service.Publishing.Secrecy.{made}
use geo_note.Service.State.{State}
use geo_note.Handler.Messages
use geo_note.Handler.Replies.{Reply, answer, posted, send}
use geo_note.Server.{
  Config, Draw, Incoming, Server, endpoint, guarded, accessed, routed, serve, validate, request,
  is_posting, let_through, limited,
}
use geo_note.Server.Guards.{Named}
use geo_note.Server.Routes.{required, create, matched, match, find, routes, parameter}
use geo_note.Ws.Hub.Safety.{IsSafe}

-- A request from an address that was not seen lately goes past the rate limit.
rate_limit-new :
    (ip : String) (now : ℕ) (visitors : Visitors)
    → visitors ip ≡ none
    → (rate_limit 10 20 ip now visitors).0 ≡ none
unfolding rate_limit
rate_limit-new ip now visitors e = rw e (ground arith)

post_match : match "POST" ("api" ∷ "v1" ∷ "messages" ∷ []) ≡ matched required create ""
unfolding match find routes parameter
post_match = refl

module _ (x : External) (cfg : Config) (d : Draw) (req : CreateMessageRequest) (u : String)
    (db : Db) where
  abbrev Sent : Reply × State x → Type 0
  Sent (reply, s) =
      (reply ≡ send 201 (posted (made x d.new_id d.now u req db)))
      × (s.conn.db.messages ≡ new_row x.parse_rfc3339 d.new_id d.now u req ∷ db.messages)

  -- The answer 201 with the message, and the rows of the table.
  abbrev Accepted : Reply × Server x → Type 0
  Accepted (reply, s) =
      (reply ≡ send 201 (posted (made x d.new_id d.now u req db)))
      × (s.state.conn.db.messages ≡ new_row x.parse_rfc3339 d.new_id d.now u req ∷ db.messages)

  let_through-Accepted :
      (i : Incoming) (s : Server x) (o : Option Response × LastAction)
      → o.0 ≡ none
      → Sent (endpoint x cfg d create "" (request i u) s.state)
      → Accepted (let_through x cfg d create "" (request i u) o s)
  let_through-Accepted i s (none, last_action) e h = h
  let_through-Accepted i s (some refusal, last_action) e h = absurd (cc)

  limited-Accepted :
      (i : Incoming) (s : Server x) (o : Option Response × Visitors)
      → o.0 ≡ none
      → ((visitors : Visitors)
          → Accepted
              (routed x cfg d i (match i.method i.segments) (record s { visitors = visitors })))
      → Accepted (limited x cfg d i o s)
  limited-Accepted i s (none, visitors) e h = h visitors
  limited-Accepted i s (some refusal, visitors) e h = absurd (cc)

  module _ (valid : validate_message req ≡ []) (filled : str_eq (trim_space req.content) "" ≡ false)
      (small : ltb_ℤ (pos 2147483647) req.mystery_radius ≡ false)
      (known : exists (λ (v : User). str_eq v.id u) db.users ≡ true)
      (fresh : exists (λ (m : MessageRow). str_eq m.id d.new_id) db.messages ≡ false) where
    endpoint-Sent :
        (i : Incoming) (s : State x)
        → x.decode_message i.body ≡ some req
        → s.conn ≡ steady db
        → IsSafe s.hub
        → Sent (endpoint x cfg d create "" (request i u) s)
    unfolding endpoint Messages.create answer
    endpoint-Sent i s decoded answers safe =
        let (went, rows) =
          create-succeeds x d.now u req d.new_id s db answers safe valid filled small known fresh in
        rw (decoded, valid)
          (
            ap
                (answer (λ e. write_error 500 "CREATE_ERROR" "Erreur lors de la creation")
                  (λ m. send 201 (posted m)))
                went,
            rows,
          )

    guarded-Accepted :
        (i : Incoming) (s : Server x)
        → u ≢ ""
        → ((v : ℕ) → s.last_action u ≡ some v → v + 5 * second ≤ d.now)
        → Sent (endpoint x cfg d create "" (request i u) s.state)
        → Accepted (guarded x cfg d create "" (request i u) s)
    unfolding guarded is_posting
    guarded-Accepted i s named idle h =
        let_through-Accepted i s (anti_spam (5 * second) u d.now s.last_action)
          (anti_spam_lets_through (5 * second) u d.now s.last_action named idle).0 h

    -- A post to /api/v1/messages from an address not seen lately, with a token that names a known
    -- user whose last post is five seconds ago at least, and with a body that decodes to a request
    -- that `Validate` lets through, whose content is not blank and whose radius is below 2^31, on a database that answers and
    -- where the new id is new, from a safe hub: it is answered with 201 and the message, and the
    -- table has the new row first and its other rows as they were.
    pub serve-Accepted :
        (i : Incoming) (s : Server x)
        → i.method ≡ "POST"
        → i.segments ≡ "api" ∷ "v1" ∷ "messages" ∷ []
        → s.visitors i.addr ≡ none
        → Named x cfg d i u
        → u ≢ ""
        → ((v : ℕ) → s.last_action u ≡ some v → v + 5 * second ≤ d.now)
        → x.decode_message i.body ≡ some req
        → s.state.conn ≡ steady db
        → IsSafe s.state.hub
        → ((serve x cfg d i s).0 ≡ send 201 (posted (made x d.new_id d.now u req db)))
          × ((serve x cfg d i s).1.state.conn.db.messages
              ≡ new_row x.parse_rfc3339 d.new_id d.now u req ∷ db.messages)
    unfolding serve routed accessed get_user_id
    serve-Accepted i s post path new_addr token named idle decoded answers safe =
        limited-Accepted i s (rate_limit 10 20 i.addr d.now s.visitors)
          (rate_limit-new i.addr d.now s.visitors new_addr)
          (λ visitors.
            rw (post, path, post_match, (auth_iff (validate x cfg d) i.authorization u).1 token)
              (guarded-Accepted i (record s { visitors = visitors }) named idle
                (endpoint-Sent i s.state decoded answers safe)))
