-- ===== src/Server.antt =====
-- The server of backend/cmd/server/main.go: the routes, with the middlewares that guard them, over the
-- state that requests share. A request is one step. The global middlewares of chi and cors, and the
-- two that the package does not declare, stand outside: the address is the one that `RealIP` leaves,
-- and a preflight of CORS is no request here. A path is given by its segments.
pub mod Routes
pub mod Guards
pub mod Readers
pub mod Feeds
pub mod Within
pub mod Effects
pub mod Writers
pub mod Requests
pub mod Hubs
pub mod Histories
pub mod Anonymous
pub mod Posting
pub mod Statuses
use geo_note.Common.Int.{ℤ, pos, ◌+ℤ◌, ltb_ℤ}
use geo_note.Common.{
  ℕ, ◌*◌, ◌/◌, String, Bool, true, false, Option, none, some, List, [], ◌∷◌, ◌⊎◌, inl, inr, str_eq,
  if◌then◌else◌,
}
use geo_note.External.{External}
use geo_note.Http.{Response}
use geo_note.Middleware.RateLimit.{Visitors, rate_limit, second}
use geo_note.Middleware.AntiSpam.{LastAction, anti_spam}
use geo_note.Middleware.Auth.{auth, optional_auth, get_user_id}
use geo_note.Model.{Report}
use geo_note.Service.Accounts.{Bcrypt}
use geo_note.Service.Auth.{Jwt, validate_token}
use geo_note.Service.State.{State}
use geo_note.Ws.Hub.{serve_ws}
use geo_note.Handler.Replies.{Reply, Request, Handler, refuse}
use geo_note.Handler.Accounts
use geo_note.Handler.Messages
use geo_note.Handler.Interactions
use geo_note.Handler.Search
use Routes.{
  Access, public, optional, required, Endpoint, Route, health, register, login, nearby, heatmap,
  leaderboard, events, search, popular, user_messages, user_profile, me, my_profile, create, delete,
  unlock, like, react, add_comment, report, delete_comment, get_comments, Match, matched,
  wrong_method, unknown, match,
}

-- What `main` wires in, with the conflicts that the table of reports knows.
pub record Config : Type 1 where
  pub jwt : Jwt
  pub bcrypt : Bcrypt
  pub secret : String
  pub expiry : ℤ
  pub conflicts : Report → Report → Bool

-- What a request draws: the time, the id of a new row and the bytes of a hash.
pub record Draw : Type 0 where
  pub now : ℕ
  pub new_id : String
  pub salt : String

pub record Incoming : Type 0 where
  pub method : String
  pub segments : List String
  pub addr : String
  pub authorization : String
  pub query : String → String
  pub body : String

pub record Server (x : External) : Type 0 where
  pub state : State x
  pub visitors : Visitors
  pub last_action : LastAction

unfoldable pub is_posting : Endpoint → Bool
is_posting create = true
is_posting _ = false

abbrev pub request : Incoming → String → Request
request i user_id = record { query = i.query; body = i.body; user_id = user_id }

module _ (x : External) (cfg : Config) (d : Draw) where
  -- The handler of each route; `id` is its URL parameter.
  unfoldable pub endpoint : Endpoint → String → Request → Handler x
  endpoint health id r = Accounts.health_check x
  endpoint register id r =
      Accounts.register x cfg.jwt cfg.bcrypt cfg.secret cfg.expiry d.salt d.new_id d.now r
  endpoint login id r = Accounts.login x cfg.jwt cfg.bcrypt cfg.secret cfg.expiry d.now r
  endpoint nearby id r = Messages.get_nearby x d.now r
  endpoint heatmap id r = Messages.get_heatmap x d.now r
  endpoint leaderboard id r = Messages.get_leaderboard x d.now r
  endpoint events id r = Messages.detect_events x d.now r
  endpoint search id r = Search.search x d.now r
  endpoint popular id r = Search.popular_hashtags x d.now r
  endpoint user_messages id r = Messages.get_by_user x id
  endpoint user_profile id r = Accounts.get_user_profile x id
  endpoint me id r = Accounts.me x r
  endpoint my_profile id r = Accounts.get_my_profile x r
  endpoint create id r = Messages.create x d.new_id d.now r
  endpoint delete id r = Messages.delete x id r
  endpoint unlock id r = Messages.unlock_mystery x d.now id r
  endpoint like id r = Interactions.toggle_like x d.new_id d.now id r
  endpoint react id r = Interactions.toggle_reaction x d.new_id id r
  endpoint add_comment id r = Interactions.add_comment x d.new_id d.now id r
  endpoint report id r = Interactions.report_message x cfg.conflicts id r
  endpoint delete_comment id r = Interactions.delete_comment x id r
  endpoint get_comments id r = Interactions.get_comments x id

  abbrev pub handled : Server x → Reply × State x → Reply × Server x
  handled s (reply, state) = (reply, record s { state = state })

  abbrev pub let_through :
      Endpoint → String → Request → Option Response × LastAction → Server x → Reply × Server x
  let_through e id r (some refusal, last_action) s =
      (refuse refusal, record s { last_action = last_action })
  let_through e id r (none, last_action) s =
      handled (record s { last_action = last_action }) (endpoint e id r s.state)

  -- `AntiSpam(5 * time.Second)` stands before `Create` only.
  unfoldable pub guarded : Endpoint → String → Request → Server x → Reply × Server x
  guarded e id r s =
      if is_posting e
      then let_through e id r (anti_spam (5 * second) r.user_id d.now s.last_action) s
      else handled s (endpoint e id r s.state)

  abbrev pub validate : String → Option String
  validate = validate_token cfg.jwt cfg.secret (d.now / second)

  abbrev pub admitted :
      Endpoint → String → Incoming → Response ⊎ Option String → Server x → Reply × Server x
  admitted e id i (inl refusal) s = (refuse refusal, s)
  admitted e id i (inr context) s = guarded e id (request i (get_user_id context)) s

  -- The group of a route puts its authentication before the handler.
  unfoldable pub accessed : Access → Endpoint → String → Incoming → Server x → Reply × Server x
  accessed public e id i s = guarded e id (request i "") s
  accessed optional e id i s =
      guarded e id (request i (get_user_id (optional_auth validate i.authorization))) s
  accessed required e id i s = admitted e id i (auth validate i.authorization) s

  abbrev bare : ℕ → Reply
  bare status = refuse (record { status = status; success = false; error = none })

  unfoldable pub routed : Incoming → Match → Server x → Reply × Server x
  routed i (matched access e id) s = accessed access e id i s
  routed i wrong_method s = (bare 405, s)
  routed i unknown s = (bare 404, s)

  abbrev pub limited : Incoming → Option Response × Visitors → Server x → Reply × Server x
  limited i (some refusal, visitors) s = (refuse refusal, record s { visitors = visitors })
  limited i (none, visitors) s =
      routed i (match i.method i.segments) (record s { visitors = visitors })

  abbrev or_nobody : Option String → String
  or_nobody none = ""
  or_nobody (some u) = u

  -- The user of a connection, from the token of its query.
  socket_user : String → String
  socket_user token = if str_eq token "" then "" else or_nobody (validate token)

  abbrev joined : Bool → State x → State x
  joined upgraded state = if upgraded then record state { hub = serve_ws state.hub } else state

  abbrev pub upgraded_after : Bool → Option Response × Visitors → Server x → Option Reply × Server x
  upgraded_after upgraded (some refusal, visitors) s =
      (some (refuse refusal), record s { visitors = visitors })
  upgraded_after upgraded (none, visitors) s =
      (none, record s { visitors = visitors; state = joined upgraded s.state })

  -- GET /ws, behind the rate limit; where it is let through, the upgrade takes the connection over, if it
  -- succeeds. `ServeWS` has no use for the user.
  pub serve_socket : Bool → Incoming → Server x → Option Reply × Server x
  serve_socket upgraded i s = upgraded_after upgraded (rate_limit 10 20 i.addr d.now s.visitors) s

  -- A request, from `RateLimit(10, 20)` on.
  unfoldable pub serve : Incoming → Server x → Reply × Server x
  serve i s = limited i (rate_limit 10 20 i.addr d.now s.visitors) s
