-- ===== src/Server/Hubs.antt =====
-- What the handlers do to the hub: only a post touches it, and leaves it safe.
use geo_note.Common.{
  inl, inr, String, Bool, true, false, Option, none, some, List, [], ◌∷◌, ◌&&◌, not, str_eq,
  if◌then◌else◌,
}
use geo_note.External.{External}
use geo_note.Model.{Message, CreateMessageRequest}
use geo_note.Model.Validation.{
  validate_login, validate_register, validate_message, validate_comment, validate_reaction,
  validate_report,
}
use geo_note.Repository.Query.{Result, ok, err, Conn}
use geo_note.Service.Publishing
use geo_note.Service.Publishing.{removed}
use geo_note.Service.Publishing.Secrecy.{Posted, made, create-Posted}
use geo_note.Service.State.{State}
use geo_note.Handler.Accounts
use geo_note.Handler.Messages
use geo_note.Handler.Interactions
use geo_note.Handler.Search
use geo_note.Handler.Replies.{Reply, Request, Handler, validated, checked}
use geo_note.Server.{Config, Draw, Incoming, Server, endpoint, serve, request}
use geo_note.Server.Guards.{serve-Reached}
use geo_note.Server.Routes.{
  Endpoint, health, register, login, nearby, heatmap, leaderboard, events, search, popular,
  user_messages, user_profile, me, my_profile, create, delete, unlock, like, react, add_comment,
  report, delete_comment, get_comments,
}
use geo_note.Ws.Hub.Safety.{IsSafe}

module _ (x : External) where
  -- From a safe hub, the handler leaves a safe hub.
  abbrev Calm : Handler x → Type 0
  Calm h = (s : State x) → IsSafe s.hub → IsSafe (h s).1.hub

  checked-Calm :
      (errors : List (String × String)) (h : Handler x) → Calm h → Calm (checked x errors h)
  checked-Calm [] h w = w
  checked-Calm (e ∷ errors) h w = λ s safe. safe

  validated-Calm :
      {A : Type 0} (o : Option A) (validate : A → List (String × String)) (next : A → Handler x)
      → ((a : A) → Calm (next a))
      → Calm (validated x o validate next)
  validated-Calm none validate next w = λ s safe. safe
  validated-Calm (some a) validate next w = checked-Calm (validate a) (next a) (w a)

  if-Calm :
      (b : Bool) (u v : Reply × State x)
      → IsSafe u.1.hub
      → IsSafe v.1.hub
      → IsSafe (if b then u else v).1.hub
  if-Calm true u v h k = h
  if-Calm false u v h k = k

  Posted-IsSafe :
      (m : Message) (before : State x) (o : Result Message × State x)
      → IsSafe before.hub
      → Posted x m before o
      → IsSafe o.1.hub
  Posted-IsSafe m before (ok n, s) safe (same, sent, cleared, left) = left
  Posted-IsSafe m before (err e, s) safe (same, cleared) = rw same safe

  publish-IsSafe :
      (new_id : String) (d : Draw) (user_id : String) (req : CreateMessageRequest) (s : State x)
      → IsSafe s.hub
      → IsSafe (Publishing.create x new_id d.now user_id req s).1.hub
  publish-IsSafe new_id d user_id req s safe =
      Posted-IsSafe (made x new_id d.now user_id req s.conn.db) s
        (Publishing.create x new_id d.now user_id req s) safe
        (create-Posted x new_id d.now user_id req s safe)

  removed-IsSafe :
      (s : State x) (r : Result (Unit {0})) (c : Conn)
      → IsSafe s.hub
      → IsSafe (removed x s (r, c)).1.hub
  removed-IsSafe s (ok a) c safe = safe
  removed-IsSafe s (err e) c safe = safe

  module _ (cfg : Config) (d : Draw) where
    search-Calm : (r : Request) → Calm (Search.search x d.now r)
    unfolding Search.search
    search-Calm r s safe =
        let q = Search.search_query x r in
        if-Calm (str_eq q.query "") _ _ safe
          (if-Calm (not (str_eq q.kind "hashtag") && not (str_eq q.kind "user")) _ _ safe safe)

    endpoint-Calm : (e : Endpoint) (id : String) (r : Request) → Calm (endpoint x cfg d e id r)
    unfolding endpoint Accounts.health_check Accounts.login Accounts.register Accounts.me
        Accounts.get_user_profile Accounts.get_my_profile Messages.get_nearby Messages.get_heatmap
        Messages.get_leaderboard Messages.detect_events Messages.get_by_user Messages.create
        Messages.delete Messages.unlock_mystery Search.popular_hashtags Interactions.get_comments
        Interactions.toggle_like Interactions.toggle_reaction Interactions.add_comment
        Interactions.report_message Interactions.delete_comment Publishing.delete
    endpoint-Calm health id r = λ s safe. safe
    endpoint-Calm register id r =
        validated-Calm (x.decode_register r.body) validate_register _ (λ req s safe. safe)
    endpoint-Calm login id r =
        validated-Calm (x.decode_login r.body) validate_login _ (λ req s safe. safe)
    endpoint-Calm nearby id r = λ s safe. safe
    endpoint-Calm heatmap id r = λ s safe. safe
    endpoint-Calm leaderboard id r = λ s safe. safe
    endpoint-Calm events id r = λ s safe. safe
    endpoint-Calm search id r = search-Calm r
    endpoint-Calm popular id r = λ s safe. safe
    endpoint-Calm user_messages id r = λ s safe. safe
    endpoint-Calm user_profile id r = λ s safe. safe
    endpoint-Calm me id r = λ s safe. safe
    endpoint-Calm my_profile id r = λ s safe. safe
    endpoint-Calm create id r =
        validated-Calm (x.decode_message r.body) validate_message _
          (λ req s. publish-IsSafe d.new_id d r.user_id req s)
    endpoint-Calm delete id r = λ s safe. removed-IsSafe s _ _ safe
    endpoint-Calm unlock id r =
        validated-Calm (x.decode_position r.body) (λ _. []) _ (λ (latitude, longitude) s safe. safe)
    endpoint-Calm like id r = λ s safe. safe
    endpoint-Calm react id r =
        validated-Calm (x.decode_reaction r.body) validate_reaction _ (λ emoji s safe. safe)
    endpoint-Calm add_comment id r =
        validated-Calm (x.decode_comment r.body) validate_comment _ (λ content s safe. safe)
    endpoint-Calm report id r =
        validated-Calm (x.decode_report r.body) validate_report _ (λ req s safe. safe)
    endpoint-Calm delete_comment id r = λ s safe. safe
    endpoint-Calm get_comments id r = λ s safe. safe

    -- A request leaves a safe hub safe.
    pub serve-IsSafe :
        (i : Incoming) (s : Server x) → IsSafe s.state.hub → IsSafe (serve x cfg d i s).1.state.hub
    serve-IsSafe i s safe = elim (serve-Reached x cfg d i s) [
      | inl same ↦ rw same safe
      | inr (access, e, id, u, hit, named, ran) ↦
          rw ran (endpoint-Calm e id (request i u) s.state safe)
    ]
