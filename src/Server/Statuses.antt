-- ===== src/Server/Statuses.antt =====
-- Every answer of the server is an honest one.
use geo_note.Common.{
  ◌≡◌, true, refl, inl, inr, ◌*◌, String, Option, none, some, ◌&&◌, not, str_eq, ◌⊎◌, Bool-cases,
}
use geo_note.External.{External}
use geo_note.Http.{Response, OnSome, OnLeft, too_many, unauthorized}
use geo_note.Middleware.AntiSpam.{anti_spam, LastAction}
use geo_note.Middleware.Auth.{auth}
use geo_note.Middleware.RateLimit.{rate_limit, second, Visitors}
use geo_note.Middleware.AntiSpam.Cooldown.{anti_spam-refusal}
use geo_note.Middleware.Auth.Access.{auth-refusal}
use geo_note.Middleware.RateLimit.Bucket.{rate_limit-refusal}
use geo_note.Handler.Accounts
use geo_note.Handler.Messages
use geo_note.Handler.Interactions
use geo_note.Handler.Search
use geo_note.Handler.Replies.{Request, send_encoded, encodes, latitude_of, longitude_of}
use geo_note.Handler.Statuses.{
  IsHonest, Refuses, Answers, error-Refuses, send-IsHonest, answer-IsHonest, served, removed,
  validated-Answers, if-IsHonest,
}
use geo_note.Server.{
  Config, Draw, Incoming, Server, endpoint, guarded, let_through, accessed, admitted, routed,
  limited, serve, is_posting, validate, request,
}
use geo_note.Server.Routes.{
  public, optional, required, Endpoint, Match, matched, wrong_method, unknown, match, health,
  register, login, nearby, heatmap, leaderboard, events, search, popular, user_messages,
  user_profile, me, my_profile, create, delete, unlock, like, react, add_comment, report,
  delete_comment, get_comments,
}

module _ (x : External) (cfg : Config) (d : Draw) where
  search-Answers : (r : Request) → Answers (Search.search x d.now r)
  unfolding Search.search
  search-Answers r s =
      let q = Search.search_query x r in
      if-IsHonest (str_eq q.query "") _ _ (error-Refuses 400 _ _ refl refl) (
        if-IsHonest (not (str_eq q.kind "hashtag") && not (str_eq q.kind "user")) _ _
          (error-Refuses 400 _ _ refl refl)
          (answer-IsHonest _ _ _ (λ e. error-Refuses 500 _ _ refl refl)
            (λ a. send-IsHonest 200 _ refl refl)))

  -- The position that the query names, if any, is a pair of finite numbers.
  abbrev pub Located : Request → Type 0
  Located r = encodes x (latitude_of x r, longitude_of x r) ≡ true

  endpoint-Answers :
      (e : Endpoint) (id : String) (r : Request) → Located r → Answers (endpoint x cfg d e id r)
  unfolding endpoint send_encoded Messages.nearby_query Accounts.health_check Accounts.register
      Accounts.login Messages.get_nearby Messages.get_heatmap Messages.get_leaderboard
      Messages.detect_events Search.popular_hashtags Messages.get_by_user Accounts.get_user_profile
      Accounts.me Accounts.get_my_profile Interactions.get_comments Messages.create Messages.delete
      Messages.unlock_mystery Interactions.toggle_like Interactions.toggle_reaction
      Interactions.add_comment Interactions.report_message Interactions.delete_comment
  endpoint-Answers health id r located = λ s.
      answer-IsHonest _ _ _ (λ e. error-Refuses 503 _ _ refl refl)
        (λ a. send-IsHonest 200 _ refl refl)
  endpoint-Answers register id r located =
      validated-Answers (x.decode_register r.body) _ _ (λ req s.
        answer-IsHonest _ _ _ (λ e. error-Refuses 409 _ _ refl refl)
          (λ a. send-IsHonest 201 _ refl refl))
  endpoint-Answers login id r located = validated-Answers (x.decode_login r.body) _ _ (λ req s.
      answer-IsHonest _ _ _ (λ e. error-Refuses 401 _ _ refl refl)
        (λ a. send-IsHonest 200 _ refl refl))
  endpoint-Answers nearby id r located = λ s. rw located (served "FETCH_ERROR" 200 _ _ refl refl)
  endpoint-Answers heatmap id r located = λ s. served "HEATMAP_ERROR" 200 _ _ refl refl
  endpoint-Answers leaderboard id r located = λ s. served "LEADERBOARD_ERROR" 200 _ _ refl refl
  endpoint-Answers events id r located = λ s. served "EVENTS_ERROR" 200 _ _ refl refl
  endpoint-Answers search id r located = search-Answers r
  endpoint-Answers popular id r located = λ s. served "HASHTAG_ERROR" 200 _ _ refl refl
  endpoint-Answers user_messages id r located = λ s. served "FETCH_ERROR" 200 _ _ refl refl
  endpoint-Answers user_profile id r located = λ s. served "PROFILE_ERROR" 200 _ _ refl refl
  endpoint-Answers me id r located = λ s.
      answer-IsHonest _ _ _ (λ e. error-Refuses 404 _ _ refl refl)
        (λ a. send-IsHonest 200 _ refl refl)
  endpoint-Answers my_profile id r located = λ s. served "PROFILE_ERROR" 200 _ _ refl refl
  endpoint-Answers create id r located = validated-Answers (x.decode_message r.body) _ _ (λ req s.
      answer-IsHonest _ _ _ (λ e. error-Refuses 500 _ _ refl refl)
        (λ a. send-IsHonest 201 _ refl refl))
  endpoint-Answers delete id r located = λ s. removed _ _ _ _
  endpoint-Answers unlock id r located =
      validated-Answers (x.decode_position r.body) _ _ (λ at s. removed _ _ _ _)
  endpoint-Answers like id r located = λ s. served "LIKE_ERROR" 200 _ _ refl refl
  endpoint-Answers react id r located =
      validated-Answers (x.decode_reaction r.body) _ _
        (λ a s. served "REACTION_ERROR" 200 _ _ refl refl)
  endpoint-Answers add_comment id r located =
      validated-Answers (x.decode_comment r.body) _ _
        (λ a s. served "COMMENT_ERROR" 201 _ _ refl refl)
  endpoint-Answers report id r located =
      validated-Answers (x.decode_report r.body) _ _
        (λ a s. served "REPORT_ERROR" 201 _ _ refl refl)
  endpoint-Answers delete_comment id r located = λ s. removed _ _ _ _
  endpoint-Answers get_comments id r located = λ s. served "FETCH_ERROR" 200 _ _ refl refl

  too_many-Refuses : (code message : String) → Refuses (too_many code message)
  unfolding too_many
  too_many-Refuses code message = error-Refuses 429 code message refl refl

  unauthorized-Refuses : (code message : String) → Refuses (unauthorized code message)
  unfolding unauthorized
  unauthorized-Refuses code message = error-Refuses 401 code message refl refl

  let_through-IsHonest :
      (e : Endpoint) (id : String) (r : Request) (o : Option Response × LastAction) (s : Server x)
      → Located r
      → OnSome Refuses o.0
      → IsHonest (let_through x cfg d e id r o s).0
  let_through-IsHonest e id r (some refusal, last_action) s located h = h
  let_through-IsHonest e id r (none, last_action) s located h =
      endpoint-Answers e id r located s.state

  guarded-IsHonest :
      (e : Endpoint) (id : String) (r : Request) (s : Server x)
      → Located r
      → IsHonest (guarded x cfg d e id r s).0
  unfolding guarded
  guarded-IsHonest e id r s located = elim (Bool-cases (is_posting e)) [
    | inl posting ↦ rw posting (
        let_through-IsHonest e id r (anti_spam (5 * second) r.user_id d.now s.last_action) s located
          (anti_spam-refusal (5 * second) r.user_id d.now s.last_action Refuses
            (too_many-Refuses _ _)))
    | inr other ↦ rw other (endpoint-Answers e id r located s.state)
  ]

  admitted-IsHonest :
      (e : Endpoint) (id : String) (i : Incoming) (o : Response ⊎ Option String) (s : Server x)
      → ((u : String) → Located (request i u))
      → OnLeft Refuses o
      → IsHonest (admitted x cfg d e id i o s).0
  admitted-IsHonest e id i (inl refusal) s located h = h
  admitted-IsHonest e id i (inr context) s located h = guarded-IsHonest e id _ s (located _)

  routed-IsHonest :
      (i : Incoming) (m : Match) (s : Server x)
      → ((u : String) → Located (request i u))
      → IsHonest (routed x cfg d i m s).0
  unfolding routed accessed IsHonest
  routed-IsHonest i (matched public e id) s located = guarded-IsHonest e id _ s (located _)
  routed-IsHonest i (matched optional e id) s located = guarded-IsHonest e id _ s (located _)
  routed-IsHonest i (matched required e id) s located =
      admitted-IsHonest e id i (auth (validate x cfg d) i.authorization) s located
        (auth-refusal (validate x cfg d) i.authorization Refuses unauthorized-Refuses)
  routed-IsHonest i wrong_method s located = (refl, refl, refl)
  routed-IsHonest i unknown s located = (refl, refl, refl)

  limited-IsHonest :
      (i : Incoming) (o : Option Response × Visitors) (s : Server x)
      → ((u : String) → Located (request i u))
      → OnSome Refuses o.0
      → IsHonest (limited x cfg d i o s).0
  limited-IsHonest i (some refusal, visitors) s located h = h
  limited-IsHonest i (none, visitors) s located h =
      routed-IsHonest i (match i.method i.segments) (record s { visitors = visitors }) located

  -- Whatever the request, if the position that its query names is not NaN or an infinity, and whatever
  -- statements fail, the status of the answer is 200, 201, 400, 401,
  -- 404, 405, 409, 429, 500 or 503; the answer says `success` and holds data exactly when its status
  -- is below 400.
  pub serve-IsHonest :
      (i : Incoming) (s : Server x)
      → ((u : String) → Located (request i u))
      → IsHonest (serve x cfg d i s).0
  unfolding serve
  serve-IsHonest i s located =
      limited-IsHonest i (rate_limit 10 20 i.addr d.now s.visitors) s located
        (rate_limit-refusal 10 20 i.addr d.now s.visitors Refuses (too_many-Refuses _ _))
