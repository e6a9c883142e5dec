-- ===== src/Server/Guards.antt =====
-- Which requests reach a handler, and as which user.
use geo_note.Common.{◌≡◌, refl, ◌⊎◌, inl, inr, ◌*◌, String, Option, none, some, Bool-cases}
use geo_note.External.{External}
use geo_note.Http.{Response}
use geo_note.Middleware.AntiSpam.{LastAction, anti_spam}
use geo_note.Middleware.Auth.{auth, get_user_id, optional_auth}
use geo_note.Middleware.Auth.Access.{Carries, auth_iff, auth_names}
use geo_note.Middleware.RateLimit.{rate_limit, second, Visitors}
use geo_note.Service.State.{State}
use geo_note.Handler.Replies.{Request}
use geo_note.Server.{
  Config, Draw, Incoming, Server, request, is_posting, endpoint, let_through, guarded, validate,
  admitted, accessed, routed, limited, serve,
}
use geo_note.Server.Routes.{
  Access, public, optional, required, Endpoint, Match, matched, wrong_method, unknown, match,
}

module _ (x : External) (cfg : Config) (d : Draw) where
  -- The user is the one that the token of the request names.
  abbrev pub Named : Incoming → String → Type 0
  Named i u = Carries (validate x cfg d) i.authorization u

  -- The state is as before, or as the handler leaves it.
  abbrev Ran : Endpoint → String → Request → State x → State x → Type 0
  Ran e id r s s' = (s' ≡ s) ⊎ (s' ≡ (endpoint x cfg d e id r s).1)

  -- The state is as before, or as the handler of the route that matches leaves it; a route of the
  -- authenticated group has then run as the user whom the token names.
  abbrev pub Reached : Incoming → Match → State x → State x → Type 0
  Reached i m s s' =
      (s' ≡ s)
      ⊎ ((access : Access) × (e : Endpoint) × (id : String) × (u : String) × (m
            ≡ matched access e id)
          × (access ≡ required → Named i u)
          × (s' ≡ (endpoint x cfg d e id (request i u) s).1))

  let_through-Ran :
      (e : Endpoint) (id : String) (r : Request) (o : Option Response × LastAction) (s : Server x)
      → Ran e id r s.state (let_through x cfg d e id r o s).1.state
  let_through-Ran e id r (some refusal, last_action) s = inl refl
  let_through-Ran e id r (none, last_action) s = inr refl

  guarded-Ran :
      (e : Endpoint) (id : String) (r : Request) (s : Server x)
      → Ran e id r s.state (guarded x cfg d e id r s).1.state
  unfolding guarded
  guarded-Ran e id r s = elim (Bool-cases (is_posting e)) [
    | inl posting ↦
        rw posting (let_through-Ran e id r (anti_spam (5 * second) r.user_id d.now s.last_action) s)
    | inr other ↦ rw other (inr refl)
  ]

  Reached-Ran :
      (i : Incoming) (access : Access) (e : Endpoint) (id u : String) (s s' : State x)
      → (access ≡ required → Named i u)
      → Ran e id (request i u) s s'
      → Reached i (matched access e id) s s'
  Reached-Ran i access e id u s s' named (inl same) = inl same
  Reached-Ran i access e id u s s' named (inr ran) = inr (access, e, id, u, refl, named, ran)

  admitted-Reached :
      (e : Endpoint) (id : String) (i : Incoming) (s : Server x) (o : Response ⊎ Option String)
      → auth (validate x cfg d) i.authorization ≡ o
      → Reached i (matched required e id) s.state (admitted x cfg d e id i o s).1.state
  admitted-Reached e id i s (inl refusal) h = inl refl
  admitted-Reached e id i s (inr none) h = absurd (auth_names (validate x cfg d) i.authorization h)
  admitted-Reached e id i s (inr (some u)) h =
      Reached-Ran i required e id (get_user_id (some u)) s.state
        (guarded x cfg d e id (request i (get_user_id (some u))) s).1.state
        (λ _. unfold get_user_id in (auth_iff (validate x cfg d) i.authorization u).0 h)
        (guarded-Ran e id (request i (get_user_id (some u))) s)

  accessed-Reached :
      (access : Access) (e : Endpoint) (id : String) (i : Incoming) (s : Server x)
      → Reached i (matched access e id) s.state (accessed x cfg d access e id i s).1.state
  unfolding accessed
  accessed-Reached public e id i s =
      Reached-Ran i public e id "" s.state (guarded x cfg d e id (request i "") s).1.state
        (λ h. absurd (cc)) (guarded-Ran e id (request i "") s)
  accessed-Reached optional e id i s =
      let u = get_user_id (optional_auth (validate x cfg d) i.authorization) in
      Reached-Ran i optional e id u s.state (guarded x cfg d e id (request i u) s).1.state
        (λ h. absurd (cc)) (guarded-Ran e id (request i u) s)
  accessed-Reached required e id i s =
      admitted-Reached e id i s (auth (validate x cfg d) i.authorization) refl

  routed-Reached :
      (i : Incoming) (m : Match) (s : Server x) → Reached i m s.state (routed x cfg d i m s).1.state
  unfolding routed
  routed-Reached i (matched access e id) s = accessed-Reached access e id i s
  routed-Reached i wrong_method s = inl refl
  routed-Reached i unknown s = inl refl

  limited-Reached :
      (i : Incoming) (o : Option Response × Visitors) (s : Server x)
      → Reached i (match i.method i.segments) s.state (limited x cfg d i o s).1.state
  limited-Reached i (some refusal, visitors) s = inl refl
  limited-Reached i (none, visitors) s =
      routed-Reached i (match i.method i.segments) (record s { visitors = visitors })

  -- A request changes the database, the cache and the hub only as the handler of the route that
  -- matches it does; a handler of the authenticated group has then run as the user whom the
  -- request's token names.
  pub serve-Reached :
      (i : Incoming) (s : Server x)
      → Reached i (match i.method i.segments) s.state (serve x cfg d i s).1.state
  unfolding serve
  serve-Reached i s = limited-Reached i (rate_limit 10 20 i.addr d.now s.visitors) s
