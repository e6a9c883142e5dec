-- ===== src/Server/Requests.antt =====
-- What a request does to the database, where the statements of its user stay within a frame.
use geo_note.Common.{
  ◌≡◌, refl, inl, inr, String, Bool, true, false, Option, none, some, List, [], ◌∷◌, ◌&&◌, ◌||◌,
  not, exists, str_eq, Bool-cases, arith, eq_iff,
}
use geo_note.External.{External}
use geo_note.Model.{User}
use geo_note.Repository.Query.{Db}
use geo_note.Repository.Query.Frames.{Frame}
use geo_note.Repository.Users.{insert_user}
use geo_note.Repository.Writers.{Respects}
use geo_note.Service.State.{State}
use geo_note.Handler.Replies.{Request}
use geo_note.Server.{Config, Draw, Incoming, Server, endpoint, serve, request}
use geo_note.Server.Guards.{Named, serve-Reached}
use geo_note.Server.Within.{is_reader, is_register, only_register, reader-Within, register-Within}
use geo_note.Server.Writers.{endpoint-Within}
use geo_note.Server.Routes.{
  Access, public, optional, required, Endpoint, Route, Match, matched, wrong_method, unknown, match,
  find, routes, prefer, parameter,
}

-- Where every route of a method passes a test, so does the route that matches a request.
abbrev pub Passes : (Access → Endpoint → Bool) → Match → Type 0
Passes p (matched access e id) = p access e ≡ true
Passes p wrong_method = Unit
Passes p unknown = Unit

prefer-Passes :
    (p : Access → Endpoint → Bool) (r : Route) (same : Bool) (o : Option String) (rest : Match)
    → (same ≡ true → p r.access r.endpoint ≡ true)
    → Passes p rest
    → Passes p (prefer r same o rest)
prefer-Passes p r same none rest h k = k
prefer-Passes p r true (some id) rest h k = h refl
prefer-Passes p r false (some id) (matched access e id') h k = k
prefer-Passes p r false (some id) wrong_method h k = tt
prefer-Passes p r false (some id) unknown h k = tt

pub find-Passes :
    (p : Access → Endpoint → Bool) (q : String → Bool) (method : String) (segments : List String)
    (rs : List Route)
    → q method ≡ true
    → exists (λ r. q r.method && not (p r.access r.endpoint)) rs ≡ false
    → Passes p (find method segments rs)
unfolding find
find-Passes p q method segments [] m h = tt
find-Passes p q method segments (r ∷ rs) m h =
    prefer-Passes p r (str_eq r.method method) (parameter r.path segments) (find method segments rs)
      (λ same. ground (arith, eq_iff r.method method))
      (find-Passes p q method segments rs m (ground arith))

module _ (x : External) (cfg : Config) (d : Draw) where
  -- Without authentication a route only reads or registers.
  abbrev harmless : Access → Endpoint → Bool
  harmless required e = true
  harmless public e = is_reader e || is_register e
  harmless optional e = is_reader e || is_register e

  all_harmless : (i : Incoming) → Passes harmless (match i.method i.segments)
  unfolding match routes
  all_harmless i = find-Passes harmless (λ m. true) i.method i.segments routes refl refl

  module _ (F : Frame) (inserts : (v : User) (db : Db) → F.Change db (insert_user v db).1) where
    open_endpoint :
        (e : Endpoint) (id : String) (r : Request) (s : State x)
        → (is_reader e || is_register e) ≡ true
        → F.Change s.conn.db (endpoint x cfg d e id r s).1.conn.db
    open_endpoint e id r s h = elim (Bool-cases (is_reader e)) [
      | inl k ↦ reader-Within x cfg d F e id r k s
      | inr k ↦ rw (only_register e (rw k at h)) (register-Within x cfg d F id r inserts s)
    ]

    accessed-Change :
        (access : Access) (e : Endpoint) (id u : String) (r : Request) (s : State x)
        → r.user_id ≡ u
        → (access ≡ required → Respects u F)
        → harmless access e ≡ true
        → F.Change s.conn.db (endpoint x cfg d e id r s).1.conn.db
    accessed-Change required e id u r s own w k = endpoint-Within F x u (w refl) cfg d e id r own s
    accessed-Change public e id u r s own w k = open_endpoint e id r s k
    accessed-Change optional e id u r s own w k = open_endpoint e id r s k

    -- A request stays within a frame that an insert of a user and the statements of the user whom its
    -- token names respect.
    pub serve-Change :
        (i : Incoming) (s : Server x)
        → ((u : String) → Named x cfg d i u → Respects u F)
        → F.Change s.state.conn.db (serve x cfg d i s).1.state.conn.db
    serve-Change i s w = elim (serve-Reached x cfg d i s) [
      | inl same ↦ rw same (F.same s.state.conn.db)
      | inr (access, e, id, u, hit, named, ran) ↦ rw ran (
          accessed-Change access e id u (request i u) s.state refl (λ a. w u (named a))
            (rw hit at (all_harmless i)))
    ]
