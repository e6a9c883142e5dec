-- ===== src/Server/Anonymous.antt =====
-- What requests that read do to the database, and requests without a token.
use geo_note.Common.{◌≡◌, refl, ◌∙◌, inl, inr, ap, String, str_eq, arith, eq_iff}
use geo_note.External.{External}
use geo_note.Repository.Query.Frames.{keeping, only_users, OnlyUsers}
use geo_note.Service.State.{State}
use geo_note.Server.{Config, Draw, Incoming, Server, serve, request}
use geo_note.Server.Guards.{Named, serve-Reached}
use geo_note.Server.Within.{is_reader, reader-Within, insert_user-OnlyUsers}
use geo_note.Server.Requests.{Passes, find-Passes, serve-Change}
use geo_note.Server.Routes.{match, routes}

module _ (x : External) (cfg : Config) (d : Draw) where
  get_reads :
      (i : Incoming) → i.method ≡ "GET" → Passes (λ a e. is_reader e) (match i.method i.segments)
  unfolding match routes
  get_reads i h =
      find-Passes (λ a e. is_reader e) (str_eq "GET") i.method i.segments routes
        (ground (arith, eq_iff "GET" i.method)) refl

  -- A GET request leaves the database as it is, whatever its route, its user and the statements that
  -- fail.
  pub serve-get :
      (i : Incoming) (s : Server x)
      → i.method ≡ "GET"
      → (serve x cfg d i s).1.state.conn.db ≡ s.state.conn.db
  serve-get i s h = elim (serve-Reached x cfg d i s) [
    | inl same ↦ ap (λ (t : State x). t.conn.db) same
    | inr (access, e, id, u, hit, named, ran) ↦
        ap (λ (t : State x). t.conn.db) ran
        ∙ reader-Within x cfg d (keeping (λ db. db)) e id (request i u) (rw hit at (get_reads i h))
            s.state
  ]

  -- A request without a valid token changes no table but `users`, where it at most adds rows, whatever
  -- its method and route and the statements that fail.
  pub serve-anonymous :
      (i : Incoming) (s : Server x)
      → ((u : String) → ¬ Named x cfg d i u)
      → OnlyUsers s.state.conn.db (serve x cfg d i s).1.state.conn.db
  serve-anonymous i s nobody =
      serve-Change x cfg d only_users insert_user-OnlyUsers i s (λ u named. absurd (nobody u named))
