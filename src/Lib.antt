-- ===== src/Lib.antt =====
-- GeoNote, the backend: messages that are pinned to a place, read by those who are near.
--
-- The backend is a Go service in layers. A request passes the middlewares of
-- backend/internal/middleware, a handler of backend/internal/handler, a service of
-- backend/internal/service and the repositories of backend/internal/repository, which run SQL on
-- the tables that backend/migrations creates; the message service has a Redis cache,
-- backend/internal/cache, and tells the WebSocket hub of backend/internal/ws of news.
--
-- Which file models what:
--   Http                     handler/helpers.go, model/response.go: statuses and errors
--   Middleware.RateLimit     RateLimit of middleware/ratelimit.go: `rate_limit`, `cleanup`
--   Middleware.AntiSpam      AntiSpam of the same file: `anti_spam`, `cleanup`
--   Middleware.Auth          middleware/auth.go: `auth`, `optional_auth`, `get_user_id`
--   Model, Model.Validation  model/*.go: the records, and the `Validate` methods
--   Config                   config/config.go: `load`
--   Server, Server.Routes    the routes of cmd/server/main.go, and a request through its middlewares
--   Handler                  handler/*.go: Accounts, Messages, Interactions and Search, with the
--                            answers and the parsing that they share in Replies
--   Repository.Query         a connection: the tables, and statements that may fail
--   Repository.Interactions  likes and comments of repository/interaction_repo.go
--   Repository.Reports       reports and hiding, of the same file
--   Repository.Reactions     reactions, of the same file
--   Repository.Gamification  repository/gamification_repo.go: streaks and badges
--   Repository.Users         repository/user_repo.go
--   Repository.Messages      repository/message_repo.go; below it Hashtags, Writes, Reads, Clusters
--                            (heatmap, leaderboard, popular hashtags) and Events
--   Service.State            the database, the cache and the hub that the services share
--   Service.Auth             the tokens of service/auth_service.go
--   Service.Accounts         registration and login, of the same file
--   Service.Cache            cache/redis.go
--   Service.Messages         GetNearby and UnlockMystery of service/message_service.go
--   Service.Messages.Ranking rankScore of the same file
--   Service.Publishing       Create, Delete and the other methods of the same file
--   Service.Moderation       ReportMessage of service/interaction_service.go
--   Service.Interactions     its other methods, and service/gamification_service.go
--   Service.Search           service/search_service.go
--   Ws.Hub                   ws/hub.go, and the channels of ws/client.go
--   Ws.Connections           ws/client.go: ServeWS, readPump and writePump
--   Geo                      geo/haversine.go
--   External, Floats         what these parts call and the repository does not hold
--   Tests                    the theorems at concrete data
-- The modules below these hold the proofs and are named for what they prove. Repository.Writers names
-- the statements that write: what each of them keeps (Repository.Soundness, Authorship and Growth),
-- every request keeps (Server.Requests), every history of the server (Server.Histories), and every
-- interleaving of statements (Repository.Interleaving).
--
-- State is passed explicitly. A middleware takes its map and gives the answer, if it ends the
-- request, and the new map; the ticks of a cleanup goroutine are events among the requests. The hub
-- is a store of channels, and each of its operations is one step, since it holds the hub's lock; a
-- Go panic is `none`. A query takes a connection: the tables and a list that says which of the
-- statements to come fail, and after which row a list breaks off, so that a theorem for every list
-- covers every failure; a transaction
-- puts the tables back where its body fails. The statements are the SQL of the source, with the
-- constraints and triggers of the migrations.
--
-- Numbers: times are nanoseconds (days for streaks), tokens of the limiter billionths, coordinates
-- 10^-7 degrees and distances millimetres, where the source has float64; which numbers of a query's
-- position stand for NaN or an infinity is a parameter. Counters that a trigger
-- moves are integers. No loop of the modelled code needs fuel: each recurses on a list or a text.
--
-- Parameters: the JWT library and bcrypt, with what they document as hypotheses; Redis, JSON,
-- formatting and parsing, PostGIS, ILIKE and the collation, case folding, sorting and the order by
-- ranking score, with the hypothesis that a sort rearranges where a theorem needs it; the floating-point
-- numbers of Geo and the ranking score, with the laws of IEEE 754 on signs as hypotheses; and what the
-- table `content_reports` refuses and loses, which is a part of the database, since no migration
-- creates the table.
--
-- A request is one step of the server, and a turn of a goroutine one step of the sockets. Requests that
-- overlap in their statements are steps of Repository.Interleaving; above the repositories they are
-- not modelled. On a connection the WebSocket library chooses what a read or a write answers. The path of a
-- request is given by its segments, and its address is the one that `RealIP` leaves.
--
-- Not modelled: the start and shutdown of the server, which are input and output; the global
-- middlewares of chi and cors, and the two that main.go names and no file declares; Close of the cache
-- and the constructors that only build a record; the columns avatar_url and is_anonymous.
pub mod Common
pub mod Config
pub mod Http
pub mod Middleware
pub mod External
pub mod Floats
pub mod Geo
pub mod Model
pub mod Repository
pub mod Service
pub mod Handler
pub mod Server
pub mod Ws
pub mod Tests
