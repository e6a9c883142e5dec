-- ===== src/Service/Publishing.antt =====
-- The rest of `MessageService` of backend/internal/service/message_service.go: `Create`, `Delete`
-- and the calls that pass on to the repository. A post updates the table, the cache, the hub and the
-- author's streak and badges, in this order.
pub mod Secrecy
pub mod Success
use geo_note.Common.{ℕ, ◌/◌, String, Option, none, some, List, str_eq, if◌then◌else◌}
use geo_note.Common.Int.{ℤ, pos, ltb_ℤ}
use geo_note.External.{External}
use geo_note.Model.{Message, CreateMessageRequest, HeatmapPoint, LeaderboardEntry}
use geo_note.Repository.Query.{panicked, Result, ok, err, Conn, Query, pure, ◌>>=◌, ◌>>◌, attempt}
use geo_note.Repository.Messages.Writes
use geo_note.Repository.Messages.Writes.{day}
use geo_note.Repository.Messages.Reads
use geo_note.Repository.Messages.Clusters
use geo_note.Repository.Messages.Events
use geo_note.Repository.Messages.Events.{Event}
use geo_note.Repository.Gamification.{record_post, check_and_award_badges, award_badge}
use geo_note.Service.Cache.{invalidate_zone}
use geo_note.Service.Messages.Masking.{is_mystery, mask}
use geo_note.Service.State.{State, Action, on_db}
use geo_note.Ws.Hub.{Hub, broadcast_new}

-- What the hub is given of a new message.
unfoldable pub public_view : Message → Message
public_view m = if is_mystery m then mask m else m

-- The streak and the badges of a post, whose errors are dropped.
unfoldable pub count_post : ℕ → String → CreateMessageRequest → Query (Unit {0})
count_post now user_id req =
    attempt (record_post user_id (now / day))
    >> attempt (check_and_award_badges user_id now)
    >> (if str_eq req.message_type "capsule"
        then attempt (award_badge user_id now "capsule_creator") >> pure tt
        else pure tt)

module _ (x : External) where
  abbrev pub encoded : Hub → Option String → Option Hub
  encoded h none = some h
  encoded h (some payload) =
      broadcast_new "new_message" (λ e. x.marshal_event e.kind e.payload) payload h

  -- `BroadcastNewMessage`; where the payload does not encode nothing is sent.
  unfoldable pub announce : Message → Hub → Option Hub
  announce m h = encoded h (x.marshal_message m)

  abbrev pub counted :
      ℕ → String → CreateMessageRequest → Message → State x → Option Hub → Result Message × State x
  counted now user_id req m s none = (err panicked, s)
  counted now user_id req m s (some h) =
      on_db x (count_post now user_id req >> pure m) (record s { hub = h })

  abbrev pub published :
      ℕ → String → CreateMessageRequest → State x → Result Message × Conn → Result Message × State x
  published now user_id req s (err e, c) = (err e, record s { conn = c })
  published now user_id req s (ok m, c) =
      counted now user_id req m (record s { conn = c; cache = invalidate_zone x s.cache })
        (announce (public_view m) s.hub)

  -- `Create`
  unfoldable pub create : String → ℕ → String → CreateMessageRequest → Action x Message
  create new_id now user_id req s =
      published now user_id req s (Writes.create x.parse_rfc3339 new_id now user_id req s.conn)

  abbrev pub removed : State x → Result (Unit {0}) × Conn → Result (Unit {0}) × State x
  removed s (err e, c) = (err e, record s { conn = c })
  removed s (ok _, c) = (ok tt, record s { conn = c; cache = invalidate_zone x s.cache })

  -- `Delete`
  unfoldable pub delete : String → String → Action x (Unit {0})
  delete id user_id s = removed s (Writes.delete id user_id s.conn)

  -- `GetHeatmap`
  unfoldable pub get_heatmap : ℕ → ℤ → ℤ → ℤ → Query (List HeatmapPoint)
  get_heatmap now latitude longitude radius =
      Clusters.get_heatmap x now latitude longitude
        (if ltb_ℤ (pos 5000) radius then pos 5000 else radius)

  -- `GetLeaderboard`
  unfoldable pub get_leaderboard : ℕ → ℤ → ℤ → ℤ → ℤ → Query (List LeaderboardEntry)
  get_leaderboard now latitude longitude radius limit =
      Clusters.get_leaderboard x now latitude longitude
        (if ltb_ℤ (pos 10000) radius then pos 10000 else radius)
        (if ltb_ℤ (pos 50) limit then pos 50 else limit)

  -- `DetectEvents`
  unfoldable pub detect_events : ℕ → ℤ → ℤ → ℤ → Query (List Event)
  detect_events now latitude longitude radius =
      Events.detect_events x now latitude longitude
        (if ltb_ℤ (pos 10000) radius then pos 10000 else radius)

-- `GetByUser`
unfoldable pub get_by_user : String → Query (List Message)
get_by_user user_id = Reads.get_by_user user_id
