-- ===== src/Handler/Messages.antt =====
-- backend/internal/handler/message_handler.go.
use geo_note.Common.{ℕ, String, Option, [], length}
use geo_note.Common.Int.{pos}
use geo_note.External.{External}
use geo_note.Http.{write_error}
use geo_note.Model.{NearbyQuery}
use geo_note.Model.Validation.{validate_message}
use geo_note.Repository.Query.{Result, Conn}
use geo_note.Service.Messages as Service
use geo_note.Service.Publishing
use geo_note.Service.State.{State, on_db}
use geo_note.Handler.Replies.{
  Request, Handler, send, send_encoded, encodes, validated, replied, server_error, or_missing,
  parse_int, capped_int, latitude_of, longitude_of, nearby, posted, note, messages, opened, points,
  leaderboard, events,
}

module _ (x : External) where
  unfoldable pub nearby_query : Request → NearbyQuery
  nearby_query r = record {
    latitude = latitude_of x r;
    longitude = longitude_of x r;
    radius = capped_int x r "radius" (pos 1000) (pos 1000);
    limit = capped_int x r "limit" (pos 50) (pos 50);
    sort = r.query "sort";
    hashtag = r.query "hashtag";
    user_id = r.user_id;
  }

  abbrev cached : {A : Type 0} → State x → (Result A × Conn) × Option x.Store → Result A × State x
  cached s ((r, c), cache) = (r, record s { conn = c; cache = cache })

  -- `GetNearby`
  unfoldable pub get_nearby : ℕ → Request → Handler x
  get_nearby now r s =
      let q = nearby_query r in
      replied x (server_error "FETCH_ERROR")
        (λ ms.
          send_encoded (encodes x (q.latitude, q.longitude)) 200
            (nearby ms (length ms) (q.latitude, q.longitude) q.radius))
        (cached s (Service.get_nearby x now q s.cache s.conn))

  -- `Create`
  unfoldable pub create : String → ℕ → Request → Handler x
  create new_id now r = validated x (x.decode_message r.body) validate_message λ req s.
      replied x (λ e. write_error 500 "CREATE_ERROR" "Erreur lors de la creation")
        (λ m. send 201 (posted m)) (Publishing.create x new_id now r.user_id req s)

  -- `Delete`
  unfoldable pub delete : String → Request → Handler x
  delete id r s =
      replied x
        (or_missing (write_error 404 "NOT_FOUND" "Message introuvable ou non autorise")
          (write_error 500 "DELETE_ERROR" "Erreur serveur"))
        (λ _. send 200 (note "Message supprime")) (Publishing.delete x id r.user_id s)

  -- `GetByUser`
  unfoldable pub get_by_user : String → Handler x
  get_by_user user_id s =
      replied x (server_error "FETCH_ERROR") (λ ms. send 200 (messages ms (length ms)))
        (on_db x (Publishing.get_by_user user_id) s)

  -- `UnlockMystery`, whose body has no checks.
  unfoldable pub unlock_mystery : ℕ → String → Request → Handler x
  unlock_mystery now id r =
      validated x (x.decode_position r.body) (λ _. [])
        λ (latitude, longitude) s.
          replied x
            (or_missing (write_error 404 "NOT_FOUND" "Message introuvable")
              (write_error 500 "UNLOCK_ERROR" "Erreur serveur"))
            (λ (m, unlocked). send 200 (opened m unlocked))
            (on_db x (Service.unlock_mystery x now id r.user_id latitude longitude) s)

  -- `GetHeatmap`
  unfoldable pub get_heatmap : ℕ → Request → Handler x
  get_heatmap now r s =
      replied x (server_error "HEATMAP_ERROR") (λ ps. send 200 (points ps (length ps)))
        (on_db x
          (Publishing.get_heatmap x now (latitude_of x r) (longitude_of x r)
            (capped_int x r "radius" (pos 1000) (pos 5000)))
          s)

  -- `GetLeaderboard`
  unfoldable pub get_leaderboard : ℕ → Request → Handler x
  get_leaderboard now r s =
      replied x (server_error "LEADERBOARD_ERROR") (λ es. send 200 (leaderboard es (length es)))
        (on_db x
          (Publishing.get_leaderboard x now (latitude_of x r) (longitude_of x r)
            (parse_int x r "radius" (pos 5000)) (parse_int x r "limit" (pos 20)))
          s)

  -- `DetectEvents`
  unfoldable pub detect_events : ℕ → Request → Handler x
  detect_events now r s =
      replied x (server_error "EVENTS_ERROR") (λ es. send 200 (events es (length es)))
        (on_db x
          (Publishing.detect_events x now (latitude_of x r) (longitude_of x r)
            (capped_int x r "radius" (pos 5000) (pos 10000)))
          s)
