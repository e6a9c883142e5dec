-- ===== src/Service/Messages.antt =====
-- `MessageService` of backend/internal/service/message_service.go: `GetNearby`, `Create`, `Delete`
-- and `UnlockMystery`. The cache of GeoNote is shared state beside the database.
pub mod Masking
pub mod Ranking
pub mod Caching
pub mod Privacy
use geo_note.Common.{
  ℕ, ◌*◌, String, Bool, true, false, Option, none, some, List, ltb, str_eq, ◌&&◌, ◌||◌, not,
  if◌then◌else◌, first,
}
use geo_note.Common.Int.{ℤ, pos, pos_part, ltb_ℤ, leb_ℤ}
use geo_note.External.{External}
use geo_note.Model.{Message, NearbyQuery, CreateMessageRequest}
use geo_note.Repository.Query.{
  not_found, Result, ok, err, Conn, Query, pure, raise, ◌>>=◌, ◌>>◌, attempt,
}
use geo_note.Repository.Messages as Rows
use geo_note.Repository.Messages.Reads.{get_message_content}
use geo_note.Repository.Messages.Writes
use geo_note.Repository.Gamification.{
  record_post, record_unlock, check_and_award_badges, award_badge,
}
use geo_note.Service.Cache.{grid_key, get, set, invalidate_zone}
use geo_note.Ws.Hub.{Hub}
use Masking.{is_mystery, mask, finish}

-- The bounds that `GetNearby` puts on radius and limit.
unfoldable pub clamp : NearbyQuery → NearbyQuery
clamp q = record q {
  radius = if leb_ℤ q.radius (pos 0) then pos 1000 else q.radius;
  limit = if leb_ℤ q.limit (pos 0) || ltb_ℤ (pos 50) q.limit then pos 50 else q.limit;
}

abbrev pub is_cacheable : NearbyQuery → Bool
is_cacheable q = str_eq q.hashtag "" && (str_eq q.sort "" || str_eq q.sort "distance")

module _ (x : External) where
  abbrev pub key_of : NearbyQuery → Result String
  key_of q = grid_key x q.latitude q.longitude q.radius q.user_id

  abbrev look : Option x.Store → Result String → Result (Option (List Message))
  look cache (ok key) = ok (get x cache key)
  look cache (err e) = err e

  -- What the cache answers, `ok none` where the query goes to the database.
  unfoldable pub lookup : NearbyQuery → Option x.Store → Result (Option (List Message))
  lookup q cache = if is_cacheable q then look cache (key_of q) else ok none

  -- The part of `GetNearby` that reads the database and sorts, with whether a content was masked.
  unfoldable pub fetch : ℕ → NearbyQuery → Query (List Message × Bool)
  fetch now q = Rows.get_nearby x now q >>= finish x now q

  abbrev pub store : Option x.Store → List Message → Result String → Option x.Store
  store cache ms (ok key) = set x cache key ms
  store cache ms (err e) = cache

  abbrev pub keep :
      NearbyQuery
      → Option x.Store
      → Result (List Message × Bool) × Conn
      → (Result (List Message) × Conn) × Option x.Store
  keep q cache (ok (ms, masked), c) =
      ((ok ms, c), if is_cacheable q && not masked then store cache ms (key_of q) else cache)
  keep q cache (err e, c) = ((err e, c), cache)

  abbrev pub answer :
      ℕ
      → NearbyQuery
      → Option x.Store
      → Result (Option (List Message))
      → Conn
      → (Result (List Message) × Conn) × Option x.Store
  answer now q cache (ok none) c = keep q cache (fetch now q c)
  answer now q cache (ok (some ms)) c = ((ok ms, c), cache)
  answer now q cache (err e) c = ((err e, c), cache)

  -- `GetNearby`
  unfoldable pub get_nearby :
      ℕ → NearbyQuery → Option x.Store → Conn → (Result (List Message) × Conn) × Option x.Store
  get_nearby now q cache c = answer now (clamp q) cache (lookup (clamp q) cache) c

  -- `*target.Distance > float64(target.MysteryRadius)`, false where there is no distance.
  abbrev pub is_far : Message → Bool
  is_far m = elim m.distance [
    | none ↦ false
    | some d ↦ ltb_ℤ m.mystery_radius (pos 0) || ltb (1000 * pos_part m.mystery_radius) d
  ]

  -- The badges of an unlock, whose errors are dropped.
  unfoldable pub count_unlock : String → ℕ → Bool → Query (Unit {0})
  count_unlock user_id now newly =
      if newly
      then attempt (record_unlock user_id)
        >> attempt (check_and_award_badges user_id now)
        >> pure tt
      else pure tt

  abbrev pub with_content : Message → Result String → Message
  with_content m (ok content) = record m { content = content }
  with_content m (err e) = m

  unfoldable pub unlock_target : ℕ → String → String → Option Message → Query (Message × Bool)
  unlock_target now message_id user_id none = raise not_found
  unlock_target now message_id user_id (some m) =
      if not (is_mystery m) then pure (m, false) else if is_far m then pure (m, false) else do
        newly ← Writes.unlock_mystery message_id user_id
        count_unlock user_id now newly
        content ← attempt (get_message_content message_id)
        pure (with_content m content, newly)

  abbrev pub around : String → ℤ → ℤ → NearbyQuery
  around user_id latitude longitude = record {
    latitude = latitude;
    longitude = longitude;
    radius = pos 1000;
    limit = pos 100;
    sort = "";
    hashtag = "";
    user_id = user_id;
  }

  -- `UnlockMystery`
  unfoldable pub unlock_mystery : ℕ → String → String → ℤ → ℤ → Query (Message × Bool)
  unlock_mystery now message_id user_id latitude longitude = do
    ms ← Rows.get_nearby x now (around user_id latitude longitude)
    unlock_target now message_id user_id (first (λ m. str_eq m.id message_id) ms)
