-- ===== src/Repository/Messages.antt =====
-- `MessageRepo` of backend/internal/repository/message_repo.go, with `get_nearby_messages` of
-- backend/migrations/007_reports.up.sql. The order of rows that an ORDER BY leaves open is that of
-- the table here.
pub mod Rows
pub mod Hashtags
pub mod Writes
pub mod Reads
pub mod Nearby
pub mod Deletion
pub mod Clusters
pub mod Events
pub mod Accepted
use geo_note.Common.{
  ℕ, zero, suc, ◌+◌, ◌*◌, String, Bool, true, false, Option, none, some, List, [], ◌∷◌, ◌&&◌, ◌||◌,
  not, map, len, leb, ltb, ◌==◌, str_eq, exists, first, select, take, drop, length, if◌then◌else◌,
}
use geo_note.Common.Int.{ℤ, pos, pos_part, ◌+ℤ◌, ltb_ℤ, leb_ℤ}
use geo_note.Common.Text.{trim_prefix, trim_space, contains}
use geo_note.External.{External}
use geo_note.Model.{User, MessageRow, Message, CreateMessageRequest, NearbyQuery, Unlock}
use geo_note.Repository.Query.{
  Error, not_found, no_rows, failed, Result, ok, err, Db, Query, pure, raise, statement, read,
  read_rows, ◌>>=◌, ◌>>◌,
}
use Rows.{to_message, has_author, is_live, is_revealed, order_by, distance_of}

-- `user_id = NULL` is never true.
abbrev pub is_user : Option String → String → Bool
is_user none id = false
is_user (some u) id = str_eq id u

abbrev pub asking : NearbyQuery → Option String
asking q = if str_eq q.user_id "" then none else some q.user_id

module _ (x : External) where
  -- The WHERE of `get_nearby_messages`; `user_id` is NULL for a request without a user.
  pub is_near : ℕ → ℤ × ℤ → ℤ → Option String → MessageRow → Bool
  unfolding is_live is_revealed
  is_near now at_user radius user_id m =
      x.in_envelope at_user radius (m.latitude, m.longitude)
      && leb (x.st_distance (m.latitude, m.longitude) at_user) (1000 * pos_part radius)
      && (str_eq m.visibility "public" || is_user user_id m.user_id)
      && is_live now m.expires_at
      && is_revealed now m.scheduled_at
      && not m.is_hidden

  pub nearby_rows : ℕ → NearbyQuery → Option String → Db → List Message
  unfolding is_near to_message order_by
  nearby_rows now q user_id db = take (pos_part q.limit) (
      order_by distance_of (
        map
          (λ m.
            to_message db.users
              (some (x.st_distance (m.latitude, m.longitude) (q.latitude, q.longitude))) m)
          (select
            (λ m. has_author db.users m && is_near now (q.latitude, q.longitude) q.radius user_id m)
            db.messages)))

  -- A negative LIMIT is an error.
  unfoldable pub get_nearby_messages : ℕ → NearbyQuery → Option String → Db → Result (List Message)
  get_nearby_messages now q user_id db =
      if ltb_ℤ q.limit (pos 0) then err failed else ok (nearby_rows now q user_id db)

  -- The filter by hashtag: messages with a tag that contains the one looked for.
  unfoldable pub with_hashtag : String → List Message → List Message
  with_hashtag hashtag ms =
      if str_eq hashtag ""
      then ms
      else let tag = x.to_lower (trim_prefix hashtag "#") in
        select (λ m. exists (λ h. contains (x.to_lower h) tag) m.hashtags) ms

  -- `GetNearby`
  unfoldable pub get_nearby : ℕ → NearbyQuery → Query (List Message)
  unfolding get_nearby_messages nearby_rows with_hashtag
  get_nearby now q = do
    ms ← read_rows (get_nearby_messages now q (asking q))
    pure (with_hashtag q.hashtag ms)
