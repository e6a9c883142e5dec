-- ===== src/Repository/Messages/Reads.antt =====
-- The other queries of `MessageRepo`: `IsUnlocked`, `GetMessageContent`, `GetByUser` and
-- `SearchByHashtag`.
use geo_note.Common.{
  ℕ, String, Bool, Option, none, some, List, [], ◌∷◌, ◌&&◌, map, leb, str_eq, exists, first, select,
  take, drop, length, if◌then◌else◌,
}
use geo_note.Common.Int.{ℤ, pos, pos_part, ltb_ℤ}
use geo_note.Common.Text.{trim_prefix}
use geo_note.Model.{MessageRow, Message}
use geo_note.Repository.Query.{
  no_rows, failed, Result, ok, err, Db, Query, pure, read, read_rows, ◌>>=◌,
}
use geo_note.Repository.Messages.Rows.{to_message, has_author, is_live, is_revealed}
use geo_note.Repository.Messages.Writes.{is_unlock}

abbrev pub is_unlocked_in : String → String → Db → Bool
is_unlocked_in message_id user_id db = exists (is_unlock message_id user_id) db.unlocks

-- `IsUnlocked`
unfoldable pub is_unlocked : String → String → Query Bool
is_unlocked message_id user_id = read (λ db. ok (is_unlocked_in message_id user_id db))

content_of : Option MessageRow → Result String
content_of none = err no_rows
content_of (some m) = ok m.content

-- `GetMessageContent`
unfoldable pub get_message_content : String → Query String
unfolding content_of
get_message_content message_id =
    read (λ db. content_of (first (λ m. str_eq m.id message_id) db.messages))

-- The latest first: from the back of the order by `created_at`.
insert_latest : Message → List Message → List Message
insert_latest m [] = m ∷ []
insert_latest m (n ∷ ms) =
    let rest = insert_latest m ms in if leb n.created_at m.created_at then m ∷ n ∷ ms else n ∷ rest

pub latest_first : List Message → List Message
unfolding insert_latest
latest_first [] = []
latest_first (m ∷ ms) = insert_latest m (latest_first ms)

-- `GetByUser`
unfoldable pub get_by_user : String → Query (List Message)
unfolding latest_first to_message
get_by_user user_id = read_rows (λ db. ok (
    latest_first (
      map (to_message db.users none)
        (select (λ m. has_author db.users m && str_eq m.user_id user_id) db.messages))))

-- The WHERE of `SearchByHashtag`.
pub has_tag : ℕ → String → MessageRow → Bool
unfolding is_live is_revealed
has_tag now tag m =
    exists (λ h. str_eq h tag) m.hashtags
    && is_live now m.expires_at
    && is_revealed now m.scheduled_at

-- A negative LIMIT or OFFSET is an error.
unfoldable pub page : ℤ → ℤ → List Message → Result (List Message)
page limit offset ms =
    if ltb_ℤ limit (pos 0)
    then err failed
    else if ltb_ℤ offset (pos 0)
    then err failed
    else ok (take (pos_part limit) (drop (pos_part offset) ms))

unfoldable pub tagged : ℕ → String → Db → List Message
unfolding has_tag latest_first to_message
tagged now tag db = latest_first (
    map (to_message db.users none)
      (select (λ m. has_author db.users m && has_tag now tag m) db.messages))

-- `SearchByHashtag`: the page, and the number of all rows.
unfoldable pub search_by_hashtag : (String → String) → ℕ → String → ℤ → ℤ → Query (List Message × ℕ)
unfolding page tagged
search_by_hashtag to_lower now hashtag limit offset =
    let tag = to_lower (trim_prefix hashtag "#") in
    do
      total ← read (λ db. ok (length (select (has_tag now tag) db.messages)))
      ms ← read_rows (λ db. page limit offset (tagged now tag db))
      pure (ms, total)
