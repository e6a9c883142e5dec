-- ===== src/Repository/Messages/Rows.antt =====
-- The columns of a message row, as the queries select, filter and order them.
use geo_note.Common.{
  ℕ, String, Bool, true, Option, none, some, List, [], ◌∷◌, leb, ltb, str_eq, exists, first,
  if◌then◌else◌,
}
use geo_note.Model.{User, MessageRow, Message}

name_of : Option User → String
name_of none = ""
name_of (some u) = u.username

abbrev pub author : String → List User → Option User
author user_id users = first (λ (u : User). str_eq u.id user_id) users

-- The columns of a row, with the author's name and the distance.
unfoldable pub to_message : List User → Option ℕ → MessageRow → Message
unfolding name_of
to_message users distance m = record {
  id = m.id;
  user_id = m.user_id;
  username = name_of (author m.user_id users);
  content = m.content;
  latitude = m.latitude;
  longitude = m.longitude;
  visibility = m.visibility;
  hashtags = m.hashtags;
  likes_count = m.likes_count;
  comments_count = m.comments_count;
  distance = distance;
  created_at = m.created_at;
  message_type = m.message_type;
  expires_at = m.expires_at;
  mystery_radius = m.mystery_radius;
  scheduled_at = m.scheduled_at;
  unlocks_count = m.unlocks_count;
  reactions = [];
}

-- The JOIN with `users` drops a message without an author.
abbrev pub has_author : List User → MessageRow → Bool
has_author users m = exists (λ (u : User). str_eq u.id m.user_id) users

-- `expires_at IS NULL OR expires_at > NOW()`
unfoldable pub is_live : ℕ → Option ℕ → Bool
is_live now none = true
is_live now (some t) = ltb now t

-- `scheduled_at IS NULL OR scheduled_at <= NOW()`
unfoldable pub is_revealed : ℕ → Option ℕ → Bool
is_revealed now none = true
is_revealed now (some t) = leb t now

-- ORDER BY … ASC by insertion.
unfoldable pub insert_by : (Message → ℕ) → Message → List Message → List Message
insert_by key m [] = m ∷ []
insert_by key m (n ∷ ms) =
    let rest = insert_by key m ms in if leb (key m) (key n) then m ∷ n ∷ ms else n ∷ rest

unfoldable pub order_by : (Message → ℕ) → List Message → List Message
unfolding insert_by
order_by key [] = []
order_by key (m ∷ ms) = insert_by key m (order_by key ms)

abbrev pub distance_of : Message → ℕ
distance_of m = elim m.distance [ none ↦ 0 | some d ↦ d ]
