-- ===== src/Tests/Data.antt =====
-- A small database, and requests on it.
use geo_note.Common.{String, true, false, none, some, [], ◌∷◌}
use geo_note.Common.Int.{pos}
use geo_note.External.{External}
use geo_note.Model.{User, MessageRow, NearbyQuery, CreateMessageRequest, UserStreak}
use geo_note.Repository.Query.{Db, ReportRules}

abbrev user : String → User
user id = record { id = id; username = id; email = ""; password_hash = ""; created_at = 0 }

abbrev pub mystery : MessageRow
mystery = record {
  id = "m1";
  user_id = "bob";
  content = "the key is under the mat #secret";
  latitude = pos 488566000;
  longitude = pos 23522000;
  visibility = "public";
  hashtags = "secret" ∷ [];
  likes_count = pos 0;
  comments_count = pos 0;
  created_at = 10;
  message_type = "mystery";
  expires_at = none;
  mystery_radius = pos 50;
  scheduled_at = none;
  unlocks_count = pos 0;
  is_hidden = false;
}

abbrev streak : UserStreak
streak = record {
  user_id = "alice";
  current_streak = 3;
  max_streak = 3;
  last_post_date = some 12;
  total_posts = 4;
  total_zones = 1;
  total_unlocks = 0;
}

-- A table of reports that refuses nothing and keeps all.
abbrev pub any_report : ReportRules
any_report = record { refuses = λ r users messages. false; left = λ gone reports. some reports }

-- Two users and a mystery message of the second.
abbrev pub two_users : Db
two_users = record {
  users = user "alice" ∷ user "bob" ∷ [];
  messages = mystery ∷ [];
  interactions = [];
  unlocks = [];
  reports = [];
  reactions = [];
  streaks = [];
  badges = [];
  report_rules = any_report;
}

abbrev pub with_streak : Db
with_streak = record two_users { streaks = streak ∷ [] }

abbrev pub by_hashtag : NearbyQuery
by_hashtag = record {
  latitude = pos 488566000;
  longitude = pos 23522000;
  radius = pos 1000;
  limit = pos 50;
  sort = "";
  hashtag = "#secret";
  user_id = "alice";
}

abbrev pub hello : CreateMessageRequest
hello = record {
  content = "Hello #Paris";
  latitude = pos 488566000;
  longitude = pos 23522000;
  visibility = "";
  message_type = "";
  mystery_radius = pos 0;
  scheduled_at = "";
}

-- Libraries that do nothing.
abbrev pub plain : External
plain = record {
  Store = Unit {0};
  redis_get = λ s key. none;
  redis_set = λ s key text. (s, false);
  redis_scan = λ s key. [];
  redis_del = λ s keys. s;
  marshal_messages = λ ms. none;
  unmarshal_messages = λ text. none;
  marshal_message = λ m. some m.content;
  marshal_event = λ kind payload. some payload;
  decode_register = λ s. none;
  decode_login = λ s. none;
  decode_message = λ s. some hello;
  decode_comment = λ s. some s;
  decode_reaction = λ s. some s;
  decode_report = λ s. none;
  decode_position = λ s. none;
  parse_int = λ s. none;
  parse_float = λ s. none;
  is_finite = λ n. true;
  ilike = λ s pattern. false;
  collates = λ s t. true;
  describe_error = "";
  format_coordinate = λ d. "";
  format_int = λ n. "";
  in_envelope = λ at radius p. true;
  st_distance = λ p q. 3;
  parse_rfc3339 = λ s. none;
  to_lower = λ s. s;
  sort_slice = λ less ms. ms;
  ranks_above = λ now m n. false;
}
