-- ===== src/Model.antt =====
-- The data of backend/internal/model and the rows of the tables in backend/migrations. Times are
-- nanoseconds since the epoch. Coordinates are integers in 10^-7 degrees where the source has
-- float64 degrees; a distance is in millimetres.
pub mod Validation
use geo_note.Common.{ℕ, String, Bool, Option, List}
use geo_note.Common.Int.{ℤ}

pub record User : Type 0 where
  pub id : String
  pub username : String
  pub email : String
  pub password_hash : String
  pub created_at : ℕ

pub record ReactionSummary : Type 0 where
  pub emoji : String
  pub count : ℕ
  pub reacted : Bool

-- A row of `messages`.
pub record MessageRow : Type 0 where
  pub id : String
  pub user_id : String
  pub content : String
  pub latitude : ℤ
  pub longitude : ℤ
  pub visibility : String
  pub hashtags : List String
  pub likes_count : ℤ
  pub comments_count : ℤ
  pub created_at : ℕ
  pub message_type : String
  pub expires_at : Option ℕ
  pub mystery_radius : ℤ
  pub scheduled_at : Option ℕ
  pub unlocks_count : ℤ
  pub is_hidden : Bool

-- `Message`, what clients get.
pub record Message : Type 0 where
  pub id : String
  pub user_id : String
  pub username : String
  pub content : String
  pub latitude : ℤ
  pub longitude : ℤ
  pub visibility : String
  pub hashtags : List String
  pub likes_count : ℤ
  pub comments_count : ℤ
  pub distance : Option ℕ
  pub created_at : ℕ
  pub message_type : String
  pub expires_at : Option ℕ
  pub mystery_radius : ℤ
  pub scheduled_at : Option ℕ
  pub unlocks_count : ℤ
  pub reactions : List ReactionSummary

pub record CreateMessageRequest : Type 0 where
  pub content : String
  pub latitude : ℤ
  pub longitude : ℤ
  pub visibility : String
  pub message_type : String
  pub mystery_radius : ℤ
  pub scheduled_at : String

pub record NearbyQuery : Type 0 where
  pub latitude : ℤ
  pub longitude : ℤ
  pub radius : ℤ
  pub limit : ℤ
  pub sort : String
  pub hashtag : String
  pub user_id : String

-- The constraint `valid_type` of the table `interactions`.
pub data Kind : Type 0 where
  like comment : Kind

pub record Interaction : Type 0 where
  pub id : String
  pub message_id : String
  pub user_id : String
  pub kind : Kind
  pub content : Option String
  pub created_at : ℕ

pub record LikeResponse : Type 0 where
  pub liked : Bool
  pub likes_count : ℤ

pub record Reaction : Type 0 where
  pub id : String
  pub message_id : String
  pub user_id : String
  pub emoji : String

pub record Unlock : Type 0 where
  pub message_id : String
  pub user_id : String

pub record Report : Type 0 where
  pub reporter_id : String
  pub message_id : String
  pub reason : String
  pub description : String

-- A row of `user_streaks`, which holds `UserStreak` and the last day of a post.
pub record UserStreak : Type 0 where
  pub user_id : String
  pub current_streak : ℕ
  pub max_streak : ℕ
  pub last_post_date : Option ℕ
  pub total_posts : ℕ
  pub total_zones : ℕ
  pub total_unlocks : ℕ

pub record Badge : Type 0 where
  pub user_id : String
  pub badge_type : String
  pub earned_at : ℕ

-- `RegisterRequest`
pub record RegisterRequest : Type 0 where
  pub username : String
  pub email : String
  pub password : String

-- `LoginRequest`
pub record LoginRequest : Type 0 where
  pub email : String
  pub password : String

-- `AuthResponse`
pub record AuthResponse : Type 0 where
  pub token : String
  pub user : User

-- `ReportRequest`
pub record ReportRequest : Type 0 where
  pub reason : String
  pub description : String

-- `ReactionResponse`
pub record ReactionResponse : Type 0 where
  pub reacted : Bool
  pub reactions : List ReactionSummary

-- `UserSummary`
pub record UserSummary : Type 0 where
  pub id : String
  pub username : String

-- `HashtagResult`
pub record HashtagResult : Type 0 where
  pub tag : String
  pub count : ℕ

-- `SearchQuery`
pub record SearchQuery : Type 0 where
  pub query : String
  pub kind : String
  pub limit : ℤ
  pub offset : ℤ

-- `SearchResult`
pub record SearchResult : Type 0 where
  pub messages : List Message
  pub users : List UserSummary
  pub total : ℕ

-- `HeatmapPoint`; a coordinate is in thousandths of a degree.
pub record HeatmapPoint : Type 0 where
  pub latitude : ℤ
  pub longitude : ℤ
  pub intensity : ℕ

-- `LeaderboardEntry`
pub record LeaderboardEntry : Type 0 where
  pub user_id : String
  pub username : String
  pub total_posts : ℕ
  pub total_likes : ℤ
  pub score : ℤ
