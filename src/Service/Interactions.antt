-- ===== src/Service/Interactions.antt =====
-- `InteractionService` of backend/internal/service/interaction_service.go but for `ReportMessage`, and
-- `GamificationService` of backend/internal/service/gamification_service.go.
use geo_note.Common.{ℕ, String, Option, List}
use geo_note.Common.Text.{trim_space}
use geo_note.Model.{LikeResponse, Interaction, ReactionSummary, ReactionResponse, UserStreak, Badge}
use geo_note.Repository.Query.{Query, pure, ◌>>=◌}
use geo_note.Repository.Interactions as Rows
use geo_note.Repository.Interactions.Comments
use geo_note.Repository.Interactions.Comments.{Comment}
use geo_note.Repository.Reactions as Emojis
use geo_note.Repository.Gamification as Streaks

-- `ToggleLike`
unfoldable pub toggle_like : String → ℕ → String → String → Query LikeResponse
toggle_like new_id now message_id user_id = Rows.toggle_like new_id now message_id user_id

-- `AddComment`
unfoldable pub add_comment : String → ℕ → String → String → String → Query Interaction
add_comment new_id now message_id user_id content =
    Rows.add_comment new_id now message_id user_id (trim_space content)

-- `DeleteComment`
unfoldable pub delete_comment : String → String → Query (Unit {0})
delete_comment comment_id user_id = Rows.delete_comment comment_id user_id

-- `GetComments`
unfoldable pub get_comments : String → Query (List Comment)
get_comments message_id = Comments.get_comments message_id

-- `ToggleReaction`
unfoldable pub toggle_reaction : String → String → String → String → Query ReactionResponse
toggle_reaction new_id message_id user_id emoji = do
  reacted ← Emojis.toggle_reaction new_id message_id user_id (trim_space emoji)
  reactions ← Emojis.get_reactions_by_message message_id user_id
  pure (record { reacted = reacted; reactions = reactions })

-- `GetReactionsByMessage`
unfoldable pub get_reactions_by_message : String → String → Query (List ReactionSummary)
get_reactions_by_message message_id user_id = Emojis.get_reactions_by_message message_id user_id

-- `GetReactionsByMessages`
unfoldable pub get_reactions_by_messages :
    List String → String → Query (String → Option (List ReactionSummary))
get_reactions_by_messages ids user_id = Emojis.get_reactions_by_messages ids user_id

-- `GetProfile`: the streak and the badges.
unfoldable pub get_profile : String → Query (UserStreak × List Badge)
get_profile user_id = do
  streak ← Streaks.get_streak user_id
  badges ← Streaks.get_badges user_id
  pure (streak, badges)
