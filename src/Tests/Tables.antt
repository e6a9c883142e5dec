-- ===== src/Tests/Tables.antt =====
-- The repositories of backend/internal/repository on a small database.
use geo_note.Common.{
  ℕ, ◌≡◌, ◌↔◌, refl, String, true, false, Option, none, List, [], ◌∷◌, ◌||◌, arith,
}
use geo_note.Common.Text.{bytes, trim_space}
use geo_note.Common.Int.{ℤ, pos, ◌+ℤ◌}
use geo_note.Model.{Interaction, like}
use geo_note.Repository.Query.{Conn}
use geo_note.Repository.Query.Rules.{Atomic}
use geo_note.Repository.Interactions.{toggle_like}
use geo_note.Repository.Interactions.Counts.{IsConsistent}
use geo_note.Repository.Interactions.Toggle.{Toggled, toggle_like-Atomic}
use geo_note.Repository.Gamification.{row_of, has_badge, check_and_award_badges}
use geo_note.Repository.Gamification.History as History
use geo_note.Repository.Gamification.History.{RowFits, days_of, replay, replay-RowFits}
use geo_note.Repository.Gamification.Badges.{has_earned, stats, check_and_award_badges_exact}
use geo_note.Repository.Messages.Hashtags.{
  extract_hashtags, HasWord, Distinct, is_in, lower, extract_hashtags_iff,
}
use geo_note.Repository.Messages.Writes.{new_row, message_violates}
use geo_note.Repository.Messages.Accepted.{validate_message-accepted}
use geo_note.Repository.Messages as Messages
use geo_note.Repository.Messages.Nearby.{IsShort, get_nearby-IsShort}
use geo_note.Repository.Messages.Deletion.{Deleted, delete-Deleted}
use geo_note.Repository.Messages.Writes.{delete}
use geo_note.Repository.Query.Rules.{Ensures}
use geo_note.Repository.Reactions.{toggle_reaction}
use geo_note.Repository.Reactions.Flip as Flip
use geo_note.Repository.Reactions.Flip.{IsKeyed, toggle_reaction-Flipped, toggle_reaction_answers}
use geo_note.Model.Validation.{validate_message}
use geo_note.Tests.Data.{plain, by_hashtag, two_users, with_streak, hello}

abbrev none_before : String → ℤ
none_before id = pos 0

two_users-IsConsistent : IsConsistent none_before none_before two_users
unfolding ◌+ℤ◌
two_users-IsConsistent = record {
  one_like = λ m u. omega arith;
  unique_id = λ k. omega arith;
  counted = ((refl, refl), tt);
}

-- The second statement of the transaction fails.
abbrev shaky : Conn
shaky = record { db = two_users; faults = false ∷ false ∷ true ∷ [] }

toggle_like-Atomic_example :
    Atomic two_users
      (Toggled none_before none_before "i1" 20 "m1" "alice" two_users)
      (toggle_like "i1" 20 "m1" "alice" shaky)
toggle_like-Atomic_example =
    toggle_like-Atomic none_before none_before "i1" 20 "m1" "alice" shaky two_users-IsConsistent

abbrev alice_likes : Interaction
alice_likes = record {
  id = "i1";
  message_id = "m1";
  user_id = "alice";
  kind = like;
  content = none;
  created_at = 20;
}

abbrev two_days : List History.Event
two_days = History.post "alice" 11 ∷ History.unlock "alice" 10 ∷ History.post "alice" 10 ∷ []

replay-RowFits_example :
    RowFits (days_of "alice" two_days) (row_of "alice" (replay two_days two_users).streaks)
replay-RowFits_example =
    replay-RowFits "alice" two_days two_users refl refl (omega arith, (omega arith, tt))

abbrev losing : Conn
losing = record { db = with_streak; faults = false ∷ true ∷ [] }

check_and_award_badges_exact_example :
    has_badge "alice" "streak_3"
      (check_and_award_badges "alice" 30 (record { db = with_streak; faults = [] })).1.db
    ≡ has_badge "alice" "streak_3" with_streak || has_earned "streak_3" (stats "alice" with_streak)
check_and_award_badges_exact_example =
    check_and_award_badges_exact "alice" 30 "streak_3" with_streak refl

extract_hashtags_iff_example :
    ((is_in "go" (extract_hashtags "#Go et #go") ≡ true)
      ↔ ((w : String) × HasWord w "#Go et #go" × (lower w ≡ "go")))
    × Distinct (extract_hashtags "#Go et #go")
extract_hashtags_iff_example = extract_hashtags_iff "#Go et #go" "go"

abbrev never : String → Option ℕ
never text = none

hello_validates : validate_message hello ≡ []
unfolding validate_message bytes
hello_validates = refl

validate_message-accepted_example :
    message_violates (new_row never "m2" 40 "alice" hello) two_users ≡ false
unfolding trim_space
validate_message-accepted_example =
    validate_message-accepted never "m2" 40 "alice" hello two_users hello_validates refl refl refl
      refl

get_nearby-IsShort_example :
    Ensures
      (λ ms d. IsShort plain 50 by_hashtag ms × (d ≡ two_users))
      (Messages.get_nearby plain 50 by_hashtag (record { db = two_users; faults = [] }))
get_nearby-IsShort_example =
    get_nearby-IsShort plain 50 by_hashtag (record { db = two_users; faults = [] })

delete-Deleted_example :
    Deleted "m1" "bob" two_users (delete "m1" "bob" (record { db = two_users; faults = [] }))
delete-Deleted_example = delete-Deleted "m1" "bob" (record { db = two_users; faults = [] })

two_users-IsKeyed : IsKeyed two_users
two_users-IsKeyed = record { one_each = λ m u e. omega arith; unique_id = λ k. omega arith }

toggle_reaction-Flipped_example :
    Ensures
      (Flip.Flipped "r1" "m1" "alice" "fire" two_users)
      (toggle_reaction "r1" "m1" "alice" "fire" shaky)
toggle_reaction-Flipped_example =
    toggle_reaction-Flipped "r1" "m1" "alice" "fire" shaky two_users-IsKeyed
