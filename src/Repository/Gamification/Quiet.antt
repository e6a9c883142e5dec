-- ===== src/Repository/Gamification/Quiet.antt =====
-- What the streaks and badges leave alone.
use geo_note.Common.{
  ◌≡◌, refl, ℕ, String, Bool, List, [], ◌∷◌, Bool-cases, inl, inr, exists, str_eq, if◌then◌else◌,
}
use geo_note.Model.{UserStreak}
use geo_note.Repository.Query.{Db, pure, read, attempt, ◌>>◌}
use geo_note.Repository.Query.Frames.{
  Frame, keeping, Stays, statement-Stays, read-Stays, rows-Stays, pure-Stays, attempt-Stays,
  if-Stays, bind-Stays,
}
use geo_note.Repository.Gamification.{
  get_streak, get_badges, or_no_streak, row_or_error, row_of, upsert, post_row, record_post,
  has_user, has_badge, badge_row, award_badge, award_all, milestones, check_and_award_badges,
}

module _ (F : Frame) where
  pub get_streak-Stays : (user_id : String) → Stays F (get_streak user_id)
  unfolding get_streak
  get_streak-Stays user_id =
      let look = λ (db : Db). row_or_error (row_of user_id db.streaks) in
      bind-Stays F (attempt (read look)) (λ r. pure (or_no_streak user_id r))
        (attempt-Stays F (read look) (read-Stays F look))
        (λ r. pure-Stays F (or_no_streak user_id r))

  pub get_badges-Stays : (user_id : String) → Stays F (get_badges user_id)
  unfolding get_badges
  get_badges-Stays user_id = rows-Stays F _

abbrev pub messages_stay : Frame
messages_stay = keeping (λ db. db.messages)

pub upsert-messages :
    (user_id : String) (new : UserStreak) (update : UserStreak → UserStreak) (db : Db)
    → (upsert user_id new update db).1.messages ≡ db.messages
upsert-messages user_id new update db =
    elim (Bool-cases (exists (λ s. str_eq s.user_id user_id) db.streaks)) [
      | inl e ↦ rw e refl
      | inr e ↦
          rw e (elim (Bool-cases (has_user user_id db)) [ inl f ↦ rw f refl | inr f ↦ rw f refl ])
    ]

pub record_post-messages :
    (user_id : String) (today : ℕ) → Stays messages_stay (record_post user_id today)
unfolding record_post post_row
record_post-messages user_id today =
    statement-Stays messages_stay (post_row user_id today) (λ db. upsert-messages user_id _ _ db)

pub badge_row-messages :
    (user_id : String) (now : ℕ) (badge : String) (db : Db)
    → (badge_row user_id now badge db).1.messages ≡ db.messages
unfolding badge_row
badge_row-messages user_id now badge db = elim (Bool-cases (has_badge user_id badge db)) [
  | inl e ↦ rw e refl
  | inr e ↦ rw e (elim (Bool-cases (has_user user_id db)) [ inl f ↦ rw f refl | inr f ↦ rw f refl ])
]

pub award_badge-messages :
    (user_id : String) (now : ℕ) (badge : String)
    → Stays messages_stay (award_badge user_id now badge)
unfolding award_badge
award_badge-messages user_id now badge =
    statement-Stays messages_stay (badge_row user_id now badge)
      (badge_row-messages user_id now badge)

pub attempt_award-messages :
    (user_id : String) (now : ℕ) (badge : String)
    → Stays messages_stay (attempt (award_badge user_id now badge) >> pure tt)
attempt_award-messages user_id now badge =
    bind-Stays messages_stay (attempt (award_badge user_id now badge)) (λ _. pure tt)
      (attempt-Stays messages_stay (award_badge user_id now badge)
        (award_badge-messages user_id now badge))
      (λ _. pure-Stays messages_stay tt)

award_all-messages :
    (user_id : String) (now : ℕ) (badges : List (Bool × String))
    → Stays messages_stay (award_all user_id now badges)
unfolding award_all
award_all-messages user_id now [] = pure-Stays messages_stay tt
award_all-messages user_id now ((holds, badge) ∷ rest) =
    let award = attempt (award_badge user_id now badge) >> pure tt in
    bind-Stays messages_stay (if holds then award else pure tt) (λ _. award_all user_id now rest)
      (if-Stays messages_stay holds award (pure tt) (attempt_award-messages user_id now badge)
        (pure-Stays messages_stay tt))
      (λ _. award_all-messages user_id now rest)

pub check_and_award_badges-messages :
    (user_id : String) (now : ℕ) → Stays messages_stay (check_and_award_badges user_id now)
unfolding check_and_award_badges
check_and_award_badges-messages user_id now =
    bind-Stays messages_stay (get_streak user_id) (λ s. award_all user_id now (milestones s))
      (get_streak-Stays messages_stay user_id) (λ s. award_all-messages user_id now (milestones s))
