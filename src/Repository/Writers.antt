-- ===== src/Repository/Writers.antt =====
-- The statements by which the repositories write, for one user, and what each call of a repository
-- does where every statement stays within a frame.
use geo_note.Common.{
  ℕ, String, Bool, true, false, Option, none, some, List, [], ◌∷◌, first, str_eq, ◌==◌, not,
  if◌then◌else◌,
}
use geo_note.Model.{User, CreateMessageRequest, Interaction, like, comment, Reaction, Report}
use geo_note.Repository.Query.{
  Result, ok, err, not_found, no_rows, invalid_credentials, panicked, failed, Db, Query, pure,
  raise, statement, read, ◌>>=◌, ◌>>◌, attempt,
}
use geo_note.Repository.Query.Frames.{
  Frame, Stays, statement-Stays, read-Stays, attempt-Stays, if-Stays, bind-Stays, transaction-Stays,
}
use geo_note.Repository.Users.{insert_user}
use geo_note.Repository.Messages.Writes.{
  insert_message, new_row, delete_messages, owned, insert_unlock, create, delete, affected,
  unlock_mystery,
}
use geo_note.Repository.Interactions.{
  insert_interaction, delete_interactions, has_id, id_of, likes_of, is_like_of, is_comment_of,
  flip_like, answer_with, toggle_like_body, toggle_like, add_comment, delete_comment, found,
}
use geo_note.Repository.Reactions as Emojis
use geo_note.Repository.Reactions.{
  insert_reaction, delete_reaction, is_reaction, flip, toggle_reaction,
}
use geo_note.Repository.Reports.{
  insert_report, hide_row, report_message, get_report_count, hide_message,
}
use geo_note.Repository.Gamification.{
  post_row, unlock_row, badge_row, record_post, record_unlock, award_badge, award_all, milestones,
  get_streak, check_and_award_badges,
}
use geo_note.Repository.Gamification.Quiet.{get_streak-Stays}

-- Every statement that writes for the user `u` stays within the frame.
pub record Respects (u : String) (F : Frame) : Type 0 where
  pub message :
      (parse_rfc3339 : String → Option ℕ) (new_id : String) (now : ℕ) (req : CreateMessageRequest)
      (db : Db)
      → F.Change db (insert_message (new_row parse_rfc3339 new_id now u req) db).1
  pub no_message : (id : String) (db : Db) → F.Change db (delete_messages (owned id u) db).1
  pub unlock : (id : String) (db : Db) → F.Change db (insert_unlock id u db).1
  pub interaction : (i : Interaction) (db : Db) → F.Change db (insert_interaction i db).1
  pub no_interaction : (p : Interaction → Bool) (db : Db) → F.Change db (delete_interactions p db).1
  pub reaction : (r : Reaction) (db : Db) → F.Change db (insert_reaction r db).1
  pub no_reaction : (id : String) (db : Db) → F.Change db (delete_reaction id db).1
  pub report :
      (conflicts : Report → Report → Bool) (r : Report) (db : Db)
      → F.Change db (insert_report conflicts r db).1
  pub hidden : (id : String) (db : Db) → F.Change db (hide_row id db).1
  pub post : (today : ℕ) (db : Db) → F.Change db (post_row u today db).1
  pub opening : (db : Db) → F.Change db (unlock_row u db).1
  pub award : (now : ℕ) (badge : String) (db : Db) → F.Change db (badge_row u now badge db).1
  pub user : (v : User) (db : Db) → F.Change db (insert_user v db).1

module _ (u : String) (F : Frame) (w : Respects u F) where
  -- A statement whose result the code only hands on.
  then-Stays :
      {A B : Type 0} (run : Db → Result A × Db) (k : A → Query B)
      → ((db : Db) → F.Change db (run db).1)
      → ((a : A) → Stays F (k a))
      → Stays F (statement run >>= k)
  then-Stays run k h next = bind-Stays F (statement run) k (statement-Stays F run h) next

  done-Stays :
      {A B : Type 0} (run : Db → Result A × Db) (b : B)
      → ((db : Db) → F.Change db (run db).1)
      → Stays F (statement run >> pure b)
  done-Stays run b h = then-Stays run (λ _. pure b) h (λ a c. F.same c.db)

  pub create-Stays :
      (parse_rfc3339 : String → Option ℕ) (new_id : String) (now : ℕ) (req : CreateMessageRequest)
      → Stays F (create parse_rfc3339 new_id now u req)
  unfolding create
  create-Stays parse_rfc3339 new_id now req =
      statement-Stays F (insert_message (new_row parse_rfc3339 new_id now u req))
        (w.message parse_rfc3339 new_id now req)

  pub delete-Stays : (id : String) → Stays F (delete id u)
  unfolding delete affected
  delete-Stays id =
      then-Stays (delete_messages (owned id u)) affected (w.no_message id)
        (λ n. if-Stays F (n == 0) (raise not_found) (pure tt) (λ c. F.same c.db) (λ c. F.same c.db))

  pub unlock_mystery-Stays : (id : String) → Stays F (unlock_mystery id u)
  unfolding unlock_mystery
  unlock_mystery-Stays id =
      then-Stays (insert_unlock id u) (λ n. pure (not (n == 0))) (w.unlock id) (λ n c. F.same c.db)

  pub add_comment-Stays :
      (new_id : String) (now : ℕ) (message_id user_id content : String)
      → Stays F (add_comment new_id now message_id user_id content)
  unfolding add_comment
  add_comment-Stays new_id now message_id user_id content =
      let i : Interaction = record {
        id = new_id;
        message_id = message_id;
        user_id = user_id;
        kind = comment;
        content = some content;
        created_at = now;
      } in
      done-Stays (insert_interaction i) i (w.interaction i)

  pub delete_comment-Stays :
      (comment_id user_id : String) → Stays F (delete_comment comment_id user_id)
  unfolding delete_comment found
  delete_comment-Stays comment_id user_id =
      then-Stays (delete_interactions (is_comment_of comment_id user_id)) found (w.no_interaction _)
        (λ n. if-Stays F (n == 0) (raise not_found) (pure tt) (λ c. F.same c.db) (λ c. F.same c.db))

  flip_like-Stays :
      (new_id : String) (now : ℕ) (message_id user_id : String) (o : Result String)
      → Stays F (flip_like new_id now message_id user_id o)
  unfolding flip_like
  flip_like-Stays new_id now message_id user_id (ok existing) =
      done-Stays (delete_interactions (has_id existing)) false (w.no_interaction (has_id existing))
  flip_like-Stays new_id now message_id user_id (err no_rows) =
      let i : Interaction = record {
        id = new_id;
        message_id = message_id;
        user_id = user_id;
        kind = like;
        content = none;
        created_at = now;
      } in
      done-Stays (insert_interaction i) true (w.interaction i)
  flip_like-Stays new_id now message_id user_id (err not_found) = λ c. F.same c.db
  flip_like-Stays new_id now message_id user_id (err invalid_credentials) = λ c. F.same c.db
  flip_like-Stays new_id now message_id user_id (err panicked) = λ c. F.same c.db
  flip_like-Stays new_id now message_id user_id (err failed) = λ c. F.same c.db

  answer_with-Stays : (message_id : String) (liked : Bool) → Stays F (answer_with message_id liked)
  unfolding answer_with
  answer_with-Stays message_id liked =
      let look = λ (db : Db). likes_of (first (λ m. str_eq m.id message_id) db.messages) in
      bind-Stays F (read look) (λ count. pure (record { liked = liked; likes_count = count }))
        (read-Stays F look) (λ n c. F.same c.db)

  pub toggle_like-Stays :
      (new_id : String) (now : ℕ) (message_id user_id : String)
      → Stays F (toggle_like new_id now message_id user_id)
  unfolding toggle_like toggle_like_body
  toggle_like-Stays new_id now message_id user_id =
      let look = λ (db : Db). id_of (first (is_like_of message_id user_id) db.interactions) in
      transaction-Stays F (toggle_like_body new_id now message_id user_id) (
        bind-Stays F (attempt (read look))
          (λ o. flip_like new_id now message_id user_id o >>= answer_with message_id)
          (attempt-Stays F (read look) (read-Stays F look))
          (λ o.
            bind-Stays F (flip_like new_id now message_id user_id o) (answer_with message_id)
              (flip_like-Stays new_id now message_id user_id o) (answer_with-Stays message_id)))

  flip-Stays :
      (new_id message_id user_id emoji : String) (o : Result String)
      → Stays F (flip new_id message_id user_id emoji o)
  unfolding flip
  flip-Stays new_id message_id user_id emoji (ok existing) =
      done-Stays (delete_reaction existing) false (w.no_reaction existing)
  flip-Stays new_id message_id user_id emoji (err no_rows) =
      let r : Reaction = record {
        id = new_id;
        message_id = message_id;
        user_id = user_id;
        emoji = emoji;
      } in
      done-Stays (insert_reaction r) true (w.reaction r)
  flip-Stays new_id message_id user_id emoji (err not_found) = λ c. F.same c.db
  flip-Stays new_id message_id user_id emoji (err invalid_credentials) = λ c. F.same c.db
  flip-Stays new_id message_id user_id emoji (err panicked) = λ c. F.same c.db
  flip-Stays new_id message_id user_id emoji (err failed) = λ c. F.same c.db

  pub toggle_reaction-Stays :
      (new_id message_id user_id emoji : String)
      → Stays F (toggle_reaction new_id message_id user_id emoji)
  unfolding toggle_reaction
  toggle_reaction-Stays new_id message_id user_id emoji =
      let look =
        λ (db : Db). Emojis.id_of (first (is_reaction message_id user_id emoji) db.reactions) in
      bind-Stays F (attempt (read look)) (flip new_id message_id user_id emoji)
        (attempt-Stays F (read look) (read-Stays F look))
        (flip-Stays new_id message_id user_id emoji)

  pub report_message-Stays :
      (conflicts : Report → Report → Bool) (message_id user_id reason description : String)
      → Stays F (report_message conflicts message_id user_id reason description)
  unfolding report_message
  report_message-Stays conflicts message_id user_id reason description =
      let r : Report = record {
        reporter_id = user_id;
        message_id = message_id;
        reason = reason;
        description = description;
      } in
      statement-Stays F (insert_report conflicts r) (w.report conflicts r)

  pub get_report_count-Stays : (message_id : String) → Stays F (get_report_count message_id)
  unfolding get_report_count
  get_report_count-Stays message_id = read-Stays F _

  pub hide_message-Stays : (message_id : String) → Stays F (hide_message message_id)
  unfolding hide_message
  hide_message-Stays message_id = statement-Stays F (hide_row message_id) (w.hidden message_id)

  pub record_post-Stays : (today : ℕ) → Stays F (record_post u today)
  unfolding record_post
  record_post-Stays today = statement-Stays F (post_row u today) (w.post today)

  pub record_unlock-Stays : Stays F (record_unlock u)
  unfolding record_unlock
  record_unlock-Stays = statement-Stays F (unlock_row u) w.opening

  award_badge-Stays : (now : ℕ) (badge : String) → Stays F (award_badge u now badge)
  unfolding award_badge
  award_badge-Stays now badge = statement-Stays F (badge_row u now badge) (w.award now badge)

  -- An award whose error is dropped.
  pub attempt_award-Stays :
      (now : ℕ) (badge : String) → Stays F (attempt (award_badge u now badge) >> pure tt)
  attempt_award-Stays now badge =
      bind-Stays F (attempt (award_badge u now badge)) (λ _. pure tt)
        (attempt-Stays F (award_badge u now badge) (award_badge-Stays now badge))
        (λ _ c. F.same c.db)

  award_all-Stays : (now : ℕ) (badges : List (Bool × String)) → Stays F (award_all u now badges)
  unfolding award_all
  award_all-Stays now [] = λ c. F.same c.db
  award_all-Stays now ((holds, badge) ∷ rest) =
      let award = attempt (award_badge u now badge) >> pure tt in
      bind-Stays F (if holds then award else pure tt) (λ _. award_all u now rest)
        (if-Stays F holds award (pure tt) (attempt_award-Stays now badge) (λ c. F.same c.db))
        (λ _. award_all-Stays now rest)

  pub check_and_award_badges-Stays : (now : ℕ) → Stays F (check_and_award_badges u now)
  unfolding check_and_award_badges
  check_and_award_badges-Stays now =
      bind-Stays F (get_streak u) (λ s. award_all u now (milestones s)) (get_streak-Stays F u)
        (λ s. award_all-Stays now (milestones s))
