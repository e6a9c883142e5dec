-- ===== src/Repository/Interactions.antt =====
-- `InteractionRepo` of backend/internal/repository/interaction_repo.go: likes and comments, with
-- the constraints of the table `interactions` and its trigger `update_interaction_counts`.
pub mod Counts
pub mod Toggle
pub mod Comments
pub mod Listing
use geo_note.Common.{
  String, Bool, true, false, Option, none, some, List, [], ◌∷◌, map, ◌&&◌, ◌||◌, not, ℕ, str_eq,
  exists, first, select, length, if◌then◌else◌, ◌==◌,
}
use geo_note.Common.Int.{ℤ, pos, ◌+ℤ◌, ◌-ℤ◌}
use geo_note.Model.{MessageRow, Interaction, Kind, like, comment, LikeResponse, User}
use geo_note.Repository.Query.{
  Error, not_found, no_rows, failed, Result, ok, err, Db, Query, pure, raise, statement, read,
  ◌>>=◌, ◌>>◌, attempt, transaction,
}

abbrev pub is_kind : Kind → Kind → Bool
is_kind like like = true
is_kind comment comment = true
is_kind _ _ = false

-- `message_id = $1 AND user_id = $2 AND type = 'like'`
abbrev pub is_like_of : String → String → Interaction → Bool
is_like_of message_id user_id i =
    str_eq i.message_id message_id && str_eq i.user_id user_id && is_kind i.kind like

abbrev pub has_id : String → Interaction → Bool
has_id id i = str_eq i.id id

-- The trigger, for one row and one message.
unfoldable pub bump : (ℤ → ℤ) → Interaction → MessageRow → MessageRow
bump f i m =
    if str_eq m.id i.message_id
    then elim i.kind [
      | like ↦ record m { likes_count = f m.likes_count }
      | comment ↦ record m { comments_count = f m.comments_count }
    ]
    else m

-- The trigger on each row of an INSERT, and of a DELETE.
unfoldable pub inserted : Interaction → List MessageRow → List MessageRow
unfolding bump
inserted i = map (bump (λ n. n +ℤ pos 1) i)

unfoldable pub deleted : List Interaction → List MessageRow → List MessageRow
unfolding bump
deleted [] ms = ms
deleted (i ∷ is) ms = map (bump (λ n. n -ℤ pos 1) i) (deleted is ms)

unfoldable pub is_blank : Option String → Bool
is_blank none = true
is_blank (some s) = str_eq s ""

-- What an INSERT into `interactions` violates: the foreign keys, the primary key, the index
-- `one_like_per_user_per_message` and the constraint `comment_has_content`.
unfoldable pub violates : Interaction → Db → Bool
unfolding is_blank
violates i db =
    not (exists (λ m. str_eq m.id i.message_id) db.messages)
    || not (exists (λ (u : User). str_eq u.id i.user_id) db.users)
    || exists (has_id i.id) db.interactions
    || (is_kind i.kind like && exists (is_like_of i.message_id i.user_id) db.interactions)
    || (is_kind i.kind comment && is_blank i.content)

unfoldable pub insert_interaction : Interaction → Db → Result (Unit {0}) × Db
unfolding violates
insert_interaction i db = if violates i db then (err failed, db) else (
  ok tt,
  record db { interactions = i ∷ db.interactions; messages = inserted i db.messages },
)

-- `DELETE FROM interactions WHERE …`, with the number of rows.
unfoldable pub delete_interactions : (Interaction → Bool) → Db → Result ℕ × Db
delete_interactions p db =
    let gone = select p db.interactions in
    (
      ok (length gone),
      record db {
        interactions = select (λ i. not (p i)) db.interactions;
        messages = deleted gone db.messages;
      },
    )

unfoldable pub id_of : Option Interaction → Result String
id_of none = err no_rows
id_of (some i) = ok i.id

unfoldable pub likes_of : Option MessageRow → Result ℤ
likes_of none = err no_rows
likes_of (some m) = ok m.likes_count

-- The two branches on what the first SELECT found.
unfoldable pub flip_like : String → ℕ → String → String → Result String → Query Bool
flip_like new_id now message_id user_id (ok existing_id) =
    statement (delete_interactions (has_id existing_id)) >> pure false
flip_like new_id now message_id user_id (err no_rows) =
    statement (
      insert_interaction (record {
        id = new_id;
        message_id = message_id;
        user_id = user_id;
        kind = like;
        content = none;
        created_at = now;
      }))
    >> pure true
flip_like new_id now message_id user_id (err e) = raise e

-- The SELECT of the count that the answer holds.
unfoldable pub answer_with : String → Bool → Query LikeResponse
unfolding likes_of
answer_with message_id liked = do
  count ← read (λ db. likes_of (first (λ m. str_eq m.id message_id) db.messages))
  pure (record { liked = liked; likes_count = count })

unfoldable pub toggle_like_body : String → ℕ → String → String → Query LikeResponse
unfolding flip_like id_of answer_with
toggle_like_body new_id now message_id user_id = do
  existing ← attempt (read (λ db. id_of (first (is_like_of message_id user_id) db.interactions)))
  liked ← flip_like new_id now message_id user_id existing
  answer_with message_id liked

-- `ToggleLike`
unfoldable pub toggle_like : String → ℕ → String → String → Query LikeResponse
unfolding toggle_like_body
toggle_like new_id now message_id user_id =
    transaction (toggle_like_body new_id now message_id user_id)

-- `AddComment`
unfoldable pub add_comment : String → ℕ → String → String → String → Query Interaction
add_comment new_id now message_id user_id content =
    let i : Interaction = record {
      id = new_id;
      message_id = message_id;
      user_id = user_id;
      kind = comment;
      content = some content;
      created_at = now;
    } in
    statement (insert_interaction i) >> pure i

-- `id = $1 AND user_id = $2 AND type = 'comment'`
abbrev pub is_comment_of : String → String → Interaction → Bool
is_comment_of comment_id user_id i =
    str_eq i.id comment_id && str_eq i.user_id user_id && is_kind i.kind comment

unfoldable pub found : ℕ → Query (Unit {0})
found n = if n == 0 then raise not_found else pure tt

-- `DeleteComment`
unfoldable pub delete_comment : String → String → Query (Unit {0})
unfolding found
delete_comment comment_id user_id = do
  n ← statement (delete_interactions (is_comment_of comment_id user_id))
  found n
