-- ===== src/Repository/Interactions/Listing.antt =====
-- A comment that was added is listed.
use geo_note.Common.{
  ℕ, ◌≡◌, refl, ap, String, Bool, true, false, some, List, [], ◌∷◌, tally, select, exists, str_eq,
  eq_iff, arith,
}
use geo_note.Common.Rows.{exists-first}
use geo_note.Model.{User, Interaction, comment}
use geo_note.Repository.Query.{Result, ok, Db, statement, pure}
use geo_note.Repository.Query.Rules.{steady, >>=-ok}
use geo_note.Repository.Messages.Rows.{author}
use geo_note.Repository.Interactions.{add_comment, insert_interaction, violates, inserted}
use geo_note.Repository.Interactions.Comments.{
  Comment, is_on, with_names, insert_comment, oldest_first, comments_of, get_comments,
}

insert_comment-tally :
    (p : Comment → Bool) (c : Comment) (cs : List Comment)
    → tally p (insert_comment c cs) ≡ tally p (c ∷ cs)
unfolding insert_comment
insert_comment-tally p c [] = refl
insert_comment-tally p c (d ∷ ds) = ground (arith, insert_comment-tally p c ds)

oldest_first-tally :
    (p : Comment → Bool) (cs : List Comment) → tally p (oldest_first cs) ≡ tally p cs
unfolding oldest_first
oldest_first-tally p [] = refl
oldest_first-tally p (c ∷ cs) =
    omega (arith, insert_comment-tally p c (oldest_first cs), oldest_first-tally p cs)

module _ (new_id : String) (now : ℕ) (message_id user_id content : String) where
  abbrev pub added : Interaction
  added = record {
    id = new_id;
    message_id = message_id;
    user_id = user_id;
    kind = comment;
    content = some content;
    created_at = now;
  }

  abbrev pub with_comment : Db → Db
  with_comment db = record db {
    interactions = added ∷ db.interactions;
    messages = inserted added db.messages;
  }

  added_known :
      (db : Db)
      → violates added db ≡ false
      → exists (λ (u : User). str_eq u.id user_id) db.users ≡ true
  unfolding violates
  added_known db fits = ground arith

  insert-fits :
      (db : Db) → violates added db ≡ false → insert_interaction added db ≡ (ok tt, with_comment db)
  unfolding insert_interaction
  insert-fits db fits = rw fits refl

  add_comment-fits :
      (db : Db)
      → violates added db ≡ false
      → add_comment new_id now message_id user_id content (steady db)
        ≡ (ok added, steady (with_comment db))
  unfolding add_comment
  add_comment-fits db fits =
      >>=-ok (statement (insert_interaction added)) (λ _. pure added) (steady db)
        (steady (with_comment db)) tt
        (ap (λ (r : Result (Unit {0}) × Db). (r.0, steady r.1)) (insert-fits db fits))

  comments_of-added :
      (db : Db) (u : User) (p : Comment → Bool)
      → author user_id db.users ≡ some u
      → tally p (comments_of message_id (with_comment db))
        ≡ tally p (record { row = added; username = u.username } ∷ comments_of message_id db)
  unfolding comments_of with_names
  comments_of-added db u p known =
      rw ((eq_iff message_id message_id).1 refl, known)
        (omega (
          arith,
          oldest_first-tally p (
              record { row = added; username = u.username }
              ∷ with_names db.users (select (is_on message_id) db.interactions)),
          oldest_first-tally p (with_names db.users (select (is_on message_id) db.interactions)),
        ))

  -- On a database that answers, where the new row violates no constraint, `AddComment` succeeds, and
  -- `GetComments` then lists the comment with its author's name once, beside the comments of the
  -- message that it listed before, each as many times.
  pub get_comments-add_comment :
      (db : Db)
      → violates added db ≡ false
      → (add_comment new_id now message_id user_id content (steady db)
          ≡ (ok added, steady (with_comment db)))
        × ((u : User) × (author user_id db.users ≡ some u)
            × (get_comments message_id (steady (with_comment db))
                ≡ (ok (comments_of message_id (with_comment db)), steady (with_comment db)))
            × ((p : Comment → Bool)
                → tally p (comments_of message_id (with_comment db))
                  ≡ tally p
                      (record { row = added; username = u.username } ∷ comments_of message_id db)))
  unfolding get_comments
  get_comments-add_comment db fits =
      let (u, known) =
        exists-first (λ (v : User). str_eq v.id user_id) db.users (added_known db fits) in
      (add_comment-fits db fits, (u, known, refl, λ p. comments_of-added db u p known))
