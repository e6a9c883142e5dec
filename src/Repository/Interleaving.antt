-- ===== src/Repository/Interleaving.antt =====
-- The statements of concurrent requests, one after the other in any order: a request whose handler runs
-- several statements may find those of others between them. A statement that is rolled back counts as not run.
use geo_note.Common.{ℕ, String, Bool, Option}
use geo_note.Model.{User, CreateMessageRequest, Interaction, Reaction, Report}
use geo_note.Repository.Query.{Db}
use geo_note.Repository.Query.Frames.{Frame}
use geo_note.Repository.Users.{insert_user}
use geo_note.Repository.Messages.Writes.{
  insert_message, new_row, delete_messages, owned, insert_unlock,
}
use geo_note.Repository.Interactions.{insert_interaction, delete_interactions}
use geo_note.Repository.Reactions.{insert_reaction, delete_reaction}
use geo_note.Repository.Reports.{insert_report, hide_row}
use geo_note.Repository.Gamification.{post_row, unlock_row, badge_row}
use geo_note.Repository.Writers.{Respects}
use geo_note.Repository.Soundness.{IsSound, sound}
use geo_note.Repository.Soundness.Whole.{all-sound}

-- One statement that writes, of any request of the user `u`.
pub data Write (u : String) : Db → Db → Type 0 where
  posts :
      (parse_rfc3339 : String → Option ℕ) (new_id : String) (now : ℕ) (req : CreateMessageRequest)
      (db : Db)
      → Write u db (insert_message (new_row parse_rfc3339 new_id now u req) db).1
  deletes : (id : String) (db : Db) → Write u db (delete_messages (owned id u) db).1
  unlocks : (id : String) (db : Db) → Write u db (insert_unlock id u db).1
  interacts : (i : Interaction) (db : Db) → Write u db (insert_interaction i db).1
  withdraws : (p : Interaction → Bool) (db : Db) → Write u db (delete_interactions p db).1
  reacts : (r : Reaction) (db : Db) → Write u db (insert_reaction r db).1
  unreacts : (id : String) (db : Db) → Write u db (delete_reaction id db).1
  reports :
      (conflicts : Report → Report → Bool) (r : Report) (db : Db)
      → Write u db (insert_report conflicts r db).1
  hides : (id : String) (db : Db) → Write u db (hide_row id db).1
  counts_post : (today : ℕ) (db : Db) → Write u db (post_row u today db).1
  counts_unlock : (db : Db) → Write u db (unlock_row u db).1
  awards : (now : ℕ) (badge : String) (db : Db) → Write u db (badge_row u now badge db).1
  registers : (v : User) (db : Db) → Write u db (insert_user v db).1

-- Statements of any users, in any order.
pub data Writes (a : Db) : Db → Type 0 where
  none_yet : Writes a a
  and_then : {b c : Db} (u : String) → Writes a b → Write u b c → Writes a c

module _ (F : Frame) where
  Write-Change : {u : String} {a b : Db} → Respects u F → Write u a b → F.Change a b
  Write-Change w (posts parse_rfc3339 new_id now req db) = w.message parse_rfc3339 new_id now req db
  Write-Change w (deletes id db) = w.no_message id db
  Write-Change w (unlocks id db) = w.unlock id db
  Write-Change w (interacts i db) = w.interaction i db
  Write-Change w (withdraws p db) = w.no_interaction p db
  Write-Change w (reacts r db) = w.reaction r db
  Write-Change w (unreacts id db) = w.no_reaction id db
  Write-Change w (reports conflicts r db) = w.report conflicts r db
  Write-Change w (hides id db) = w.hidden id db
  Write-Change w (counts_post today db) = w.post today db
  Write-Change w (counts_unlock db) = w.opening db
  Write-Change w (awards now badge db) = w.award now badge db
  Write-Change w (registers v db) = w.user v db

  Writes-Change : {a b : Db} → ((u : String) → Respects u F) → Writes a b → F.Change a b
  Writes-Change {a} w none_yet = F.same a
  Writes-Change {a} w (and_then {b} {c} u r s) =
      F.compose a b c (Writes-Change w r) (Write-Change (w u) s)

-- Whatever statements of whatever users write and in whatever order, sound tables stay sound: keys are
-- unique, the references of messages, interactions, unlocks, reactions, streaks and badges point to
-- rows that are there, and every counter is its number of rows.
pub Writes-IsSound : {a b : Db} → Writes a b → IsSound a → IsSound b
Writes-IsSound = Writes-Change sound all-sound
