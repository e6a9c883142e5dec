-- ===== src/Repository/Soundness.antt =====
-- What holds of the tables at any time: the keys, the references and the counters of backend/migrations,
-- which the statements of the repositories and the triggers keep up.
pub mod Keys
pub mod Owners
pub mod Names
pub mod Statements
pub mod Whole
pub mod Likes
pub mod Reactions
pub mod Unlocks
use geo_note.Common.{ℕ, ◌≤◌, ◌≡◌, String, Bool, true, false, List, tally, exists, All, str_eq}
use geo_note.Common.Int.{ℤ, pos}
use geo_note.Model.{User, MessageRow, Interaction, Unlock, Reaction, UserStreak, Badge}
use geo_note.Repository.Query.{Db}
use geo_note.Repository.Query.Frames.{Frame}
use geo_note.Repository.Interactions.{is_like_of, has_id}
use geo_note.Repository.Interactions.Counts.{CountsAre, rows_in}
use geo_note.Repository.Messages.Writes.{is_unlock}
use geo_note.Repository.Reactions as Emojis
use geo_note.Repository.Gamification.{is_badge}
use Keys.{has_key, known, Unique, Refers}

-- Every row names a user who is there.
abbrev pub is_named : String → List User → Bool
is_named k users = exists (λ (u : User). str_eq u.id k) users

abbrev pub Named : {A : Type 0} → (A → String) → List User → List A → Type 0
Named key users rows = All (λ a. is_named (key a) users ≡ true) rows

-- `users`: the primary key and the two UNIQUE columns.
pub record Accounts (users : List User) : Type 0 where
  pub one_id : (k : String) → tally (λ (u : User). str_eq u.id k) users ≤ 1
  pub one_name : (k : String) → tally (λ (u : User). str_eq u.username k) users ≤ 1
  pub one_mail : (k : String) → tally (λ (u : User). str_eq u.email k) users ≤ 1

-- `messages`: the primary key and the reference to the author.
pub record Authored (users : List User) (messages : List MessageRow) : Type 0 where
  pub one_id : Unique messages
  pub author :
      All (λ (m : MessageRow). exists (λ (u : User). str_eq u.id m.user_id) users ≡ true) messages

-- `interactions`: the primary key, one like at most for a user and a message, the reference to the
-- message, and the counters of the messages, which are the numbers of rows.
pub record Interacted (messages : List MessageRow) (rows : List Interaction) : Type 0 where
  pub one_like : (m u : String) → tally (is_like_of m u) rows ≤ 1
  pub one_id : (k : String) → tally (has_id k) rows ≤ 1
  pub counted : All (CountsAre (λ _. pos 0) (λ _. pos 0) (rows_in rows)) messages
  pub refers : Refers (λ (i : Interaction). i.message_id) messages rows

-- `reactions`: the primary key, one at most for a user, a message and an emoji, and the reference.
pub record Reacted (messages : List MessageRow) (rows : List Reaction) : Type 0 where
  pub one_each : (m u emoji : String) → tally (Emojis.is_reaction m u emoji) rows ≤ 1
  pub one_id : (k : String) → tally (Emojis.has_id k) rows ≤ 1
  pub refers : Refers (λ (r : Reaction). r.message_id) messages rows

-- The number of unlocks of a message is that of its rows.
abbrev pub UnlocksAre : List Unlock → MessageRow → Type 0
UnlocksAre rows m = m.unlocks_count ≡ pos (tally (λ (u : Unlock). str_eq u.message_id m.id) rows)

-- `message_unlocks`: the primary key, the reference, and the counter of the messages.
pub record Unlocked (messages : List MessageRow) (rows : List Unlock) : Type 0 where
  pub one_each : (m u : String) → tally (is_unlock m u) rows ≤ 1
  pub refers : Refers (λ (u : Unlock). u.message_id) messages rows
  pub counted : All (UnlocksAre rows) messages

-- `user_streaks` and `user_badges`: their primary keys.
pub record Profiled (streaks : List UserStreak) (badges : List Badge) : Type 0 where
  pub one_streak : (u : String) → tally (λ (s : UserStreak). str_eq s.user_id u) streaks ≤ 1
  pub one_badge : (u b : String) → tally (is_badge u b) badges ≤ 1

-- The references to users of the other five tables.
pub record Registered (users : List User) (interactions : List Interaction) (unlocks : List Unlock)
    (reactions : List Reaction) (streaks : List UserStreak) (badges : List Badge) : Type 0 where
  pub by_interaction : Named (λ (i : Interaction). i.user_id) users interactions
  pub by_unlock : Named (λ (u : Unlock). u.user_id) users unlocks
  pub by_reaction : Named (λ (r : Reaction). r.user_id) users reactions
  pub by_streak : Named (λ (s : UserStreak). s.user_id) users streaks
  pub by_badge : Named (λ (b : Badge). b.user_id) users badges

pub record IsSound (db : Db) : Type 0 where
  pub accounts : Accounts db.users
  pub authored : Authored db.users db.messages
  pub interacted : Interacted db.messages db.interactions
  pub reacted : Reacted db.messages db.reactions
  pub unlocked : Unlocked db.messages db.unlocks
  pub profiled : Profiled db.streaks db.badges
  pub registered : Registered db.users db.interactions db.unlocks db.reactions db.streaks db.badges

-- Sound tables stay sound.
abbrev pub sound : Frame
sound = record {
  Change = λ a b. IsSound a → IsSound b;
  same = λ db s. s;
  compose = λ a b c h k s. k (h s);
}
