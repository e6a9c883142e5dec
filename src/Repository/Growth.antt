-- ===== src/Repository/Growth.antt =====
-- The tables from which nothing is ever taken away: `users` and `user_badges`.
use geo_note.Common.{
  ℕ, ◌≤◌, Bool, String, ◌&&◌, exists, tally, str_eq, arith, inl, inr, Bool-cases, not, ◌||◌, Option,
  none, some, List,
}
use geo_note.Model.{MessageRow, User, Badge, Report, Interaction, Reaction, UserStreak}
use geo_note.Repository.Query.{Db}
use geo_note.Repository.Query.Frames.{Frame}
use geo_note.Repository.Users.{insert_user, user_violates}
use geo_note.Repository.Messages.Writes.{
  insert_message, message_violates, cascade, delete_messages, insert_unlock, is_unlock, one_of,
}
use geo_note.Repository.Interactions.{insert_interaction, delete_interactions, violates}
use geo_note.Repository.Reactions as Emojis
use geo_note.Repository.Reactions.{insert_reaction, delete_reaction}
use geo_note.Repository.Reports.{insert_report, hide_row, reasons}
use geo_note.Repository.Gamification.{upsert, post_row, unlock_row, badge_row, has_user, has_badge}
use geo_note.Repository.Writers.{Respects}

-- Every row of these tables is still there.
abbrev pub Grown : Db → Db → Type 0
Grown a b =
    ((p : User → Bool) → tally p a.users ≤ tally p b.users)
    × ((p : Badge → Bool) → tally p a.badges ≤ tally p b.badges)

abbrev pub growing : Frame
growing = record {
  Change = Grown;
  same = λ db. (λ p. omega arith, λ p. omega arith);
  compose =
      λ a b c (hu, hb) (ku, kb). (λ p. omega (arith, hu p, ku p), λ p. omega (arith, hb p, kb p));
}

upsert-Grown :
    (u : String) (new : UserStreak) (update : UserStreak → UserStreak) (db : Db)
    → Grown db (upsert u new update db).1
upsert-Grown u new update db =
    elim (Bool-cases (exists (λ (row : UserStreak). str_eq row.user_id u) db.streaks)) [
      | inl e ↦ rw e (growing.same db)
      | inr e ↦ rw e (elim (Bool-cases (has_user u db)) [
        | inl f ↦ rw f (growing.same db)
        | inr f ↦ rw f (growing.same db)
      ])
    ]

badge-Grown :
    (u : String) (now : ℕ) (badge : String) (db : Db) → Grown db (badge_row u now badge db).1
unfolding badge_row
badge-Grown u now badge db = elim (Bool-cases (has_badge u badge db)) [
  | inl e ↦ rw e (growing.same db)
  | inr e ↦ rw e (elim (Bool-cases (has_user u db)) [
    | inl f ↦ rw f (λ p. omega arith, λ p. omega arith)
    | inr f ↦ rw f (growing.same db)
  ])
]

message-Grown : (m : MessageRow) (db : Db) → Grown db (insert_message m db).1
unfolding insert_message
message-Grown m db = elim (Bool-cases (message_violates m db)) [
  | inl e ↦ rw e (growing.same db)
  | inr e ↦ rw e (growing.same db)
]

unlock-Grown : (id u : String) (db : Db) → Grown db (insert_unlock id u db).1
unfolding insert_unlock
unlock-Grown id u db = elim (Bool-cases (exists (is_unlock id u) db.unlocks)) [
  | inl e ↦ rw e (growing.same db)
  | inr e ↦
      rw e
        (elim (Bool-cases (
          exists (λ (m : MessageRow). str_eq m.id id) db.messages
          && exists (λ (a : User). str_eq a.id u) db.users)) [
            | inl f ↦ rw f (growing.same db)
            | inr f ↦ rw f (growing.same db)
          ])
]

interaction-Grown : (i : Interaction) (db : Db) → Grown db (insert_interaction i db).1
unfolding insert_interaction
interaction-Grown i db = elim (Bool-cases (violates i db)) [
  | inl e ↦ rw e (growing.same db)
  | inr e ↦ rw e (growing.same db)
]

reaction-Grown : (r : Reaction) (db : Db) → Grown db (insert_reaction r db).1
unfolding insert_reaction
reaction-Grown r db = elim (Bool-cases (Emojis.violates r db)) [
  | inl e ↦ rw e (growing.same db)
  | inr e ↦ rw e (growing.same db)
]

report-Grown :
    (conflicts : Report → Report → Bool) (r : Report) (db : Db)
    → Grown db (insert_report conflicts r db).1
unfolding insert_report
report-Grown conflicts r db =
    elim (Bool-cases
      (not (one_of reasons r.reason) || db.report_rules.refuses r db.users db.messages)) [
        | inl e ↦ rw e (growing.same db)
        | inr e ↦ elim (Bool-cases (exists (conflicts r) db.reports)) [
          | inl f ↦ rw (e, f) (growing.same db)
          | inr f ↦ rw (e, f) (λ p. omega arith, λ p. omega arith)
        ]
      ]

cascade-Grown :
    (p : MessageRow → Bool) (db : Db) (left : Option (List Report)) → Grown db (cascade p db left).1
unfolding cascade
cascade-Grown p db none = growing.same db
cascade-Grown p db (some reports) = growing.same db

user-Grown : (u : User) (db : Db) → Grown db (insert_user u db).1
unfolding insert_user
user-Grown u db = elim (Bool-cases (user_violates u db)) [
  | inl e ↦ rw e (growing.same db)
  | inr e ↦ rw e (λ p. omega arith, λ p. omega arith)
]

-- Whoever writes, nothing is taken away from these tables.
pub all-growing : (u : String) → Respects u growing
unfolding delete_messages delete_interactions delete_reaction hide_row post_row unlock_row
all-growing u = record {
  message = λ parse_rfc3339 new_id now req db. message-Grown _ db;
  no_message = λ id db. cascade-Grown _ db _;
  unlock = λ id db. unlock-Grown id u db;
  interaction = interaction-Grown;
  no_interaction = λ p db. growing.same db;
  reaction = reaction-Grown;
  no_reaction = λ id db. growing.same db;
  report = report-Grown;
  hidden = λ id db. growing.same db;
  post = λ today db. upsert-Grown u _ _ db;
  opening = λ db. upsert-Grown u _ _ db;
  award = λ now badge db. badge-Grown u now badge db;
  user = user-Grown;
}
