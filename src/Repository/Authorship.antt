-- ===== src/Repository/Authorship.antt =====
-- What the writers leave of the messages of other users: all that their authors wrote.
use geo_note.Common.{
  Option, none, some, ◌||◌, ◌≡◌, refl, ap, ◌∙◌, ◌≢◌, ◌⊎◌, String, Bool, true, false, List, [], ◌∷◌,
  map, select, not, exists, str_eq, inl, inr, Bool-cases, arith, eq_iff, if◌then◌else◌, ◌&&◌,
}
use geo_note.Common.Int.{ℤ, pos, ◌+ℤ◌, ◌-ℤ◌}
use geo_note.Model.{MessageRow, Interaction, Kind, like, comment, Report, Reaction, User}
use geo_note.Repository.Query.{Db}
use geo_note.Repository.Query.Frames.{Frame, keeping}
use geo_note.Repository.Users.{insert_user, user_violates}
use geo_note.Repository.Messages.Writes.{
  insert_message, message_violates, new_row, cascade, delete_messages, owned, insert_unlock,
  count_unlock, is_unlock, one_of,
}
use geo_note.Repository.Interactions.{
  insert_interaction, delete_interactions, violates, bump, inserted, deleted,
}
use geo_note.Repository.Reactions as Emojis
use geo_note.Repository.Reactions.{insert_reaction, delete_reaction}
use geo_note.Repository.Reports.{insert_report, hide_row, hide, reasons}
use geo_note.Repository.Gamification.{post_row, unlock_row}
use geo_note.Repository.Gamification.Quiet.{upsert-messages, badge_row-messages}
use geo_note.Repository.Writers.{Respects}

-- A message without the columns that the triggers and the moderation change.
pub as_written : MessageRow → MessageRow
as_written m = record m {
  likes_count = pos 0;
  comments_count = pos 0;
  unlocks_count = pos 0;
  is_hidden = false;
}

-- The messages of a user, as they were written.
abbrev pub written_by : String → List MessageRow → List MessageRow
written_by v ms = map as_written (select (λ m. str_eq m.user_id v) ms)

-- The messages of the user stay as they were written.
abbrev pub authored : String → Frame
authored v = keeping (λ db. written_by v db.messages)

Kind-cases : (k : Kind) → (k ≡ like) ⊎ (k ≡ comment)
Kind-cases like = inl refl
Kind-cases comment = inr refl

-- A change of a row that leaves what its author wrote.
abbrev Keeps : (MessageRow → MessageRow) → Type 0
Keeps f = (m : MessageRow) → ((f m).user_id ≡ m.user_id) × (as_written (f m) ≡ as_written m)

bump-Keeps : (f : ℤ → ℤ) (i : Interaction) → Keeps (bump f i)
unfolding bump as_written
bump-Keeps f i m = elim (Bool-cases (str_eq m.id i.message_id)) [
  | inl e ↦ elim (Kind-cases i.kind) [
    | inl k ↦ rw (e, k) (refl, refl)
    | inr k ↦ rw (e, k) (refl, refl)
  ]
  | inr e ↦ rw e (refl, refl)
]

count_unlock-Keeps : (id : String) → Keeps (count_unlock id)
unfolding count_unlock as_written
count_unlock-Keeps id m = elim (Bool-cases (str_eq m.id id)) [
  | inl e ↦ rw e (refl, refl)
  | inr e ↦ rw e (refl, refl)
]

hide-Keeps : (id : String) → Keeps (hide id)
unfolding hide as_written
hide-Keeps id m = elim (Bool-cases (str_eq m.id id)) [
  | inl e ↦ rw e (refl, refl)
  | inr e ↦ rw e (refl, refl)
]

cons_written :
    (b c : Bool) (m n : MessageRow) (xs ys : List MessageRow)
    → b ≡ c
    → as_written m ≡ as_written n
    → map as_written xs ≡ map as_written ys
    → map as_written (if b then m ∷ xs else xs) ≡ map as_written (if c then n ∷ ys else ys)
cons_written true true m n xs ys h e k = cc
cons_written false false m n xs ys h e k = k
cons_written true false m n xs ys h e k = absurd (cc)
cons_written false true m n xs ys h e k = absurd (cc)

module _ (v : String) where
  written-map :
      (f : MessageRow → MessageRow) (ms : List MessageRow)
      → Keeps f
      → written_by v (map f ms) ≡ written_by v ms
  written-map f [] keeps = refl
  written-map f (m ∷ ms) keeps =
      cons_written (str_eq (f m).user_id v) (str_eq m.user_id v) (f m) m
        (select (λ n. str_eq n.user_id v) (map f ms)) (select (λ n. str_eq n.user_id v) ms)
        (ap (λ u. str_eq u v) (keeps m).0) (keeps m).1 (written-map f ms keeps)

  written-deleted :
      (gone : List Interaction) (ms : List MessageRow)
      → written_by v (deleted gone ms) ≡ written_by v ms
  unfolding deleted
  written-deleted [] ms = refl
  written-deleted (i ∷ gone) ms =
      written-map (bump (λ n. n -ℤ pos 1) i) (deleted gone ms) (bump-Keeps (λ n. n -ℤ pos 1) i)
      ∙ written-deleted gone ms

  pub user-authored :
      (a : User) (db : Db) → written_by v (insert_user a db).1.messages ≡ written_by v db.messages
  unfolding insert_user
  user-authored a db = elim (Bool-cases (user_violates a db)) [
    | inl e ↦ rw e refl
    | inr e ↦ rw e refl
  ]

  module _ (u : String) (other : u ≢ v) where
    select-owned :
        (id : String) (ms : List MessageRow)
        → select (λ m. str_eq m.user_id v) (select (λ m. not (owned id u m)) ms)
          ≡ select (λ m. str_eq m.user_id v) ms
    select-owned id [] = refl
    select-owned id (m ∷ ms) = elim (Bool-cases (str_eq m.user_id v)) [
      | inl e ↦
          let w : str_eq m.user_id u ≡ false =
            ground (arith, other, eq_iff m.user_id v, eq_iff m.user_id u) in
          ground (arith, select-owned id ms)
      | inr e ↦ ground (arith, select-owned id ms)
    ]

    insert-authored :
        (m : MessageRow) (db : Db)
        → m.user_id ≡ u
        → written_by v (insert_message m db).1.messages ≡ written_by v db.messages
    unfolding insert_message
    insert-authored m db own = elim (Bool-cases (message_violates m db)) [
      | inl e ↦ rw e refl
      | inr e ↦
          let w : str_eq m.user_id v ≡ false = ground (arith, other, own, eq_iff m.user_id v) in
          rw (e, w) refl
    ]

    insert_interaction-authored :
        (i : Interaction) (db : Db)
        → written_by v (insert_interaction i db).1.messages ≡ written_by v db.messages
    unfolding insert_interaction inserted
    insert_interaction-authored i db = elim (Bool-cases (violates i db)) [
      | inl e ↦ rw e refl
      | inr e ↦
          rw e (written-map (bump (λ n. n +ℤ pos 1) i) db.messages (bump-Keeps (λ n. n +ℤ pos 1) i))
    ]

    unlock-authored :
        (id : String) (db : Db)
        → written_by v (insert_unlock id u db).1.messages ≡ written_by v db.messages
    unfolding insert_unlock
    unlock-authored id db = elim (Bool-cases (exists (is_unlock id u) db.unlocks)) [
      | inl e ↦ rw e refl
      | inr e ↦
          rw e
            (elim (Bool-cases (
              exists (λ (m : MessageRow). str_eq m.id id) db.messages
              && exists (λ (a : User). str_eq a.id u) db.users)) [
                | inl f ↦ rw f (written-map (count_unlock id) db.messages (count_unlock-Keeps id))
                | inr f ↦ rw f refl
              ])
    ]

    reaction-authored :
        (r : Reaction) (db : Db)
        → written_by v (insert_reaction r db).1.messages ≡ written_by v db.messages
    unfolding insert_reaction
    reaction-authored r db = elim (Bool-cases (Emojis.violates r db)) [
      | inl e ↦ rw e refl
      | inr e ↦ rw e refl
    ]

    report-authored :
        (conflicts : Report → Report → Bool) (r : Report) (db : Db)
        → written_by v (insert_report conflicts r db).1.messages ≡ written_by v db.messages
    unfolding insert_report
    report-authored conflicts r db =
        elim (Bool-cases
          (not (one_of reasons r.reason) || db.report_rules.refuses r db.users db.messages)) [
            | inl e ↦ rw e refl
            | inr e ↦ elim (Bool-cases (exists (conflicts r) db.reports)) [
              | inl f ↦ rw (e, f) refl
              | inr f ↦ rw (e, f) refl
            ]
          ]

    cascade-authored :
        (id : String) (db : Db) (left : Option (List Report))
        → written_by v (cascade (owned id u) db left).1.messages ≡ written_by v db.messages
    unfolding cascade
    cascade-authored id db none = refl
    cascade-authored id db (some reports) = ap (map as_written) (select-owned id db.messages)

    -- No statement that writes for a user changes what another has written.
    pub others-authored : Respects u (authored v)
    unfolding new_row delete_messages delete_interactions delete_reaction hide_row post_row
        unlock_row
    others-authored = record {
      message = λ parse_rfc3339 new_id now req db. insert-authored _ db refl;
      no_message = λ id db. cascade-authored id db _;
      unlock = unlock-authored;
      interaction = insert_interaction-authored;
      no_interaction = λ p db. written-deleted (select p db.interactions) db.messages;
      reaction = reaction-authored;
      no_reaction = λ id db. refl;
      report = report-authored;
      hidden = λ id db. written-map (hide id) db.messages (hide-Keeps id);
      post = λ today db. ap (written_by v) (upsert-messages u _ _ db);
      opening = λ db. ap (written_by v) (upsert-messages u _ _ db);
      award = λ now badge db. ap (written_by v) (badge_row-messages u now badge db);
      user = user-authored;
    }
