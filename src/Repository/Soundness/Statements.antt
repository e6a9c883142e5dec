-- ===== src/Repository/Soundness/Statements.antt =====
-- Every statement that writes keeps the tables sound.
use geo_note.Common.{
  ℕ, ◌≡◌, refl, String, Bool, true, false, Option, List, [], ◌∷◌, map, select, exists, str_eq,
  arith, Bool-cases, none, some, inl, inr, ◌&&◌, not,
}
use geo_note.Common.Int.{ℤ, pos, ◌+ℤ◌, ◌-ℤ◌}
use geo_note.Model.{User, MessageRow, Interaction, Report, CreateMessageRequest}
use geo_note.Repository.Query.{Db}
use geo_note.Repository.Messages.Writes.{
  insert_message, message_violates, new_row, cascade, reports_left, delete_messages, insert_unlock,
  count_unlock, is_unlock,
}
use geo_note.Repository.Interactions.{
  insert_interaction, delete_interactions, violates, bump, inserted, deleted,
}
use geo_note.Repository.Soundness.{IsSound, Authored, Unlocked}
use geo_note.Repository.Soundness.Keys.{known, known-map}
use geo_note.Repository.Soundness.Names.{
  Registered-select, Registered-unlock, Registered-interact, Registered-withdraw, who-interacts,
}
use geo_note.Repository.Soundness.Owners.{Authored-insert, Authored-map, Authored-delete}
use geo_note.Repository.Soundness.Reactions.{Reacted-grows, Reacted-cascade}
use geo_note.Repository.Soundness.Likes.{
  Interacted-map, Interacted-insert, Interacted-cascade, insert-Interacted, delete-Interacted,
  known-deleted,
}
use geo_note.Repository.Soundness.Unlocks.{
  Unlocked-map, Unlocked-insert, Unlocked-cascade, Unlocked-unlock,
}

allowed :
    (m : MessageRow) (db : Db)
    → message_violates m db ≡ false
    → (exists (λ (u : User). str_eq u.id m.user_id) db.users ≡ true)
      × (known m.id db.messages ≡ false)
unfolding message_violates
allowed m db h = (ground arith, ground arith)

pub insert_message-IsSound :
    (parse_rfc3339 : String → Option ℕ) (new_id : String) (now : ℕ) (u : String)
    (req : CreateMessageRequest) (db : Db)
    → IsSound db
    → IsSound (insert_message (new_row parse_rfc3339 new_id now u req) db).1
unfolding insert_message new_row
insert_message-IsSound parse_rfc3339 new_id now u req db s =
    let m = new_row parse_rfc3339 new_id now u req in
    elim (Bool-cases (message_violates m db)) [
      | inl e ↦ rw e s
      | inr e ↦
          let (author, fresh) = allowed m db e in
          rw e (record {
            accounts = s.accounts;
            authored = Authored-insert m db.users db.messages fresh author s.authored;
            interacted =
                Interacted-insert m db.messages db.interactions fresh refl refl s.interacted;
            reacted =
                Reacted-grows db.messages (m ∷ db.messages) db.reactions
                  (λ k there. ground (arith, there)) s.reacted;
            unlocked = Unlocked-insert m db.messages db.unlocks fresh refl s.unlocked;
            profiled = s.profiled;
            registered = s.registered;
          })
    ]

cascade-IsSound :
    (p : MessageRow → Bool) (db : Db) (left : Option (List Report))
    → IsSound db
    → IsSound (cascade p db left).1
unfolding cascade
cascade-IsSound p db none s = s
cascade-IsSound p db (some reports) s = record {
  accounts = s.accounts;
  authored = Authored-delete p db.users db.messages s.authored;
  interacted = Interacted-cascade p db.messages db.interactions s.authored.one_id s.interacted;
  reacted = Reacted-cascade p db.messages db.reactions s.reacted;
  unlocked = Unlocked-cascade p db.messages db.unlocks s.authored.one_id s.unlocked;
  profiled = s.profiled;
  registered =
      Registered-select db.users db.interactions db.unlocks db.reactions db.streaks db.badges
        s.registered _ _ _;
}

pub delete_messages-IsSound :
    (p : MessageRow → Bool) (db : Db) → IsSound db → IsSound (delete_messages p db).1
unfolding delete_messages
delete_messages-IsSound p db = cascade-IsSound p db (reports_left p db)

count_unlock-keeps :
    (id : String) (m : MessageRow)
    → ((count_unlock id m).id ≡ m.id)
      × ((count_unlock id m).user_id ≡ m.user_id)
      × ((count_unlock id m).likes_count ≡ m.likes_count)
      × ((count_unlock id m).comments_count ≡ m.comments_count)
unfolding count_unlock
count_unlock-keeps id m = (ground arith, ground arith, ground arith, ground arith)

pub insert_unlock-IsSound :
    (id u : String) (db : Db) → IsSound db → IsSound (insert_unlock id u db).1
unfolding insert_unlock
insert_unlock-IsSound id u db s = elim (Bool-cases (exists (is_unlock id u) db.unlocks)) [
  | inl e ↦ rw e s
  | inr e ↦
      let there = exists (λ (m : MessageRow). str_eq m.id id) db.messages in
      rw e (elim (Bool-cases (there && exists (λ (a : User). str_eq a.id u) db.users)) [
        | inl f ↦
            let keeps = count_unlock-keeps id in
            rw f (record {
              accounts = s.accounts;
              authored =
                  Authored-map (count_unlock id) db.users db.messages
                    (λ m. ((keeps m).0, (keeps m).1)) s.authored;
              interacted =
                  Interacted-map (count_unlock id) db.messages db.interactions
                    (λ m. ((keeps m).0, (keeps m).2, (keeps m).3)) s.interacted;
              reacted =
                  Reacted-grows db.messages (map (count_unlock id) db.messages) db.reactions
                    (λ k was. rw (known-map (count_unlock id) (λ m. (keeps m).0) k db.messages) was)
                    s.reacted;
              unlocked =
                  Unlocked-unlock id u db.messages db.unlocks e (ground (arith, f)) s.unlocked;
              profiled = s.profiled;
              registered =
                  Registered-unlock db.users db.interactions db.unlocks db.reactions db.streaks
                    db.badges s.registered (record { message_id = id; user_id = u })
                    (ground (arith, f));
            })
        | inr f ↦ rw f s
      ])
]

bump-keeps :
    (f : ℤ → ℤ) (i : Interaction) (m : MessageRow)
    → ((bump f i m).id ≡ m.id)
      × ((bump f i m).user_id ≡ m.user_id)
      × ((bump f i m).unlocks_count ≡ m.unlocks_count)
unfolding bump
bump-keeps f i m = (ground arith, ground arith, ground arith)

Authored-bump :
    (f : ℤ → ℤ) (i : Interaction) (users : List User) (ms : List MessageRow)
    → Authored users ms
    → Authored users (map (bump f i) ms)
Authored-bump f i users ms =
    Authored-map (bump f i) users ms (λ m. let (id, user, n) = bump-keeps f i m in (id, user))

pub insert_interaction-IsSound :
    (i : Interaction) (db : Db) → IsSound db → IsSound (insert_interaction i db).1
unfolding insert_interaction inserted
insert_interaction-IsSound i db s =
    let more = bump (λ n. n +ℤ pos 1) i in
    let keeps = bump-keeps (λ n. n +ℤ pos 1) i in
    elim (Bool-cases (violates i db)) [
      | inl e ↦ rw e s
      | inr e ↦ rw e (record {
        accounts = s.accounts;
        authored = Authored-bump (λ n. n +ℤ pos 1) i db.users db.messages s.authored;
        interacted = insert-Interacted i db e s.interacted;
        reacted =
            Reacted-grows db.messages (map more db.messages) db.reactions
              (λ k was. rw (known-map more (λ m. (keeps m).0) k db.messages) was) s.reacted;
        unlocked =
            Unlocked-map more db.messages db.unlocks (λ m. ((keeps m).0, (keeps m).2)) s.unlocked;
        profiled = s.profiled;
        registered =
            Registered-interact db.users db.interactions db.unlocks db.reactions db.streaks
              db.badges s.registered i (who-interacts i db e);
      })
    ]

Authored-deleted :
    (gone : List Interaction) (db : Db)
    → Authored db.users db.messages
    → Authored db.users (deleted gone db.messages)
unfolding deleted
Authored-deleted [] db h = h
Authored-deleted (i ∷ gone) db h =
    Authored-bump (λ n. n -ℤ pos 1) i db.users (deleted gone db.messages)
      (Authored-deleted gone db h)

Unlocked-deleted :
    (gone : List Interaction) (db : Db)
    → Unlocked db.messages db.unlocks
    → Unlocked (deleted gone db.messages) db.unlocks
unfolding deleted
Unlocked-deleted [] db h = h
Unlocked-deleted (i ∷ gone) db h =
    let keeps = bump-keeps (λ n. n -ℤ pos 1) i in
    Unlocked-map (bump (λ n. n -ℤ pos 1) i) (deleted gone db.messages) db.unlocks
      (λ m. ((keeps m).0, (keeps m).2)) (Unlocked-deleted gone db h)

pub delete_interactions-IsSound :
    (q : Interaction → Bool) (db : Db) → IsSound db → IsSound (delete_interactions q db).1
unfolding delete_interactions
delete_interactions-IsSound q db s =
    let gone = select q db.interactions in
    record {
      accounts = s.accounts;
      authored = Authored-deleted gone db s.authored;
      interacted = delete-Interacted q db s.interacted;
      reacted =
          Reacted-grows db.messages (deleted gone db.messages) db.reactions
            (λ k was. rw (known-deleted k gone db.messages) was) s.reacted;
      unlocked = Unlocked-deleted gone db s.unlocked;
      profiled = s.profiled;
      registered =
          Registered-withdraw db.users db.interactions db.unlocks db.reactions db.streaks db.badges
            s.registered (λ i. not (q i));
    }
