-- ===== src/Repository/Soundness/Likes.antt =====
-- The table `interactions` and its counters through each statement that touches it or `messages`.
use geo_note.Common.{
  ◌≡◌, refl, ◌∙◌, String, Bool, true, false, List, [], ◌∷◌, map, not, select, arith, eq_iff,
}
use geo_note.Common.Int.{ℤ, pos, ◌+ℤ◌, ◌-ℤ◌}
use geo_note.Common.Rows.{tally-split, All-imp, All-map}
use mathlib.Core.Path.{subst}
use geo_note.Model.{MessageRow, Interaction, Kind, like, comment}
use geo_note.Repository.Query.{Db}
use geo_note.Repository.Interactions.{
  is_like_of, has_id, violates, bump, inserted, deleted, insert_interaction, delete_interactions,
}
use geo_note.Repository.Interactions.Counts.{
  IsConsistent, CountsAre, rows_in, is_on, insert_interaction-IsConsistent,
  delete_interactions-IsConsistent,
}
use geo_note.Repository.Soundness.{Interacted}
use geo_note.Repository.Soundness.Keys.{
  known, Unique, Refers, Refers-known, Refers-absent, Refers-cascade, All-select, All-both, is_gone,
  KeepsId, known-map, stays-not-gone, tally-cascade,
}

abbrev zero_at : String → ℤ
zero_at id = pos 0

abbrev Counts : List Interaction → MessageRow → Type 0
Counts rows = CountsAre zero_at zero_at (rows_in rows)

-- An UPDATE that leaves the keys and both counters.
pub Interacted-map :
    (f : MessageRow → MessageRow) (ms : List MessageRow) (rows : List Interaction)
    → ((m : MessageRow)
        → ((f m).id ≡ m.id)
          × ((f m).likes_count ≡ m.likes_count)
          × ((f m).comments_count ≡ m.comments_count))
    → Interacted ms rows
    → Interacted (map f ms) rows
Interacted-map f ms rows keeps h = record {
  one_like = h.one_like;
  one_id = h.one_id;
  counted =
      All-map (Counts rows) (Counts rows) f ms
        (λ m (l, c). let (id, ls, cs) = keeps m in (rw (id, ls) l, rw (id, cs) c)) h.counted;
  refers =
      Refers-known (λ (i : Interaction). i.message_id) ms (map f ms) rows
        (λ k there. rw (known-map f (λ m. (keeps m).0) k ms) there) h.refers;
}

no_rows :
    (kind : Kind) (k : String) (ms : List MessageRow) (rows : List Interaction)
    → known k ms ≡ false
    → Interacted ms rows
    → rows_in rows kind k ≡ 0
no_rows kind k ms rows fresh h =
    Refers-absent (λ (i : Interaction). i.message_id) (is_on kind k) k ms rows
      (λ i e. ground (arith, eq_iff i.message_id k)) fresh h.refers

pub Interacted-insert :
    (m : MessageRow) (ms : List MessageRow) (rows : List Interaction)
    → known m.id ms ≡ false
    → m.likes_count ≡ pos 0
    → m.comments_count ≡ pos 0
    → Interacted ms rows
    → Interacted (m ∷ ms) rows
unfolding ◌+ℤ◌
Interacted-insert m ms rows fresh likes comments h = record {
  one_like = h.one_like;
  one_id = h.one_id;
  counted = (
    (
      rw (likes, no_rows like m.id ms rows fresh h) refl,
      rw (comments, no_rows comment m.id ms rows fresh h) refl,
    ),
    h.counted,
  );
  refers =
      Refers-known (λ (i : Interaction). i.message_id) ms (m ∷ ms) rows
        (λ k there. ground (arith, there)) h.refers;
}

pub Interacted-cascade :
    (p : MessageRow → Bool) (ms : List MessageRow) (rows : List Interaction)
    → Unique ms
    → Interacted ms rows
    → Interacted (select (λ m. not (p m)) ms) (select (λ i. not (is_gone p ms i.message_id)) rows)
Interacted-cascade p ms rows unique h =
    let left = select (λ m. not (p m)) ms in
    let key = λ (i : Interaction). i.message_id in
    let gone = λ (i : Interaction). is_gone p ms i.message_id in
    let kept = select (λ (i : Interaction). not (gone i)) rows in
    record {
      one_like = λ m u. omega (arith, h.one_like m u, tally-split (is_like_of m u) gone rows);
      one_id = λ k. omega (arith, h.one_id k, tally-split (has_id k) gone rows);
      counted =
          All-imp (λ (m : MessageRow). Counts rows m × (is_gone p ms m.id ≡ false)) (Counts kept)
            left
            (λ m ((l, c), stays). (
              rw
                  (tally-cascade p key (is_on like m.id) m.id ms rows
                    (λ i e. ground (arith, eq_iff i.message_id m.id)) stays)
                  l,
              rw
                  (tally-cascade p key (is_on comment m.id) m.id ms rows
                    (λ i e. ground (arith, eq_iff i.message_id m.id)) stays)
                  c,
            ))
            (All-both (Counts rows) (λ m. is_gone p ms m.id ≡ false) left
              (All-select (Counts rows) (λ m. not (p m)) ms h.counted)
              (stays-not-gone p ms unique));
      refers = Refers-cascade p key ms rows h.refers;
    }

-- The trigger leaves the keys.
bump-id : (f : ℤ → ℤ) (i : Interaction) → KeepsId (bump f i)
unfolding bump
bump-id f i m = ground arith

pub known-deleted :
    (k : String) (gone : List Interaction) (ms : List MessageRow)
    → known k (deleted gone ms) ≡ known k ms
unfolding deleted
known-deleted k [] ms = refl
known-deleted k (i ∷ gone) ms =
    known-map (bump (λ n. n -ℤ pos 1) i) (bump-id (λ n. n -ℤ pos 1) i) k (deleted gone ms)
    ∙ known-deleted k gone ms

there-is :
    (i : Interaction) (db : Db) → violates i db ≡ false → known i.message_id db.messages ≡ true
unfolding violates
there-is i db h = ground arith

consistent : (db : Db) → Interacted db.messages db.interactions → IsConsistent zero_at zero_at db
consistent db h = record { one_like = h.one_like; unique_id = h.one_id; counted = h.counted }

of_consistent :
    (db : Db)
    → IsConsistent zero_at zero_at db
    → Refers (λ (i : Interaction). i.message_id) db.messages db.interactions
    → Interacted db.messages db.interactions
of_consistent db s refers = record {
  one_like = s.one_like;
  one_id = s.unique_id;
  counted = s.counted;
  refers = refers;
}

pub insert-Interacted :
    (i : Interaction) (db : Db)
    → violates i db ≡ false
    → Interacted db.messages db.interactions
    → Interacted (inserted i db.messages) (i ∷ db.interactions)
unfolding inserted insert_interaction
insert-Interacted i db fine h =
    let after : Db = record db {
      interactions = i ∷ db.interactions;
      messages = inserted i db.messages;
    } in
    let grown : (k : String)
        → known k db.messages ≡ true
        → known k (inserted i db.messages) ≡ true =
      λ k was.
        rw (known-map (bump (λ n. n +ℤ pos 1) i) (bump-id (λ n. n +ℤ pos 1) i) k db.messages) was in
    let e : (insert_interaction i db).1 ≡ after = rw fine refl in
    of_consistent after
      (subst (IsConsistent zero_at zero_at) e
        (insert_interaction-IsConsistent zero_at zero_at i db (consistent db h)))
      (
        grown i.message_id (there-is i db fine),
        Refers-known (λ (j : Interaction). j.message_id) db.messages (inserted i db.messages)
            db.interactions grown h.refers,
      )

pub delete-Interacted :
    (q : Interaction → Bool) (db : Db)
    → Interacted db.messages db.interactions
    → Interacted
        (deleted (select q db.interactions) db.messages)
        (select (λ i. not (q i)) db.interactions)
unfolding delete_interactions
delete-Interacted q db h =
    let gone = select q db.interactions in
    let key = λ (i : Interaction). i.message_id in
    of_consistent (delete_interactions q db).1
      (delete_interactions-IsConsistent zero_at zero_at q db (consistent db h))
      (Refers-known key db.messages (deleted gone db.messages)
        (select (λ i. not (q i)) db.interactions)
        (λ k was. rw (known-deleted k gone db.messages) was)
        (All-select (λ i. known (key i) db.messages ≡ true) (λ i. not (q i)) db.interactions
          h.refers))
