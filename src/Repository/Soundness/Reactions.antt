-- ===== src/Repository/Soundness/Reactions.antt =====
-- The table `reactions` through each statement that touches it or `messages`.
use geo_note.Common.{
  ◌≡◌, String, Bool, true, false, List, ◌∷◌, not, select, tally, exists, arith, eq_iff,
}
use geo_note.Common.Rows.{tally-split, exists-tally}
use geo_note.Model.{MessageRow, Reaction}
use geo_note.Repository.Query.{Db}
use geo_note.Repository.Reactions.{is_reaction, has_id, violates}
use geo_note.Repository.Soundness.{Reacted}
use geo_note.Repository.Soundness.Keys.{known, Refers-known, Refers-cascade, All-select, is_gone}

-- No message that was there is missing.
pub Reacted-grows :
    (ms ns : List MessageRow) (rows : List Reaction)
    → ((k : String) → known k ms ≡ true → known k ns ≡ true)
    → Reacted ms rows
    → Reacted ns rows
Reacted-grows ms ns rows grows h = record {
  one_each = h.one_each;
  one_id = h.one_id;
  refers = Refers-known (λ (r : Reaction). r.message_id) ms ns rows grows h.refers;
}

pub Reacted-cascade :
    (p : MessageRow → Bool) (ms : List MessageRow) (rows : List Reaction)
    → Reacted ms rows
    → Reacted (select (λ m. not (p m)) ms) (select (λ r. not (is_gone p ms r.message_id)) rows)
Reacted-cascade p ms rows h = record {
  one_each = λ m u e. omega (
    arith,
    h.one_each m u e,
    tally-split (is_reaction m u e) (λ r. is_gone p ms r.message_id) rows,
  );
  one_id =
      λ k. omega (arith, h.one_id k, tally-split (has_id k) (λ r. is_gone p ms r.message_id) rows);
  refers = Refers-cascade p (λ (r : Reaction). r.message_id) ms rows h.refers;
}

allowed :
    (r : Reaction) (db : Db)
    → violates r db ≡ false
    → (known r.message_id db.messages ≡ true)
      × (exists (has_id r.id) db.reactions ≡ false)
      × (exists (is_reaction r.message_id r.user_id r.emoji) db.reactions ≡ false)
unfolding violates
allowed r db h = (ground arith, ground arith, ground arith)

same-reaction :
    (r : Reaction) (m u e : String) (rows : List Reaction)
    → is_reaction m u e r ≡ true
    → exists (is_reaction r.message_id r.user_id r.emoji) rows ≡ false
    → tally (is_reaction m u e) rows ≡ 0
same-reaction r m u e rows same absent =
    let em : r.message_id ≡ m = ground (arith, eq_iff r.message_id m) in
    let eu : r.user_id ≡ u = ground (arith, eq_iff r.user_id u) in
    let ee : r.emoji ≡ e = ground (arith, eq_iff r.emoji e) in
    rw (← em, ← eu, ← ee) (exists-tally (is_reaction r.message_id r.user_id r.emoji) rows absent)

same-id :
    (r : Reaction) (k : String) (rows : List Reaction)
    → has_id k r ≡ true
    → exists (has_id r.id) rows ≡ false
    → tally (has_id k) rows ≡ 0
same-id r k rows same absent =
    rw (← (eq_iff r.id k).0 same) (exists-tally (has_id r.id) rows absent)

pub Reacted-insert :
    (r : Reaction) (db : Db)
    → violates r db ≡ false
    → Reacted db.messages db.reactions
    → Reacted db.messages (r ∷ db.reactions)
Reacted-insert r db fine h =
    let (there, new_id, new) = allowed r db fine in
    record {
      one_each = λ m u e. ground (arith, h.one_each m u e, new, same-reaction r m u e db.reactions);
      one_id = λ k. ground (arith, h.one_id k, new_id, same-id r k db.reactions);
      refers = (there, h.refers);
    }

pub Reacted-delete :
    (q : Reaction → Bool) (ms : List MessageRow) (rows : List Reaction)
    → Reacted ms rows
    → Reacted ms (select (λ r. not (q r)) rows)
Reacted-delete q ms rows h = record {
  one_each = λ m u e. omega (arith, h.one_each m u e, tally-split (is_reaction m u e) q rows);
  one_id = λ k. omega (arith, h.one_id k, tally-split (has_id k) q rows);
  refers =
      All-select (λ (r : Reaction). known r.message_id ms ≡ true) (λ r. not (q r)) rows h.refers;
}
