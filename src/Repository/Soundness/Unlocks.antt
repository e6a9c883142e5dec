-- ===== src/Repository/Soundness/Unlocks.antt =====
-- The table `message_unlocks` and its counter through each statement that touches it or `messages`.
use geo_note.Common.{
  ℕ, ◌+◌, ◌≡◌, refl, ap, String, Bool, true, false, List, ◌∷◌, map, not, select, tally, exists,
  str_eq, arith, eq_iff,
}
use geo_note.Common.Int.{ℤ, pos, pos_part, neg_part, ◌+ℤ◌, int_laws}
use geo_note.Common.Rows.{tally-split, exists-tally, All-imp, All-map}
use geo_note.Model.{MessageRow, Unlock}
use geo_note.Repository.Messages.Writes.{is_unlock, count_unlock}
use geo_note.Repository.Soundness.{Unlocked, UnlocksAre}
use geo_note.Repository.Soundness.Keys.{
  known, Unique, Refers-known, Refers-absent, Refers-cascade, All-select, All-both, is_gone,
  KeepsId, known-map, stays-not-gone, tally-cascade,
}

abbrev on : String → Unlock → Bool
on k u = str_eq u.message_id k

-- An UPDATE that leaves the keys and the counts of unlocks.
pub Unlocked-map :
    (f : MessageRow → MessageRow) (ms : List MessageRow) (rows : List Unlock)
    → ((m : MessageRow) → ((f m).id ≡ m.id) × ((f m).unlocks_count ≡ m.unlocks_count))
    → Unlocked ms rows
    → Unlocked (map f ms) rows
Unlocked-map f ms rows keeps h = record {
  one_each = h.one_each;
  refers =
      Refers-known (λ (u : Unlock). u.message_id) ms (map f ms) rows
        (λ k there. rw (known-map f (λ m. (keeps m).0) k ms) there) h.refers;
  counted =
      All-map (UnlocksAre rows) (UnlocksAre rows) f ms (λ m c. rw ((keeps m).0, (keeps m).1) c)
        h.counted;
}

pub Unlocked-insert :
    (m : MessageRow) (ms : List MessageRow) (rows : List Unlock)
    → known m.id ms ≡ false
    → m.unlocks_count ≡ pos 0
    → Unlocked ms rows
    → Unlocked (m ∷ ms) rows
Unlocked-insert m ms rows fresh none h = record {
  one_each = h.one_each;
  refers =
      Refers-known (λ (u : Unlock). u.message_id) ms (m ∷ ms) rows
        (λ k there. ground (arith, there)) h.refers;
  counted = (
    rw
        (
          none,
          Refers-absent (λ (u : Unlock). u.message_id) (on m.id) m.id ms rows
              (λ u e. (eq_iff u.message_id m.id).0 e) fresh h.refers,
        )
        refl,
    h.counted,
  );
}

pub Unlocked-cascade :
    (p : MessageRow → Bool) (ms : List MessageRow) (rows : List Unlock)
    → Unique ms
    → Unlocked ms rows
    → Unlocked (select (λ m. not (p m)) ms) (select (λ u. not (is_gone p ms u.message_id)) rows)
Unlocked-cascade p ms rows unique h =
    let left = select (λ m. not (p m)) ms in
    let kept = select (λ (u : Unlock). not (is_gone p ms u.message_id)) rows in
    record {
      one_each = λ m u. omega (
        arith,
        h.one_each m u,
        tally-split (is_unlock m u) (λ u. is_gone p ms u.message_id) rows,
      );
      refers = Refers-cascade p (λ (u : Unlock). u.message_id) ms rows h.refers;
      counted =
          All-imp (λ (m : MessageRow). UnlocksAre rows m × (is_gone p ms m.id ≡ false))
            (UnlocksAre kept) left
            (λ m (count, stays).
              rw
                (tally-cascade p (λ (u : Unlock). u.message_id) (on m.id) m.id ms rows
                  (λ u e. (eq_iff u.message_id m.id).0 e) stays)
                count)
            (All-both (UnlocksAre rows) (λ m. is_gone p ms m.id ≡ false) left
              (All-select (UnlocksAre rows) (λ m. not (p m)) ms h.counted)
              (stays-not-gone p ms unique));
    }

one_more : (a : ℤ) (n k : ℕ) → a ≡ pos n → k ≡ 1 + n → a +ℤ pos 1 ≡ pos k
one_more a n k h e = omega (int_laws, ap pos_part h, ap neg_part h)

count-UnlocksAre :
    (id u : String) (rows : List Unlock) (m : MessageRow)
    → UnlocksAre rows m
    → UnlocksAre (record { message_id = id; user_id = u } ∷ rows) (count_unlock id m)
unfolding count_unlock
count-UnlocksAre id u rows m h = ground (
  arith,
  h,
  eq_iff m.id id,
  eq_iff id m.id,
  one_more m.unlocks_count (tally (on m.id) rows) (1 + tally (on m.id) rows),
)

count_unlock-id : (id : String) → KeepsId (count_unlock id)
unfolding count_unlock
count_unlock-id id m = ground arith

same-unlock :
    (id u k v : String) (rows : List Unlock)
    → is_unlock k v (record { message_id = id; user_id = u }) ≡ true
    → exists (is_unlock id u) rows ≡ false
    → tally (is_unlock k v) rows ≡ 0
same-unlock id u k v rows same absent =
    let em : id ≡ k = ground (arith, eq_iff id k) in
    let eu : u ≡ v = ground (arith, eq_iff u v) in
    rw (← em, ← eu) (exists-tally (is_unlock id u) rows absent)

pub Unlocked-unlock :
    (id u : String) (ms : List MessageRow) (rows : List Unlock)
    → exists (is_unlock id u) rows ≡ false
    → known id ms ≡ true
    → Unlocked ms rows
    → Unlocked (map (count_unlock id) ms) (record { message_id = id; user_id = u } ∷ rows)
Unlocked-unlock id u ms rows new there h =
    let grown : (k : String) → known k ms ≡ true → known k (map (count_unlock id) ms) ≡ true =
      λ k was. rw (known-map (count_unlock id) (count_unlock-id id) k ms) was in
    record {
      one_each = λ k v. ground (arith, h.one_each k v, new, same-unlock id u k v rows);
      refers = (
        grown id there,
        Refers-known (λ (u : Unlock). u.message_id) ms (map (count_unlock id) ms) rows grown
            h.refers,
      );
      counted =
          All-map (UnlocksAre rows) (UnlocksAre (record { message_id = id; user_id = u } ∷ rows))
            (count_unlock id) ms (count-UnlocksAre id u rows) h.counted;
    }
