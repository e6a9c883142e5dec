-- ===== src/Repository/Interactions/Counts.antt =====
-- The counters of `messages` follow the rows of `interactions`, through every statement that
-- inserts or deletes.
use geo_note.Common.{
  ℕ, ◌+◌, ◌≤◌, ◌≡◌, ap, sym, String, Bool, true, false, List, [], ◌∷◌, ◌&&◌, not, arith, eq_iff,
  str_eq, exists, select, tally, All, inl, inr, Bool-cases, if◌then◌else◌,
}
use geo_note.Common.Int.{ℤ, pos, pos_part, neg_part, ◌+ℤ◌, ◌-ℤ◌, int_laws}
use geo_note.Model.{MessageRow, Interaction, Kind, like, comment}
use geo_note.Repository.Query.{Db}
use geo_note.Repository.Interactions.{
  is_kind, is_like_of, has_id, bump, inserted, deleted, violates, insert_interaction,
  delete_interactions,
}
use geo_note.Common.Rows.{tally-split, exists-tally, All-map, All-imp}

-- A row of one kind on one message.
abbrev pub is_on : Kind → String → Interaction → Bool
is_on kind message_id i = str_eq i.message_id message_id && is_kind i.kind kind

-- The counters of a message are what they were at the base, and the rows since.
abbrev pub CountsAre : (String → ℤ) → (String → ℤ) → (Kind → String → ℕ) → MessageRow → Type 0
CountsAre likes comments rows m =
    (m.likes_count ≡ likes m.id +ℤ pos (rows like m.id))
    × (m.comments_count ≡ comments m.id +ℤ pos (rows comment m.id))

abbrev pub rows_in : List Interaction → Kind → String → ℕ
rows_in is kind message_id = tally (is_on kind message_id) is

one_more : (a b : ℤ) (n k : ℕ) → a ≡ b +ℤ pos n → k ≡ 1 + n → a +ℤ pos 1 ≡ b +ℤ pos k
one_more a b n k h e = omega (int_laws, ap pos_part h, ap neg_part h)

one_less : (a b : ℤ) (n k : ℕ) → a ≡ b +ℤ pos k → k ≡ 1 + n → a -ℤ pos 1 ≡ b +ℤ pos n
one_less a b n k h e = omega (int_laws, ap pos_part h, ap neg_part h)

-- What an INSERT that goes through was allowed.
pub allowed :
    (i : Interaction) (db : Db)
    → violates i db ≡ false
    → (exists (has_id i.id) db.interactions ≡ false)
      × (is_kind i.kind like ≡ true
          → exists (is_like_of i.message_id i.user_id) db.interactions ≡ false)
unfolding violates
allowed i db h = (ground arith, λ k. ground arith)

pub first_like :
    (i : Interaction) (db : Db) (m u : String)
    → violates i db ≡ false
    → is_like_of m u i ≡ true
    → tally (is_like_of m u) db.interactions ≡ 0
first_like i db m u h t =
    let em : i.message_id ≡ m = ground (arith, eq_iff i.message_id m) in
    let eu : i.user_id ≡ u = ground (arith, eq_iff i.user_id u) in
    rw (← em, ← eu)
      (exists-tally (is_like_of i.message_id i.user_id) db.interactions
        ((allowed i db h).1 (ground arith)))

fresh_id :
    (i : Interaction) (db : Db) (k : String)
    → violates i db ≡ false
    → has_id k i ≡ true
    → tally (has_id k) db.interactions ≡ 0
fresh_id i db k h t =
    rw (← (eq_iff i.id k).0 t) (exists-tally (has_id i.id) db.interactions (allowed i db h).0)

module _ (likes comments : String → ℤ) where
  bump-CountsAre :
      (i : Interaction) (rows : Kind → String → ℕ) (m : MessageRow)
      → CountsAre likes comments rows m
      → CountsAre likes comments
          (λ k id. (if is_on k id i then 1 else 0) + rows k id)
          (bump (λ n. n +ℤ pos 1) i m)
  unfolding bump
  bump-CountsAre i rows m h = ground (
    arith,
    eq_iff m.id i.message_id,
    eq_iff i.message_id m.id,
    one_more m.likes_count (likes m.id) (rows like m.id) (1 + rows like m.id),
    one_more m.comments_count (comments m.id) (rows comment m.id) (1 + rows comment m.id),
  )

  recount :
      (rows rows' : Kind → String → ℕ) (m : MessageRow)
      → ((k : Kind) (id : String) → rows k id ≡ rows' k id)
      → CountsAre likes comments rows m
      → CountsAre likes comments rows' m
  recount rows rows' m e (l, c) = (rw (e like m.id) at l, rw (e comment m.id) at c)

  lower-CountsAre :
      (i : Interaction) (rows : Kind → String → ℕ) (m : MessageRow)
      → CountsAre likes comments (λ k id. (if is_on k id i then 1 else 0) + rows k id) m
      → CountsAre likes comments rows (bump (λ n. n -ℤ pos 1) i m)
  unfolding bump
  lower-CountsAre i rows m h = ground (
    arith,
    eq_iff m.id i.message_id,
    eq_iff i.message_id m.id,
    one_less m.likes_count (likes m.id) (rows like m.id) (1 + rows like m.id),
    one_less m.comments_count (comments m.id) (rows comment m.id) (1 + rows comment m.id),
  )

  deleted-CountsAre :
      (gone : List Interaction) (rows : Kind → String → ℕ) (ms : List MessageRow)
      → All (CountsAre likes comments (λ k id. rows_in gone k id + rows k id)) ms
      → All (CountsAre likes comments rows) (deleted gone ms)
  unfolding deleted
  deleted-CountsAre [] rows ms h =
      All-imp (CountsAre likes comments (λ k id. 0 + rows k id)) (CountsAre likes comments rows) ms
        (λ m. recount (λ k id. 0 + rows k id) rows m (λ k id. omega arith)) h
  deleted-CountsAre (i ∷ gone) rows ms h =
      let one : Kind → String → ℕ = λ k id. if is_on k id i then 1 else 0 in
      All-map (CountsAre likes comments (λ k id. one k id + rows k id))
        (CountsAre likes comments rows) (bump (λ n. n -ℤ pos 1) i) (deleted gone ms)
        (lower-CountsAre i rows)
        (deleted-CountsAre gone (λ k id. one k id + rows k id) ms
          (All-imp (CountsAre likes comments (λ k id. rows_in (i ∷ gone) k id + rows k id))
            (CountsAre likes comments (λ k id. rows_in gone k id + (one k id + rows k id))) ms
            (λ m.
              recount (λ k id. rows_in (i ∷ gone) k id + rows k id)
                (λ k id. rows_in gone k id + (one k id + rows k id)) m (λ k id. omega arith))
            h))

  -- What holds of the tables at any time.
  pub record IsConsistent (db : Db) : Type 0 where
    pub one_like : (m u : String) → tally (is_like_of m u) db.interactions ≤ 1
    pub unique_id : (k : String) → tally (has_id k) db.interactions ≤ 1
    pub counted : All (CountsAre likes comments (rows_in db.interactions)) db.messages

  -- From consistent tables, an INSERT into `interactions`, with its trigger, leaves consistent tables,
  -- also where a constraint refuses it: one like at most for a user and a message, ids that differ, and counters
  -- that have moved by the number of rows.
  pub insert_interaction-IsConsistent :
      (i : Interaction) (db : Db) → IsConsistent db → IsConsistent (insert_interaction i db).1
  unfolding insert_interaction inserted
  insert_interaction-IsConsistent i db s = elim (Bool-cases (violates i db)) [
    | inl e ↦ rw e s
    | inr e ↦ rw e (record {
      one_like = λ m u. elim (Bool-cases (is_like_of m u i)) [
        | inl t ↦ rw t (omega (arith, first_like i db m u e t))
        | inr t ↦ rw t (omega (arith, s.one_like m u))
      ];
      unique_id = λ k. elim (Bool-cases (has_id k i)) [
        | inl t ↦ rw t (omega (arith, fresh_id i db k e t))
        | inr t ↦ rw t (omega (arith, s.unique_id k))
      ];
      counted =
          All-map (CountsAre likes comments (rows_in db.interactions))
            (CountsAre likes comments (rows_in (i ∷ db.interactions))) (bump (λ n. n +ℤ pos 1) i)
            db.messages (bump-CountsAre i (rows_in db.interactions)) s.counted;
    })
  ]

  -- From consistent tables, a DELETE of any rows of `interactions`, with its trigger on each, leaves
  -- consistent tables.
  pub delete_interactions-IsConsistent :
      (p : Interaction → Bool) (db : Db)
      → IsConsistent db
      → IsConsistent (delete_interactions p db).1
  unfolding delete_interactions
  delete_interactions-IsConsistent p db s = record {
    one_like = λ m u. omega (arith, s.one_like m u, tally-split (is_like_of m u) p db.interactions);
    unique_id = λ k. omega (arith, s.unique_id k, tally-split (has_id k) p db.interactions);
    counted =
        let left : List Interaction = select (λ i. not (p i)) db.interactions in
        let gone : List Interaction = select p db.interactions in
        deleted-CountsAre gone (rows_in left) db.messages (
          All-imp (CountsAre likes comments (rows_in db.interactions))
            (CountsAre likes comments (λ k id. rows_in gone k id + rows_in left k id)) db.messages
            (λ m.
              recount (rows_in db.interactions) (λ k id. rows_in gone k id + rows_in left k id) m
                (λ k id. sym (tally-split (is_on k id) p db.interactions)))
            s.counted);
  }
