-- ===== src/Repository/Reactions/Flip.antt =====
-- What `ToggleReaction` does.
use geo_note.Common.{
  ◌-◌, ◌≤◌, ◌≡◌, refl, ap, sym, String, Bool, true, false, Option, none, some, List, [], ◌∷◌, ◌&&◌,
  not, arith, eq_iff, str_eq, first, select, tally, exists, inl, inr, ◌⊎◌, Bool-cases, Option-cases,
  ◌==◌, if◌then◌else◌,
}
use mathlib.Core.Path.{subst}
use geo_note.Model.{Reaction, MessageRow, User}
use geo_note.Repository.Query.{
  no_rows, failed, Result, ok, err, Db, Conn, statement, pure, read, attempt,
}
use geo_note.Repository.Query.Rules.{
  Ensures, OnOk, statement-Ensures, bind-Ensures, Looked, attempt-read-Ensures,
}
use geo_note.Common.Rows.{
  tally-split, first-some, select-single, tally-exists, exists-tally, first-none,
}
use geo_note.Repository.Reactions.{
  is_reaction, has_id, violates, insert_reaction, delete_reaction, id_of, flip, toggle_reaction,
}

-- What the keys of the table promise.
pub record IsKeyed (db : Db) : Type 0 where
  pub one_each : (m u emoji : String) → tally (is_reaction m u emoji) db.reactions ≤ 1
  pub unique_id : (k : String) → tally (has_id k) db.reactions ≤ 1

module _ (new_id message_id user_id emoji : String) where
  abbrev is_same : String → String → String → Bool
  is_same m u e = str_eq message_id m && str_eq user_id u && str_eq emoji e

  -- The reaction is there exactly when it was not, and the others are as before.
  abbrev pub Flipped : Db → Bool → Db → Type 0
  Flipped before reacted after =
      (reacted ≡ (tally (is_reaction message_id user_id emoji) before.reactions == 0))
      × ((m u e : String)
          → tally (is_reaction m u e) after.reactions ≡ (
              if is_same m u e
              then 1 - tally (is_reaction m u e) before.reactions
              else tally (is_reaction m u e) before.reactions))

  same-reaction :
      (r : Reaction)
      → is_reaction message_id user_id emoji r ≡ true
      → (m u e : String) → is_reaction m u e r ≡ is_same m u e
  same-reaction r h m u e =
      let em : r.message_id ≡ message_id = ground (arith, eq_iff r.message_id message_id) in
      let eu : r.user_id ≡ user_id = ground (arith, eq_iff r.user_id user_id) in
      let ee : r.emoji ≡ emoji = ground (arith, eq_iff r.emoji emoji) in rw (em, eu, ee) refl

  same-empty :
      (rs : List Reaction)
      → exists (is_reaction message_id user_id emoji) rs ≡ false
      → (m u e : String) → is_same m u e ≡ true
      → tally (is_reaction m u e) rs ≡ 0
  same-empty rs absent m u e same =
      let em : message_id ≡ m = ground (arith, eq_iff message_id m) in
      let eu : user_id ≡ u = ground (arith, eq_iff user_id u) in
      let ee : emoji ≡ e = ground (arith, eq_iff emoji e) in
      rw (← em, ← eu, ← ee) (exists-tally (is_reaction message_id user_id emoji) rs absent)

  inserted-Flipped :
      (r : Reaction) (db : Db)
      → is_reaction message_id user_id emoji r ≡ true
      → exists (is_reaction message_id user_id emoji) db.reactions ≡ false
      → OnOk (λ _. Flipped db true) (insert_reaction r db)
  unfolding insert_reaction
  inserted-Flipped r db h absent = elim (Bool-cases (violates r db)) [
    | inl e ↦ rw e tt
    | inr e ↦ rw e (
      ground (arith, exists-tally (is_reaction message_id user_id emoji) db.reactions absent),
      λ m u k. ground (arith, same-reaction r h m u k, same-empty db.reactions absent m u k),
    )
  ]

  removed-Flipped :
      (r : Reaction) (db : Db)
      → IsKeyed db
      → first (is_reaction message_id user_id emoji) db.reactions ≡ some r
      → OnOk (λ _. Flipped db false) (delete_reaction r.id db)
  unfolding delete_reaction
  removed-Flipped r db s found =
      let (h, there) = first-some (is_reaction message_id user_id emoji) db.reactions found in
      let gone : select (has_id r.id) db.reactions ≡ r ∷ [] =
        select-single (is_reaction message_id user_id emoji) (has_id r.id) db.reactions r
          (s.unique_id r.id) found ((eq_iff r.id r.id).1 refl) in
      (
        ground (arith, tally-exists (is_reaction message_id user_id emoji) db.reactions there),
        λ m u k. ground (
          arith,
          same-reaction r h m u k,
          s.one_each m u k,
          ap (tally (is_reaction m u k)) gone,
          tally-split (is_reaction m u k) (has_id r.id) db.reactions,
        ),
      )

  abbrev find_reaction : Db → Option Reaction
  find_reaction db = first (is_reaction message_id user_id emoji) db.reactions

  flip_new :
      (c : Conn)
      → find_reaction c.db ≡ none
      → Ensures (Flipped c.db) (flip new_id message_id user_id emoji (err no_rows) c)
  unfolding flip
  flip_new c absent =
      let r : Reaction = record {
        id = new_id;
        message_id = message_id;
        user_id = user_id;
        emoji = emoji;
      } in
      bind-Ensures (λ _. Flipped c.db true) (Flipped c.db) (statement (insert_reaction r))
        (λ _. pure true) c
        (statement-Ensures (λ _. Flipped c.db true) (insert_reaction r) c
          (inserted-Flipped r c.db
            (ground
              (arith, eq_iff message_id message_id, eq_iff user_id user_id, eq_iff emoji emoji))
            (first-none (is_reaction message_id user_id emoji) c.db.reactions absent)))
        (λ _ c' f. f)

  flip_old :
      (r : Reaction) (c : Conn)
      → IsKeyed c.db
      → find_reaction c.db ≡ some r
      → Ensures (Flipped c.db) (flip new_id message_id user_id emoji (ok r.id) c)
  unfolding flip
  flip_old r c s found =
      bind-Ensures (λ _. Flipped c.db false) (Flipped c.db) (statement (delete_reaction r.id))
        (λ _. pure false) c
        (statement-Ensures (λ _. Flipped c.db false) (delete_reaction r.id) c
          (removed-Flipped r c.db s found))
        (λ _ c' f. f)

  flip-Flipped :
      (o : Result String) (c : Conn)
      → IsKeyed c.db
      → (o ≡ id_of (find_reaction c.db)) ⊎ (o ≡ err failed)
      → Ensures (Flipped c.db) (flip new_id message_id user_id emoji o c)
  flip-Flipped o c s (inr e) = rw e (unfold flip in tt)
  flip-Flipped o c s (inl e) = elim (Option-cases (find_reaction c.db)) [
    | inl f ↦ rw (e, f) (unfold id_of in flip_new c f)
    | inr (r, f) ↦ rw (e, f) (unfold id_of in flip_old r c s f)
  ]

  -- `ToggleReaction`, on a table whose keys hold and whatever statements fail: where it answers, the
  -- user's reaction to the message with the emoji is there exactly when it was not, every other
  -- reaction is as before, and the answer says whether it was added.
  pub toggle_reaction-Flipped :
      (c : Conn)
      → IsKeyed c.db
      → Ensures (Flipped c.db) (toggle_reaction new_id message_id user_id emoji c)
  unfolding toggle_reaction
  toggle_reaction-Flipped c s =
      let shown : Db → Result String = λ db. id_of (find_reaction db) in
      bind-Ensures (Looked (λ d. d ≡ c.db) shown) (Flipped c.db) (attempt (read shown))
        (flip new_id message_id user_id emoji) c (attempt-read-Ensures (λ d. d ≡ c.db) shown c refl)
        (λ o c' (e, looked).
          subst (λ d. Ensures (Flipped d) (flip new_id message_id user_id emoji o c')) e
            (flip-Flipped o c' (subst IsKeyed (sym e) s) looked))

  -- `ToggleReaction` on a database that answers, with a message, a user and a new id, succeeds, and
  -- says that the reaction was added exactly where there was none.
  pub toggle_reaction_answers :
      (db : Db)
      → exists (λ (m : MessageRow). str_eq m.id message_id) db.messages ≡ true
      → exists (λ (u : User). str_eq u.id user_id) db.users ≡ true
      → exists (has_id new_id) db.reactions ≡ false
      → (toggle_reaction new_id message_id user_id emoji (record { db = db; faults = [] })).0
        ≡ ok (not (exists (is_reaction message_id user_id emoji) db.reactions))
  unfolding toggle_reaction flip id_of insert_reaction delete_reaction violates
  toggle_reaction_answers db message author fresh = elim (Option-cases (find_reaction db)) [
    | inl f ↦
        let absent = first-none (is_reaction message_id user_id emoji) db.reactions f in
        rw (f, message, author, fresh, absent) refl
    | inr (r, f) ↦
        let there = (first-some (is_reaction message_id user_id emoji) db.reactions f).1 in
        rw (f, there) refl
  ]
