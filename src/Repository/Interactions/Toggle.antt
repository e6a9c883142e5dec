-- ===== src/Repository/Interactions/Toggle.antt =====
-- What `ToggleLike` does.
use geo_note.Common.{
  ℕ, ◌-◌, ◌≡◌, refl, ap, sym, String, Bool, true, false, Option, none, some, [], ◌∷◌, ◌&&◌, arith,
  eq_iff, str_eq, first, select, tally, inl, inr, ◌⊎◌, Bool-cases, Option-cases, ◌==◌,
  if◌then◌else◌,
}
use mathlib.Core.Path.{subst}
use geo_note.Common.Int.{ℤ}
use geo_note.Model.{Interaction, like, LikeResponse}
use geo_note.Repository.Query.{
  no_rows, failed, Result, ok, err, Db, Conn, statement, pure, read, attempt, ◌>>=◌,
}
use geo_note.Repository.Query.Rules.{
  Ensures, OnOk, Atomic, statement-Ensures, bind-Ensures, Looked, attempt-read-Ensures,
  read-Ensures, transaction-Atomic,
}
use geo_note.Repository.Interactions.{
  is_like_of, has_id, violates, insert_interaction, delete_interactions, id_of, likes_of, flip_like,
  answer_with, toggle_like_body, toggle_like,
}
use geo_note.Common.Rows.{tally-split, first-some, select-single, tally-exists}
use geo_note.Repository.Interactions.Counts.{
  IsConsistent, first_like, insert_interaction-IsConsistent, delete_interactions-IsConsistent,
}

-- How many likes a user has on a message.
abbrev pub likes_by : String → String → Db → ℕ
likes_by m u db = tally (is_like_of m u) db.interactions

module _ (likes comments : String → ℤ) (new_id : String) (now : ℕ)
    (message_id user_id : String) where
  -- The like of the pair is there exactly when it was not, and the other likes are as before.
  abbrev pub Flipped : Db → Bool → Db → Type 0
  Flipped before liked after =
      (liked ≡ (likes_by message_id user_id before == 0))
      × ((m u : String)
          → likes_by m u after ≡ (
              if str_eq message_id m && str_eq user_id u
              then 1 - likes_by m u before
              else likes_by m u before))
      × IsConsistent likes comments after

  like_of_pair :
      (i : Interaction)
      → is_like_of message_id user_id i ≡ true
      → (m u : String) → is_like_of m u i ≡ str_eq message_id m && str_eq user_id u
  like_of_pair i h m u = ground (
    arith,
    eq_iff i.message_id message_id,
    eq_iff i.user_id user_id,
    eq_iff i.message_id m,
    eq_iff i.user_id u,
    eq_iff message_id m,
    eq_iff user_id u,
  )

  inserted-Flipped :
      (i : Interaction) (db : Db)
      → IsConsistent likes comments db
      → is_like_of message_id user_id i ≡ true
      → OnOk (λ _. Flipped db true) (insert_interaction i db)
  unfolding insert_interaction
  inserted-Flipped i db s h = elim (Bool-cases (violates i db)) [
    | inl e ↦ rw e tt
    | inr e ↦ rw e (
      ground (arith, first_like i db message_id user_id e h),
      λ m u. ground (arith, like_of_pair i h m u, first_like i db m u e),
      rw e at (insert_interaction-IsConsistent likes comments i db s),
    )
  ]

  removed-Flipped :
      (i : Interaction) (db : Db)
      → IsConsistent likes comments db
      → first (is_like_of message_id user_id) db.interactions ≡ some i
      → OnOk (λ _. Flipped db false) (delete_interactions (has_id i.id) db)
  unfolding delete_interactions
  removed-Flipped i db s found =
      let (h, there) = first-some (is_like_of message_id user_id) db.interactions found in
      let gone : select (has_id i.id) db.interactions ≡ i ∷ [] =
        select-single (is_like_of message_id user_id) (has_id i.id) db.interactions i
          (s.unique_id i.id) found ((eq_iff i.id i.id).1 refl) in
      (
        ground (arith, tally-exists (is_like_of message_id user_id) db.interactions there),
        λ m u. ground (
          arith,
          like_of_pair i h m u,
          s.one_like m u,
          ap (tally (is_like_of m u)) gone,
          tally-split (is_like_of m u) (has_id i.id) db.interactions,
        ),
        unfold delete_interactions in
            delete_interactions-IsConsistent likes comments (has_id i.id) db s,
      )

  abbrev find_pair : Db → Option Interaction
  find_pair db = first (is_like_of message_id user_id) db.interactions

  flip_new :
      (c : Conn)
      → IsConsistent likes comments c.db
      → Ensures (Flipped c.db) (flip_like new_id now message_id user_id (err no_rows) c)
  unfolding flip_like
  flip_new c s =
      let i : Interaction = record {
        id = new_id;
        message_id = message_id;
        user_id = user_id;
        kind = like;
        content = none;
        created_at = now;
      } in
      bind-Ensures (λ _. Flipped c.db true) (Flipped c.db) (statement (insert_interaction i))
        (λ _. pure true) c
        (statement-Ensures (λ _. Flipped c.db true) (insert_interaction i) c
          (inserted-Flipped i c.db s
            (ground (arith, eq_iff message_id message_id, eq_iff user_id user_id))))
        (λ _ c' f. f)

  flip_old :
      (i : Interaction) (c : Conn)
      → IsConsistent likes comments c.db
      → find_pair c.db ≡ some i
      → Ensures (Flipped c.db) (flip_like new_id now message_id user_id (ok i.id) c)
  unfolding flip_like
  flip_old i c s found =
      bind-Ensures (λ _. Flipped c.db false) (Flipped c.db)
        (statement (delete_interactions (has_id i.id))) (λ _. pure false) c
        (statement-Ensures (λ _. Flipped c.db false) (delete_interactions (has_id i.id)) c
          (removed-Flipped i c.db s found))
        (λ _ c' f. f)

  -- The second part of the body, on what the SELECT showed.
  flip_like-Flipped :
      (r : Result String) (c : Conn)
      → IsConsistent likes comments c.db
      → (r ≡ id_of (find_pair c.db)) ⊎ (r ≡ err failed)
      → Ensures (Flipped c.db) (flip_like new_id now message_id user_id r c)
  flip_like-Flipped r c s (inr e) = rw e (unfold flip_like in tt)
  flip_like-Flipped r c s (inl e) = elim (Option-cases (find_pair c.db)) [
    | inl f ↦ rw (e, f) (unfold id_of in flip_new c s)
    | inr (i, f) ↦ rw (e, f) (unfold id_of in flip_old i c s f)
  ]

  -- What the whole transaction leaves, with the answer.
  abbrev pub Toggled : Db → LikeResponse → Db → Type 0
  Toggled before resp after =
      Flipped before resp.liked after
      × (ok resp.likes_count ≡ likes_of (first (λ m. str_eq m.id message_id) after.messages))

  answer :
      (before : Db) (liked : Bool) (c : Conn)
      → Flipped before liked c.db
      → Ensures (Toggled before) (answer_with message_id liked c)
  unfolding answer_with
  answer before liked c h =
      let count : Db → Result ℤ =
        λ db. likes_of (first (λ m. str_eq m.id message_id) db.messages) in
      bind-Ensures (λ n db. (ok n ≡ count db) × Flipped before liked db) (Toggled before)
        (read count) (λ n. pure (record { liked = liked; likes_count = n })) c
        (read-Ensures (Flipped before liked) count c h) (λ n c' (e, f). (f, e))

  toggle_like_body-Toggled :
      (c : Conn)
      → IsConsistent likes comments c.db
      → Ensures (Toggled c.db) (toggle_like_body new_id now message_id user_id c)
  unfolding toggle_like_body
  toggle_like_body-Toggled c s =
      let shown : Db → Result String = λ db. id_of (find_pair db) in
      bind-Ensures (Looked (λ d. d ≡ c.db) shown) (Toggled c.db) (attempt (read shown))
        (λ r. flip_like new_id now message_id user_id r >>= λ liked. answer_with message_id liked) c
        (attempt-read-Ensures (λ d. d ≡ c.db) shown c refl)
        (λ r c' (e, looked).
          bind-Ensures (Flipped c.db) (Toggled c.db) (flip_like new_id now message_id user_id r)
            (λ liked. answer_with message_id liked) c'
            (subst (λ d. Ensures (Flipped d) (flip_like new_id now message_id user_id r c')) e
              (flip_like-Flipped r c' (subst (IsConsistent likes comments) (sym e) s) looked))
            (λ liked c'' f. answer c.db liked c'' f))

  -- From consistent tables, `ToggleLike` either fails and changes nothing, or flips whether the user likes the message,
  -- keeps every other like and the consistency of the tables, and answers with the new state and
  -- the message's counter.
  pub toggle_like-Atomic :
      (c : Conn)
      → IsConsistent likes comments c.db
      → Atomic c.db (Toggled c.db) (toggle_like new_id now message_id user_id c)
  unfolding toggle_like
  toggle_like-Atomic c s =
      transaction-Atomic (Toggled c.db) (toggle_like_body new_id now message_id user_id) c (λ c' e.
        subst (λ d. Ensures (Toggled d) (toggle_like_body new_id now message_id user_id c')) e
          (toggle_like_body-Toggled c' (subst (IsConsistent likes comments) (sym e) s)))
