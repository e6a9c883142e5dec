-- ===== src/Service/Publishing/Success.antt =====
-- A post on a database that answers goes through.
use geo_note.Common.{
  ◌≡◌, refl, inl, inr, ℕ, ◌/◌, String, true, false, Option, none, some, List, [], ◌∷◌, str_eq,
  exists, if◌then◌else◌, Bool-cases,
}
use geo_note.Common.Int.{pos, ltb_ℤ}
use geo_note.Common.Text.{trim_space}
use geo_note.External.{External}
use geo_note.Model.{Message, MessageRow, User, CreateMessageRequest}
use geo_note.Model.Validation.{validate_message}
use geo_note.Repository.Query.{Result, ok, Db, pure, attempt, ◌>>◌}
use geo_note.Repository.Query.Frames.{Stays, bind-Stays, attempt-Stays, if-Stays, pure-Stays}
use geo_note.Repository.Query.Rules.{steady}
use geo_note.Repository.Gamification.{record_post, check_and_award_badges, award_badge}
use geo_note.Repository.Gamification.Quiet.{
  messages_stay, record_post-messages, check_and_award_badges-messages, attempt_award-messages,
}
use geo_note.Repository.Messages.Accepted.{validate_message-accepted}
use geo_note.Repository.Messages.Writes
use geo_note.Repository.Messages.Writes.{new_row, message_violates, insert_message}
use geo_note.Service.Publishing.{create, counted, count_post, announce, public_view}
use geo_note.Service.Publishing.Secrecy.{made, encoded-GoesOn}
use geo_note.Service.State.{State}
use geo_note.Ws.Hub.{Hub}
use geo_note.Ws.Hub.Safety.{IsSafe, GoesOn}

count_post-messages :
    (now : ℕ) (user_id : String) (req : CreateMessageRequest)
    → Stays messages_stay (count_post now user_id req)
unfolding count_post
count_post-messages now user_id req =
    let record_it = attempt (record_post user_id (now / Writes.day)) in
    let award = attempt (award_badge user_id now "capsule_creator") >> pure tt in
    bind-Stays messages_stay (record_it >> attempt (check_and_award_badges user_id now))
      (λ _. if str_eq req.message_type "capsule" then award else pure tt)
      (bind-Stays messages_stay record_it (λ _. attempt (check_and_award_badges user_id now))
        (attempt-Stays messages_stay (record_post user_id (now / Writes.day))
          (record_post-messages user_id (now / Writes.day)))
        (λ _.
          attempt-Stays messages_stay (check_and_award_badges user_id now)
            (check_and_award_badges-messages user_id now)))
      (λ _.
        if-Stays messages_stay (str_eq req.message_type "capsule") award (pure tt)
          (attempt_award-messages user_id now "capsule_creator") (pure-Stays messages_stay tt))

-- The post is answered with the message, and the table holds these rows.
abbrev pub Answered : {x : External} → Message → List MessageRow → Result Message × State x → Type 0
Answered m rows (r, s) = (r ≡ ok m) × (s.conn.db.messages ≡ rows)

module _ (x : External) (now : ℕ) (user_id : String) (req : CreateMessageRequest) where
  counted-ok :
      (m : Message) (s : State x) (o : Option Hub)
      → GoesOn o
      → (counted x now user_id req m s o).0 ≡ ok m
  unfolding count_post
  counted-ok m s none g = absurd g
  counted-ok m s (some h) g = elim (Bool-cases (str_eq req.message_type "capsule")) [
    | inl capsule ↦ rw capsule refl
    | inr other ↦ rw other refl
  ]

  counted-messages :
      (m : Message) (s : State x) (o : Option Hub)
      → GoesOn o
      → (counted x now user_id req m s o).1.conn.db.messages ≡ s.conn.db.messages
  counted-messages m s none g = absurd g
  counted-messages m s (some h) g =
      bind-Stays messages_stay (count_post now user_id req) (λ _. pure m)
        (count_post-messages now user_id req) (λ _. pure-Stays messages_stay m) s.conn

  create_row :
      (new_id : String) (db : Db)
      → message_violates (new_row x.parse_rfc3339 new_id now user_id req) db ≡ false
      → Writes.create x.parse_rfc3339 new_id now user_id req (steady db) ≡ (
        ok (made x new_id now user_id req db),
        steady
            (record db { messages = new_row x.parse_rfc3339 new_id now user_id req ∷ db.messages }),
      )
  unfolding Writes.create insert_message
  create_row new_id db fits = rw fits refl

  -- `Create` on a database that answers and from a safe hub, of a request that `Validate` lets
  -- through, whose content is not blank and whose radius is below 2^31, by a known user and with a new id: it succeeds with the
  -- message, and the table has the new row first and its other rows as they were.
  pub create-succeeds :
      (new_id : String) (s : State x) (db : Db)
      → s.conn ≡ steady db
      → IsSafe s.hub
      → validate_message req ≡ []
      → str_eq (trim_space req.content) "" ≡ false
      → ltb_ℤ (pos 2147483647) req.mystery_radius ≡ false
      → exists (λ (u : User). str_eq u.id user_id) db.users ≡ true
      → exists (λ (m : MessageRow). str_eq m.id new_id) db.messages ≡ false
      → Answered
          (made x new_id now user_id req db)
          (new_row x.parse_rfc3339 new_id now user_id req ∷ db.messages)
          (create x new_id now user_id req s)
  unfolding create announce
  create-succeeds new_id s db e safe valid filled small known fresh =
      let m = made x new_id now user_id req db in
      let goes = encoded-GoesOn x s.hub (x.marshal_message (public_view m)) safe in
      let fits =
        validate_message-accepted x.parse_rfc3339 new_id now user_id req db valid filled small known
          fresh in
      rw (e, create_row new_id db fits)
        (
          counted-ok m _ (announce x (public_view m) s.hub) goes,
          counted-messages m _ (announce x (public_view m) s.hub) goes,
        )
