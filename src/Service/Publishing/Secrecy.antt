-- ===== src/Service/Publishing/Secrecy.antt =====
-- What a post tells those who are connected.
use geo_note.Common.{
  ◌≡◌, refl, ap, sym, ◌∙◌, inl, inr, Bool-cases, String, ℕ, Option, none, some, str_eq,
}
use mathlib.Core.Option.{some-injective}
use geo_note.External.{External}
use geo_note.Model.{Message, CreateMessageRequest}
use geo_note.Repository.Query.{Result, ok, err, Db, Conn}
use geo_note.Repository.Query.Rules.{Ensures, statement-Ensures, OnOk}
use geo_note.Repository.Messages.Rows.{to_message}
use geo_note.Repository.Messages.Writes
use geo_note.Repository.Messages.Writes.{new_row, insert_message, message_violates, or_default}
use geo_note.Repository.Messages.Hashtags.{extract_hashtags}
use geo_note.Service.Messages.Masking.{mask}
use geo_note.Service.State.{State}
use geo_note.Service.Publishing.{
  create, published, public_view, announce, encoded, counted, count_post,
}
use geo_note.Service.Cache.{invalidate_zone}
use geo_note.Ws.Hub.{Hub, broadcast_new}
use geo_note.Ws.Hub.Safety.{IsSafe, GoesOn, broadcast-GoesOn}

-- The message that a request makes.
abbrev pub made : External → String → ℕ → String → CreateMessageRequest → Db → Message
made x new_id now user_id req db =
    to_message db.users none (new_row x.parse_rfc3339 new_id now user_id req)

insert-made :
    (x : External) (new_id : String) (now : ℕ) (user_id : String) (req : CreateMessageRequest)
    (db : Db)
    → OnOk
        (λ m d. m ≡ made x new_id now user_id req db)
        (insert_message (new_row x.parse_rfc3339 new_id now user_id req) db)
unfolding insert_message
insert-made x new_id now user_id req db =
    elim (Bool-cases (message_violates (new_row x.parse_rfc3339 new_id now user_id req) db)) [
      | inl e ↦ rw e tt
      | inr e ↦ rw e refl
    ]

-- `Create` of the repository answers with the message that the request makes.
create-made :
    (x : External) (new_id : String) (now : ℕ) (user_id : String) (req : CreateMessageRequest)
    (c : Conn)
    → Ensures
        (λ m d. m ≡ made x new_id now user_id req c.db)
        (Writes.create x.parse_rfc3339 new_id now user_id req c)
unfolding Writes.create
create-made x new_id now user_id req c =
    statement-Ensures (λ m d. m ≡ made x new_id now user_id req c.db)
      (insert_message (new_row x.parse_rfc3339 new_id now user_id req)) c
      (insert-made x new_id now user_id req c.db)

module _ (x : External) where
  -- What a post leads to. Where it succeeds the answer is the message that the request makes, its
  -- public view has been announced on the hub, and the cache of the zones is cleared; where it fails
  -- the cache and the hub are as before.
  abbrev pub Posted : Message → State x → Result Message × State x → Type 0
  Posted m before (ok n, s) =
      (n ≡ m)
      × (announce x (public_view m) before.hub ≡ some s.hub)
      × (s.cache ≡ invalidate_zone x before.cache)
      × IsSafe s.hub
  Posted m before (err e, s) = (s.hub ≡ before.hub) × (s.cache ≡ before.cache)

  pub encoded-GoesOn : (h : Hub) (payload : Option String) → IsSafe h → GoesOn (encoded x h payload)
  unfolding broadcast_new
  encoded-GoesOn h none s = s
  encoded-GoesOn h (some payload) s =
      broadcast-GoesOn (λ e. x.marshal_event e.kind e.payload)
        (record { kind = "new_message"; payload = payload }) h s

  counted-Posted :
      (now : ℕ) (user_id : String) (req : CreateMessageRequest) (m : Message) (before : State x)
      (c : Conn) (o : Option Hub)
      → announce x (public_view m) before.hub ≡ o
      → GoesOn o
      → Posted m before (
          counted x now user_id req m
            (record before { conn = c; cache = invalidate_zone x before.cache })
            o)
  unfolding count_post
  counted-Posted now user_id req m before c none e g = absurd g
  counted-Posted now user_id req m before c (some h) e g =
      elim (Bool-cases (str_eq req.message_type "capsule")) [
        | inl capsule ↦ rw capsule (refl, e, refl, g)
        | inr other ↦ rw other (refl, e, refl, g)
      ]

  published-Posted :
      (now : ℕ) (user_id : String) (req : CreateMessageRequest) (m : Message) (before : State x)
      (r : Result Message × Conn)
      → Ensures (λ n d. n ≡ m) r
      → IsSafe before.hub
      → Posted m before (published x now user_id req before r)
  unfolding announce
  published-Posted now user_id req m before (err e, c) h s = (refl, refl)
  published-Posted now user_id req m before (ok n, c) h s = rw h (
      counted-Posted now user_id req m before c (announce x (public_view m) before.hub) refl
        (encoded-GoesOn before.hub (x.marshal_message (public_view m)) s))

  -- `Create` from a safe hub, whatever statements fail: where it succeeds, the answer is the message
  -- that the request makes, its public view has been announced and the zones of the cache are
  -- cleared, and the hub is safe again; where it fails the cache and the hub are as before. No
  -- failure of the streak and the badges fails the post.
  pub create-Posted :
      (new_id : String) (now : ℕ) (user_id : String) (req : CreateMessageRequest) (s : State x)
      → IsSafe s.hub
      → Posted (made x new_id now user_id req s.conn.db) s (create x new_id now user_id req s)
  unfolding create
  create-Posted new_id now user_id req s safe =
      published-Posted now user_id req (made x new_id now user_id req s.conn.db) s
        (Writes.create x.parse_rfc3339 new_id now user_id req s.conn)
        (create-made x new_id now user_id req s.conn) safe

  -- The public view of a mystery message does not depend on its content, but for the hashtags.
  mystery_view :
      (new_id : String) (now : ℕ) (user_id : String) (req : CreateMessageRequest) (other : String)
      (db : Db)
      → req.message_type ≡ "mystery"
      → extract_hashtags req.content ≡ extract_hashtags other
      → public_view (made x new_id now user_id req db)
        ≡ public_view (made x new_id now user_id (record req { content = other }) db)
  unfolding public_view mask to_message new_row or_default
  mystery_view new_id now user_id req other db mystery tags = rw (mystery, tags) refl

  -- What `Create` tells the hub of a mystery message depends on its content in the hashtags only: two
  -- posts from the same safe hub that differ in nothing but the content, whose hashtags are the same,
  -- and that both succeed leave the same hub.
  pub create-secret :
      (new_id : String) (now : ℕ) (user_id : String) (req : CreateMessageRequest) (other : String)
      (s s1 s2 : State x) (m n : Message)
      → IsSafe s.hub
      → req.message_type ≡ "mystery"
      → extract_hashtags req.content ≡ extract_hashtags other
      → create x new_id now user_id req s ≡ (ok m, s1)
      → create x new_id now user_id (record req { content = other }) s ≡ (ok n, s2)
      → s1.hub ≡ s2.hub
  create-secret new_id now user_id req other s s1 s2 m n safe mystery tags first second =
      let posted = rw first at (create-Posted new_id now user_id req s safe) in
      let posted' =
        rw second at (create-Posted new_id now user_id (record req { content = other }) s safe) in
      let same = mystery_view new_id now user_id req other s.conn.db mystery tags in
      some-injective s1.hub s2.hub (sym posted.1 ∙ ap (λ v. announce x v s.hub) same ∙ posted'.1)
