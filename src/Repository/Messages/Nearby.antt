-- ===== src/Repository/Messages/Nearby.antt =====
-- What `GetNearby` answers: how many messages, and which.
use geo_note.Common.{
  ◌≡◌, ◌≤◌, ◌+◌, refl, inl, inr, arith, ℕ, zero, suc, String, Bool, Option, some, List, [], ◌∷◌,
  ◌&&◌, ◌||◌, not, map, take, select, length, length-take, tally, str_eq, exists, if◌then◌else◌,
  Bool-cases,
}
use geo_note.Common.Text.{contains, trim_prefix}
use geo_note.Common.Int.{ltb_ℤ, pos, pos_part}
use geo_note.External.{External}
use geo_note.Model.{NearbyQuery, Message, MessageRow, User}
use geo_note.Repository.Query.{ok, Conn, Db, read_rows, pure}
use geo_note.Repository.Query.Rules.{Ensures, FirstOf, rows-Ensures, bind-Ensures}
use geo_note.Repository.Messages
use geo_note.Repository.Messages.{is_user, asking, is_near}
use geo_note.Repository.Messages.Rows.{
  to_message, has_author, is_live, is_revealed, order_by, insert_by, distance_of,
}

-- A message that is not to be shown to the user: one of another user that is not public, one that
-- has expired, or one that is not revealed yet.
abbrev pub withheld : ℕ → Option String → Message → Bool
withheld now user_id m =
    not (str_eq m.visibility "public" || is_user user_id m.user_id)
    || not (is_live now m.expires_at)
    || not (is_revealed now m.scheduled_at)

module _ {A : Type 0} where
  tally-select_le : (p q : A → Bool) (xs : List A) → tally p (select q xs) ≤ tally p xs
  tally-select_le p q [] = omega arith
  tally-select_le p q (x ∷ xs) = ground (arith, tally-select_le p q xs)

  length-select_le : (q : A → Bool) (xs : List A) → length (select q xs) ≤ length xs
  length-select_le q [] = omega arith
  length-select_le q (x ∷ xs) = ground (arith, length-select_le q xs)

  tally-take_le : (p : A → Bool) (n : ℕ) (xs : List A) → tally p (take n xs) ≤ tally p xs
  tally-take_le p zero xs = omega arith
  tally-take_le p (suc n) [] = omega arith
  tally-take_le p (suc n) (x ∷ xs) = omega (arith, tally-take_le p n xs)

  length-take_le : (n : ℕ) (xs : List A) → length (take n xs) ≤ length xs
  length-take_le zero xs = omega arith
  length-take_le (suc n) [] = omega arith
  length-take_le (suc n) (x ∷ xs) = omega (arith, length-take_le n xs)

module _ (key : Message → ℕ) (p : Message → Bool) where
  tally-insert_by :
      (m : Message) (ms : List Message)
      → tally p (insert_by key m ms) ≡ (if p m then 1 else 0) + tally p ms
  unfolding insert_by
  tally-insert_by m [] = omega arith
  tally-insert_by m (n ∷ ms) = ground (arith, tally-insert_by m ms)

  tally-order_by : (ms : List Message) → tally p (order_by key ms) ≡ tally p ms
  unfolding order_by
  tally-order_by [] = refl
  tally-order_by (m ∷ ms) = omega (arith, tally-insert_by m (order_by key ms), tally-order_by ms)

module _ (x : External) (now : ℕ) (q : NearbyQuery) where
  near-withheld :
      (user_id : Option String) (users : List User) (d : MessageRow → Option ℕ)
      (ms : List MessageRow)
      → tally (withheld now user_id) (
          map
            (λ m. to_message users (d m) m)
            (select
              (λ m.
                has_author users m && is_near x now (q.latitude, q.longitude) q.radius user_id m)
              ms))
        ≡ 0
  unfolding to_message is_near
  near-withheld user_id users d [] = refl
  near-withheld user_id users d (m ∷ ms) = ground (arith, near-withheld user_id users d ms)

  abbrev pub IsShort : List Message → Type 0
  IsShort ms = (length ms ≤ pos_part q.limit) × (tally (withheld now (asking q)) ms ≡ 0)

  taken-IsShort :
      (ms : List Message)
      → tally (withheld now (asking q)) ms ≡ 0
      → IsShort (take (pos_part q.limit) (order_by distance_of ms))
  taken-IsShort ms h =
      let w = withheld now (asking q) in
      (
        length-take (pos_part q.limit) (order_by distance_of ms),
        omega (
          arith,
          h,
          tally-take_le w (pos_part q.limit) (order_by distance_of ms),
          tally-order_by distance_of w ms,
        ),
      )

  select-IsShort : (p : Message → Bool) (ms : List Message) → IsShort ms → IsShort (select p ms)
  select-IsShort p ms (l, h) = (
    omega (arith, l, length-select_le p ms),
    omega (arith, h, tally-select_le (withheld now (asking q)) p ms),
  )

  take-IsShort : (n : ℕ) (ms : List Message) → IsShort ms → IsShort (take n ms)
  take-IsShort n ms (l, h) = (
    omega (arith, l, length-take_le n ms),
    omega (arith, h, tally-take_le (withheld now (asking q)) n ms),
  )

  nearby_rows-IsShort : (db : Db) → IsShort (Messages.nearby_rows x now q (asking q) db)
  unfolding Messages.nearby_rows
  nearby_rows-IsShort db =
      let distance =
        λ (m : MessageRow). x.st_distance (m.latitude, m.longitude) (q.latitude, q.longitude) in
      taken-IsShort
        (map (λ m. to_message db.users (some (distance m)) m)
          (select
            (λ m.
              has_author db.users m
              && is_near x now (q.latitude, q.longitude) q.radius (asking q) m)
            db.messages))
        (near-withheld (asking q) db.users (λ m. some (distance m)) db.messages)

  answered-IsShort :
      (ms : List Message) (db : Db)
      → ok ms ≡ Messages.get_nearby_messages x now q (asking q) db
      → IsShort ms
  unfolding Messages.get_nearby_messages
  answered-IsShort ms db h = elim (Bool-cases (ltb_ℤ q.limit (pos 0))) [
    | inl e ↦ absurd (cc (rw e at h))
    | inr e ↦
        let same : ms ≡ Messages.nearby_rows x now q (asking q) db = cc (rw e at h) in
        rw same (nearby_rows-IsShort db)
  ]

  with_hashtag-IsShort :
      (hashtag : String) (ms : List Message)
      → IsShort ms
      → IsShort (Messages.with_hashtag x hashtag ms)
  unfolding Messages.with_hashtag
  with_hashtag-IsShort hashtag ms h = elim (Bool-cases (str_eq hashtag "")) [
    | inl e ↦ rw e h
    | inr e ↦ rw e (
        select-IsShort
          (λ m.
            exists (λ t. contains (x.to_lower t) (x.to_lower (trim_prefix hashtag "#"))) m.hashtags)
          ms h)
  ]

  module _ (P : Db → Type 0) where
    pub get_nearby-Ensures :
        (c : Conn) → P c.db → Ensures (λ ms d. IsShort ms × P d) (Messages.get_nearby x now q c)
    unfolding Messages.get_nearby
    get_nearby-Ensures c p =
        bind-Ensures (FirstOf P (Messages.get_nearby_messages x now q (asking q)))
          (λ ms d. IsShort ms × P d) (read_rows (Messages.get_nearby_messages x now q (asking q)))
          (λ ms. pure (Messages.with_hashtag x q.hashtag ms)) c
          (rows-Ensures P (Messages.get_nearby_messages x now q (asking q)) c p)
          (λ ms c' ((all, e, (n, first)), p'). (
            with_hashtag-IsShort q.hashtag ms
                (rw first (take-IsShort n all (answered-IsShort all c'.db e))),
            p',
          ))

  -- `GetNearby` of the repository, whatever statements fail: an answer has at most as many messages
  -- as the limit, each is public or the user's own, and none has expired or is still to be revealed; the tables are as before.
  pub get_nearby-IsShort :
      (c : Conn) → Ensures (λ ms d. IsShort ms × (d ≡ c.db)) (Messages.get_nearby x now q c)
  get_nearby-IsShort c = get_nearby-Ensures (λ d. d ≡ c.db) c refl
