-- ===== src/Repository/Messages/Writes.antt =====
-- What `MessageRepo` writes: `Create`, `Delete` and `UnlockMystery`, with the constraints of the
-- tables `messages` and `message_unlocks` and the trigger `update_unlock_count`.
use Prim.Native.String.{count}
use geo_note.Common.{
  ℕ, ◌+◌, ◌*◌, String, Bool, false, Option, none, some, List, [], ◌∷◌, ◌&&◌, ◌||◌, not, map, leb,
  ◌==◌, str_eq, exists, select, length, if◌then◌else◌,
}
use geo_note.Common.Int.{ℤ, pos, negsuc, ◌+ℤ◌, leb_ℤ, ltb_ℤ}
use geo_note.Common.Text.{trim_space}
use geo_note.Model.{User, MessageRow, Message, CreateMessageRequest, Unlock, Report}
use geo_note.Repository.Query.{
  not_found, failed, Result, ok, err, Db, Query, pure, raise, statement, ◌>>=◌,
}
use geo_note.Repository.Messages.Rows.{to_message}
use geo_note.Repository.Messages.Hashtags.{extract_hashtags}

abbrev pub day : ℕ
day = 24 * 3600 * 1000000000

unfoldable pub or_default : String → String → String
or_default s default = if str_eq s "" then default else s

-- `scheduledAt` of a capsule: absent where the text does not parse.
abbrev scheduled_of : (String → Option ℕ) → String → String → Option ℕ
scheduled_of parse_rfc3339 message_type text =
    if str_eq message_type "capsule" && not (str_eq text "") then parse_rfc3339 text else none

one_day_later : Option ℕ → Option ℕ
one_day_later none = none
one_day_later (some t) = some (t + day)

-- The switch on the type that computes `expiresAt`.
expires_of : (String → Option ℕ) → ℕ → String → String → Option ℕ
unfolding one_day_later
expires_of parse_rfc3339 now message_type text =
    if str_eq message_type "standard"
    then some (now + day)
    else if str_eq message_type "capsule"
    then one_day_later (parse_rfc3339 text)
    else none

unfoldable pub radius_or_default : ℤ → ℤ
radius_or_default n = if leb_ℤ n (pos 0) then pos 50 else n

-- The row that `Create` inserts.
unfoldable pub new_row :
    (String → Option ℕ) → String → ℕ → String → CreateMessageRequest → MessageRow
unfolding or_default expires_of radius_or_default
new_row parse_rfc3339 new_id now user_id req =
    let message_type = or_default req.message_type "standard" in
    record {
      id = new_id;
      user_id = user_id;
      content = trim_space req.content;
      latitude = req.latitude;
      longitude = req.longitude;
      visibility = or_default req.visibility "public";
      hashtags = extract_hashtags req.content;
      likes_count = pos 0;
      comments_count = pos 0;
      created_at = now;
      message_type = message_type;
      expires_at = expires_of parse_rfc3339 now message_type req.scheduled_at;
      mystery_radius = radius_or_default req.mystery_radius;
      scheduled_at = scheduled_of parse_rfc3339 message_type req.scheduled_at;
      unlocks_count = pos 0;
      is_hidden = false;
    }

abbrev pub one_of : List String → String → Bool
one_of allowed s = exists (λ a. str_eq a s) allowed

-- The values of an INTEGER column.
unfoldable pub is_integer : ℤ → Bool
is_integer n = not (ltb_ℤ (pos 2147483647) n) && not (ltb_ℤ n (negsuc 2147483647))

-- What an INSERT into `messages` violates: the foreign key, the primary key, the constraints
-- `content_not_empty`, `content_max_length`, `valid_visibility` and `valid_message_type`, and the
-- range of `mystery_radius`.
unfoldable pub message_violates : MessageRow → Db → Bool
unfolding is_integer
message_violates m db =
    not (exists (λ (u : User). str_eq u.id m.user_id) db.users)
    || exists (λ (n : MessageRow). str_eq n.id m.id) db.messages
    || str_eq m.content ""
    || not (leb (count m.content) 500)
    || not (one_of ("public" ∷ "friends" ∷ "private" ∷ []) m.visibility)
    || not (one_of ("standard" ∷ "mystery" ∷ "capsule" ∷ []) m.message_type)
    || not (is_integer m.mystery_radius)

unfoldable pub insert_message : MessageRow → Db → Result Message × Db
unfolding message_violates to_message
insert_message m db =
    if message_violates m db
    then (err failed, db)
    else (ok (to_message db.users none m), record db { messages = m ∷ db.messages })

-- `Create`
unfoldable pub create :
    (String → Option ℕ) → String → ℕ → String → CreateMessageRequest → Query Message
unfolding insert_message new_row
create parse_rfc3339 new_id now user_id req =
    statement (insert_message (new_row parse_rfc3339 new_id now user_id req))

abbrev pub owned : String → String → MessageRow → Bool
owned id user_id m = str_eq m.id id && str_eq m.user_id user_id

-- The rows of other tables that a message has taken away with it, by ON DELETE CASCADE; what becomes
-- of its reports is that of the table `content_reports`, which may also refuse the DELETE.
-- The tables after it, from the reports that are left.
unfoldable pub cascade : (MessageRow → Bool) → Db → Option (List Report) → Result ℕ × Db
cascade p db none = (err failed, db)
cascade p db (some reports) =
    let gone = select p db.messages in
    let is_gone = λ (id : String). exists (λ (m : MessageRow). str_eq m.id id) gone in
    (
      ok (length gone),
      record db {
        messages = select (λ m. not (p m)) db.messages;
        interactions = select (λ i. not (is_gone i.message_id)) db.interactions;
        unlocks = select (λ u. not (is_gone u.message_id)) db.unlocks;
        reactions = select (λ r. not (is_gone r.message_id)) db.reactions;
        reports = reports;
      },
    )

abbrev pub reports_left : (MessageRow → Bool) → Db → Option (List Report)
reports_left p db =
    db.report_rules.left (λ id. exists (λ (m : MessageRow). str_eq m.id id) (select p db.messages))
      db.reports

unfoldable pub delete_messages : (MessageRow → Bool) → Db → Result ℕ × Db
unfolding cascade
delete_messages p db = cascade p db (reports_left p db)

unfoldable pub affected : ℕ → Query (Unit {0})
affected n = if n == 0 then raise not_found else pure tt

-- `Delete`
unfoldable pub delete : String → String → Query (Unit {0})
unfolding delete_messages affected
delete id user_id = do n ← statement (delete_messages (owned id user_id)); affected n

abbrev pub is_unlock : String → String → Unlock → Bool
is_unlock message_id user_id u = str_eq u.message_id message_id && str_eq u.user_id user_id

-- The trigger on `message_unlocks`.
unfoldable pub count_unlock : String → MessageRow → MessageRow
count_unlock message_id m =
    if str_eq m.id message_id then record m { unlocks_count = m.unlocks_count +ℤ pos 1 } else m

-- INSERT … ON CONFLICT DO NOTHING, with the number of rows; the foreign keys are checked where the
-- row is new.
unfoldable pub insert_unlock : String → String → Db → Result ℕ × Db
unfolding count_unlock
insert_unlock message_id user_id db =
    if exists (is_unlock message_id user_id) db.unlocks
    then (ok 0, db)
    else if exists (λ (m : MessageRow). str_eq m.id message_id) db.messages
        && exists (λ (u : User). str_eq u.id user_id) db.users
    then (
      ok 1,
      record db {
        unlocks = record { message_id = message_id; user_id = user_id } ∷ db.unlocks;
        messages = map (count_unlock message_id) db.messages;
      },
    )
    else (err failed, db)

-- `UnlockMystery`: whether the unlock is new.
unfoldable pub unlock_mystery : String → String → Query Bool
unfolding insert_unlock
unlock_mystery message_id user_id = do
  n ← statement (insert_unlock message_id user_id)
  pure (not (n == 0))
