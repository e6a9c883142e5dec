-- ===== src/Repository/Reactions.antt =====
-- Reactions in interaction_repo.go over the table `reactions`: `ToggleReaction` and
-- `GetReactionsByMessage(s)`. The order of equal counts is that of the first reactions, and the
-- batch has the messages in the order of their ids in the call.
pub mod Flip
pub mod Batch
use geo_note.Common.{
  String, Bool, true, false, Option, none, some, List, [], ◌∷◌, ◌&&◌, ◌||◌, not, map, ◌++◌, str_eq,
  exists, first, select, tally, leb, if◌then◌else◌,
}
use geo_note.Model.{User, MessageRow, Reaction, ReactionSummary}
use geo_note.Repository.Query.{
  no_rows, failed, Result, ok, err, Db, Query, pure, raise, statement, read, read_rows, ◌>>=◌, ◌>>◌,
  attempt,
}

abbrev pub is_reaction : String → String → String → Reaction → Bool
is_reaction message_id user_id emoji r =
    str_eq r.message_id message_id && str_eq r.user_id user_id && str_eq r.emoji emoji

abbrev pub has_id : String → Reaction → Bool
has_id id r = str_eq r.id id

unfoldable pub id_of : Option Reaction → Result String
id_of none = err no_rows
id_of (some r) = ok r.id

-- What an INSERT violates: the foreign keys, the primary key, and UNIQUE(message_id, user_id, emoji).
unfoldable pub violates : Reaction → Db → Bool
violates r db =
    not (exists (λ (m : MessageRow). str_eq m.id r.message_id) db.messages)
    || not (exists (λ (u : User). str_eq u.id r.user_id) db.users)
    || exists (has_id r.id) db.reactions
    || exists (is_reaction r.message_id r.user_id r.emoji) db.reactions

unfoldable pub insert_reaction : Reaction → Db → Result (Unit {0}) × Db
unfolding violates
insert_reaction r db =
    if violates r db then (err failed, db) else (ok tt, record db { reactions = r ∷ db.reactions })

unfoldable pub delete_reaction : String → Db → Result (Unit {0}) × Db
delete_reaction id db =
    (ok tt, record db { reactions = select (λ r. not (has_id id r)) db.reactions })

unfoldable pub flip : String → String → String → String → Result String → Query Bool
unfolding insert_reaction delete_reaction
flip new_id message_id user_id emoji (ok existing_id) =
    statement (delete_reaction existing_id) >> pure false
flip new_id message_id user_id emoji (err no_rows) =
    statement (
      insert_reaction
        (record { id = new_id; message_id = message_id; user_id = user_id; emoji = emoji }))
    >> pure true
flip new_id message_id user_id emoji (err e) = raise e

-- `ToggleReaction`: true where the reaction was added.
unfoldable pub toggle_reaction : String → String → String → String → Query Bool
unfolding flip id_of
toggle_reaction new_id message_id user_id emoji = do
  existing ←
      attempt (read (λ db. id_of (first (is_reaction message_id user_id emoji) db.reactions)))
  flip new_id message_id user_id emoji existing

-- GROUP BY emoji: a group for each emoji, with its count and whether the user is in it.
group : String → List Reaction → List Reaction → List ReactionSummary
group user_id all [] = []
group user_id all (r ∷ rs) =
    let rest = group user_id all rs in
    if exists (λ s. str_eq s.emoji r.emoji) rs
    then rest
    else record {
      emoji = r.emoji;
      count = tally (λ s. str_eq s.emoji r.emoji) all;
      reacted = exists (λ s. str_eq s.emoji r.emoji && str_eq s.user_id user_id) all;
    }
      ∷ rest

insert_count : ReactionSummary → List ReactionSummary → List ReactionSummary
insert_count s [] = s ∷ []
insert_count s (t ∷ ts) =
    let rest = insert_count s ts in if leb t.count s.count then s ∷ t ∷ ts else t ∷ rest

by_count : List ReactionSummary → List ReactionSummary
by_count [] = []
by_count (s ∷ ss) = insert_count s (by_count ss)

unfoldable pub summaries : String → String → Db → List ReactionSummary
unfolding group insert_count by_count
summaries message_id user_id db =
    let on_message = select (λ r. str_eq r.message_id message_id) db.reactions in
    by_count (group user_id on_message on_message)

-- `GetReactionsByMessage`
unfoldable pub get_reactions_by_message : String → String → Query (List ReactionSummary)
unfolding summaries
get_reactions_by_message message_id user_id = read_rows (λ db. ok (summaries message_id user_id db))

-- The rows of the batch, those of each message together, in the order of the ids.
unfoldable pub batch : String → Db → List String → List (String × ReactionSummary)
unfolding summaries
batch user_id db [] = []
batch user_id db (i ∷ is) =
    let rest = batch user_id db is in
    if exists (λ j. str_eq j i) is then rest else map (λ s. (i, s)) (summaries i user_id db) ++ rest

abbrev entry : List (String × ReactionSummary) → Option (List ReactionSummary)
entry [] = none
entry (row ∷ rows) = some (map (λ r. r.1) (row ∷ rows))

-- The map that the rows are put into.
unfoldable pub gathered : List (String × ReactionSummary) → String → Option (List ReactionSummary)
gathered rows id = entry (select (λ r. str_eq r.0 id) rows)

-- `GetReactionsByMessages`: the map from each message that has reactions to its groups.
unfoldable pub get_reactions_by_messages :
    List String → String → Query (String → Option (List ReactionSummary))
unfolding batch gathered
get_reactions_by_messages [] user_id = pure (λ id. none)
get_reactions_by_messages (i ∷ is) user_id = do
  rows ← read_rows (λ db. ok (batch user_id db (i ∷ is)))
  pure (gathered rows)
