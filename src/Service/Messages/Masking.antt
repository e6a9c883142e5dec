-- ===== src/Service/Messages/Masking.antt =====
-- What `GetNearby` of backend/internal/service/message_service.go does to the rows: it masks what
-- the user may not read, adds the reactions, and sorts.
use geo_note.Common.{
  ℕ, String, Bool, true, false, Option, none, some, List, [], ◌∷◌, map, ltb, str_eq, ◌&&◌, ◌||◌,
  not, if◌then◌else◌,
}
use geo_note.Common.Int.{ltb_ℤ}
use geo_note.External.{External}
use geo_note.Model.{Message, NearbyQuery, ReactionSummary}
use geo_note.Repository.Query.{Result, ok, err, Query, pure, ◌>>=◌, attempt}
use geo_note.Repository.Messages.Reads.{is_unlocked}
use geo_note.Repository.Reactions.{get_reactions_by_messages}

abbrev pub is_mystery : Message → Bool
is_mystery m = str_eq m.message_type "mystery"

abbrev pub is_own : String → Message → Bool
is_own user_id m = not (str_eq user_id "") && str_eq m.user_id user_id

unfoldable pub mask : Message → Message
mask m = record m { content = "???" }

-- `unlocked, _ := …`: an error counts as false.
abbrev pub shown : Message → Result Bool → Message × Bool
shown m (ok true) = (m, false)
shown m (ok false) = (mask m, true)
shown m (err e) = (mask m, true)

unfoldable pub mask_one : String → Message → Query (Message × Bool)
mask_one user_id m =
    if not (is_mystery m) || is_own user_id m
    then pure (m, false)
    else if str_eq user_id ""
    then pure (mask m, true)
    else attempt (is_unlocked m.id user_id) >>= λ r. pure (shown m r)

-- The loop over the messages.
unfoldable pub mask_all : String → List Message → Query (List Message × Bool)
mask_all user_id [] = pure ([], false)
mask_all user_id (m ∷ ms) = do
  (n, masked) ← mask_one user_id m
  (ns, others) ← mask_all user_id ms
  pure (n ∷ ns, masked || others)

abbrev pub set_reactions : Message → Option (List ReactionSummary) → Message
set_reactions m none = m
set_reactions m (some r) = record m { reactions = r }

abbrev pub with_reactions : (String → Option (List ReactionSummary)) → Message → Message
with_reactions reactions m = set_reactions m (reactions m.id)

abbrev pub add_reactions :
    List Message → Result (String → Option (List ReactionSummary)) → List Message
add_reactions ms (ok reactions) = map (with_reactions reactions) ms
add_reactions ms (err e) = ms

unfoldable pub enrich : String → List Message → Query (List Message)
enrich user_id ms = attempt (get_reactions_by_messages (map (λ m. m.id) ms) user_id) >>= λ r.
    pure (add_reactions ms r)

module _ (x : External) where
  -- The switch on `q.Sort`.
  unfoldable pub rank : ℕ → String → List Message → List Message
  rank now sort ms =
      if str_eq sort "recent"
      then x.sort_slice (λ m n. ltb n.created_at m.created_at) ms
      else if str_eq sort "popular"
      then x.sort_slice (λ m n. ltb_ℤ n.likes_count m.likes_count) ms
      else x.sort_slice (x.ranks_above now) ms

  unfoldable pub finish : ℕ → NearbyQuery → List Message → Query (List Message × Bool)
  finish now q ms = do
    (ns, masked) ← mask_all q.user_id ms
    enriched ← enrich q.user_id ns
    pure (rank now q.sort enriched, masked)
