-- ===== src/Repository/Messages/Events.antt =====
-- `DetectEvents` of backend/internal/repository/message_repo.go, with the function `detect_events`
-- of backend/migrations/004_events.up.sql. Its LEFT JOIN with the hashtags of a message makes a row
-- for each tag, and one row where there is none.
use geo_note.Common.{
  ℕ, ◌+◌, ◌*◌, ◌≡◌, ◌≤◌, arith, String, Bool, true, List, [], ◌∷◌, ◌++◌, ◌&&◌, map, min, max, leb,
  ltb, str_eq, exists, select, take, length, if◌then◌else◌, All, Bool-cases, inl, inr,
}
use geo_note.Common.Groups.{groups}
use geo_note.External.{External}
use geo_note.Common.Int.{ℤ}
use geo_note.Model.{MessageRow}
use geo_note.Repository.Query.{ok, Query, read_rows}
use geo_note.Repository.Messages.Rows.{is_live}
use geo_note.Repository.Messages.Clusters.{Cell, same_cell, cell, is_within}

pub record Event : Type 0 where
  pub cell : Cell
  pub message_count : ℕ
  pub user_count : ℕ
  pub first_message_at : ℕ
  pub last_message_at : ℕ
  pub top_hashtags : List String

-- COUNT(DISTINCT …)
unfoldable pub distinct : List String → List String
distinct [] = []
distinct (s ∷ ss) = let rest = distinct ss in if exists (str_eq s) rest then rest else s ∷ rest

-- The rows of a message in the join.
abbrev pub tag_rows : MessageRow → ℕ
tag_rows m = max 1 (length m.hashtags)

unfoldable pub joined : List MessageRow → ℕ
joined [] = 0
joined (m ∷ ms) = tag_rows m + joined ms

earliest : ℕ → List MessageRow → ℕ
earliest t [] = t
earliest t (m ∷ ms) = min m.created_at (earliest t ms)

latest : ℕ → List MessageRow → ℕ
latest t [] = t
latest t (m ∷ ms) = max m.created_at (latest t ms)

all_tags : List MessageRow → List String
all_tags [] = []
all_tags (m ∷ ms) = m.hashtags ++ all_tags ms

abbrev pub hours : ℕ
hours = 3600 * 1000000000

module _ (x : External) where
  -- The sorted order of ARRAY_AGG(DISTINCT …).
  insert_tag : String → List String → List String
  insert_tag s [] = s ∷ []
  insert_tag s (t ∷ ts) =
      let rest = insert_tag s ts in if x.collates s t then s ∷ t ∷ ts else t ∷ rest

  sorted_tags : List String → List String
  unfolding insert_tag
  sorted_tags [] = []
  sorted_tags (s ∷ ss) = insert_tag s (sorted_tags ss)

  -- The WHERE of `detect_events`.
  abbrev pub is_recent : ℕ → ℤ × ℤ → ℤ → MessageRow → Bool
  is_recent now at_user radius m =
      is_within x at_user radius m
      && ltb now (m.created_at + 2 * hours)
      && str_eq m.visibility "public"
      && is_live now m.expires_at

  -- The group of a cell.
  unfoldable pub event : Cell → List MessageRow → Event
  unfolding joined earliest latest all_tags distinct sorted_tags
  event c ms = record {
    cell = c;
    message_count = joined ms;
    user_count = length (distinct (map (λ (m : MessageRow). m.user_id) ms));
    first_message_at = elim ms [ [] ↦ 0 | m ∷ rest ↦ earliest m.created_at rest ];
    last_message_at = elim ms [ [] ↦ 0 | m ∷ rest ↦ latest m.created_at rest ];
    top_hashtags = take 5 (sorted_tags (distinct (all_tags ms)));
  }

  -- The HAVING.
  abbrev pub is_cluster : List MessageRow → Bool
  is_cluster ms =
      leb 3 (length (distinct (map (λ (m : MessageRow). m.id) ms)))
      && leb 2 (length (distinct (map (λ (m : MessageRow). m.user_id) ms)))

  -- The events of the cells, a cell at a time.
  unfoldable pub events_in : List MessageRow → List (Cell × ℕ) → List Event
  unfolding cell event
  events_in ms [] = []
  events_in ms ((c, n) ∷ cs) =
      let rest = events_in ms cs in
      let here = select (λ m. same_cell c (cell m)) ms in
      if is_cluster here then event c here ∷ rest else rest

  insert_event : Event → List Event → List Event
  insert_event e [] = e ∷ []
  insert_event e (f ∷ fs) =
      let rest = insert_event e fs in
      if leb f.message_count e.message_count then e ∷ f ∷ fs else f ∷ rest

  unfoldable pub by_messages : List Event → List Event
  unfolding insert_event
  by_messages [] = []
  by_messages (e ∷ es) = insert_event e (by_messages es)

  unfoldable pub detected : ℕ → ℤ × ℤ → ℤ → List MessageRow → List Event
  unfolding by_messages events_in cell
  detected now at_user radius ms =
      let recent = select (is_recent now at_user radius) ms in
      by_messages (events_in recent (groups same_cell (map cell recent)))

  -- `DetectEvents`
  unfoldable pub detect_events : ℕ → ℤ → ℤ → ℤ → Query (List Event)
  unfolding detected
  detect_events now latitude longitude radius =
      read_rows (λ db. ok (detected now (latitude, longitude) radius db.messages))

-- What the thresholds promise of an event.
abbrev pub IsEvent : Event → Type 0
IsEvent e = (3 ≤ e.message_count) × (2 ≤ e.user_count)

length-distinct_le : (ss : List String) → length (distinct ss) ≤ length ss
unfolding distinct
length-distinct_le [] = omega arith
length-distinct_le (s ∷ ss) = ground (arith, length-distinct_le ss)

length-joined : (ms : List MessageRow) → length (map (λ (m : MessageRow). m.id) ms) ≤ joined ms
unfolding joined
length-joined [] = omega arith
length-joined (m ∷ ms) = omega (arith, length-joined ms)

module _ (x : External) where
  event-IsEvent :
      (c : Cell) (ms : List MessageRow) → is_cluster x ms ≡ true → IsEvent (event x c ms)
  unfolding event
  event-IsEvent c ms h =
      ground (arith, length-distinct_le (map (λ (m : MessageRow). m.id) ms), length-joined ms)

  events_in-IsEvent :
      (ms : List MessageRow) (cs : List (Cell × ℕ)) → All IsEvent (events_in x ms cs)
  unfolding events_in
  events_in-IsEvent ms [] = tt
  events_in-IsEvent ms ((c, n) ∷ cs) =
      let here = select (λ m. same_cell c (cell m)) ms in
      elim (Bool-cases (is_cluster x here)) [
        | inl e ↦ rw e (event-IsEvent c here e, events_in-IsEvent ms cs)
        | inr e ↦ rw e (events_in-IsEvent ms cs)
      ]

  insert_event-IsEvent :
      (e : Event) (es : List Event) → IsEvent e → All IsEvent es → All IsEvent (insert_event x e es)
  unfolding insert_event
  insert_event-IsEvent e [] h hs = (h, tt)
  insert_event-IsEvent e (f ∷ fs) h (k, ks) =
      elim (Bool-cases (leb f.message_count e.message_count)) [
        | inl l ↦ rw l (h, (k, ks))
        | inr l ↦ rw l (k, insert_event-IsEvent e fs h ks)
      ]

  by_messages-IsEvent : (es : List Event) → All IsEvent es → All IsEvent (by_messages x es)
  unfolding by_messages
  by_messages-IsEvent [] h = tt
  by_messages-IsEvent (e ∷ es) (h, hs) =
      insert_event-IsEvent e (by_messages x es) h (by_messages-IsEvent es hs)

  -- Each event that `DetectEvents` answers counts three messages or more, of two users or more.
  detected-IsEvent :
      (now : ℕ) (at_user : ℤ × ℤ) (radius : ℤ) (ms : List MessageRow)
      → All IsEvent (detected x now at_user radius ms)
  unfolding detected
  detected-IsEvent now at_user radius ms =
      let recent = select (is_recent x now at_user radius) ms in
      by_messages-IsEvent (events_in x recent (groups same_cell (map cell recent)))
        (events_in-IsEvent recent (groups same_cell (map cell recent)))
