-- ===== src/Repository/Messages/Clusters.antt =====
-- The queries of `MessageRepo` that group: `GetHeatmap`, `GetLeaderboard`, `DetectEvents` and
-- `GetPopularHashtags`, with the functions of backend/migrations that they call. The order of rows
-- with equal counts is not that of the source, which leaves it open.
pub mod Counting
use geo_note.Common.{
  ℕ, zero, suc, ◌+◌, ◌-◌, ◌*◌, ◌/◌, String, Bool, false, none, some, List, [], ◌∷◌, ◌++◌, ◌&&◌,
  ◌||◌, not, map, min, max, leb, ltb, ◌==◌, str_eq, exists, select, take, length, tally,
  if◌then◌else◌,
}
use geo_note.Common.Groups.{groups, by_count}
use geo_note.Common.Int.{ℤ, pos, negsuc, pos_part, ◌+ℤ◌, ltb_ℤ, leb_ℤ}
use geo_note.External.{External}
use geo_note.Model.{MessageRow, User, HashtagResult, HeatmapPoint, LeaderboardEntry}
use geo_note.Repository.Query.{failed, Result, ok, err, Db, Query, read, read_rows}
use geo_note.Repository.Messages.Rows.{has_author, author, is_live, is_revealed}

-- ROUND(x::numeric, 3) in thousandths of a degree: halves go away from zero.
unfoldable pub thousandths : ℤ → ℤ
thousandths (pos n) = pos ((n + 5000) / 10000)
thousandths (negsuc n) = let k = (suc n + 5000) / 10000 in if k == 0 then pos 0 else negsuc (k - 1)

abbrev pub Cell : Type 0
Cell = ℤ × ℤ

abbrev pub same_int : ℤ → ℤ → Bool
same_int (pos a) (pos b) = a == b
same_int (negsuc a) (negsuc b) = a == b
same_int _ _ = false

abbrev pub same_cell : Cell → Cell → Bool
same_cell a b = same_int a.0 b.0 && same_int a.1 b.1

unfoldable pub cell : MessageRow → Cell
unfolding thousandths
cell m = (thousandths m.latitude, thousandths m.longitude)

-- The tags of all live and revealed messages, and how often each stands there.
unfoldable pub live_tags : ℕ → List MessageRow → List String
live_tags now [] = []
live_tags now (m ∷ ms) =
    let rest = live_tags now ms in
    if is_live now m.expires_at && is_revealed now m.scheduled_at then m.hashtags ++ rest else rest

abbrev pub limited : {A : Type 0} → ℤ → List A → Result (List A)
limited limit xs = if ltb_ℤ limit (pos 0) then err failed else ok (take (pos_part limit) xs)

abbrev pub tag_result : String × ℕ → HashtagResult
tag_result (tag, n) = record { tag = tag; count = n }

-- The rows of `GetPopularHashtags` before its LIMIT.
unfoldable pub popular : ℕ → List MessageRow → List (String × ℕ)
unfolding live_tags
popular now ms = by_count str_eq (groups str_eq (live_tags now ms))

-- `GetPopularHashtags`
unfoldable pub get_popular_hashtags : ℕ → ℤ → Query (List HashtagResult)
unfolding popular
get_popular_hashtags now limit =
    read_rows (λ db. limited limit (map tag_result (popular now db.messages)))

module _ (x : External) where
  -- `ST_DWithin` of a message and the place that is asked for.
  abbrev pub is_within : ℤ × ℤ → ℤ → MessageRow → Bool
  is_within at_user radius m =
      leb (x.st_distance (m.latitude, m.longitude) at_user) (1000 * pos_part radius)

  -- The WHERE of `get_heatmap`.
  abbrev pub on_heatmap : ℕ → ℤ × ℤ → ℤ → MessageRow → Bool
  on_heatmap now at_user radius m =
      is_within at_user radius m
      && is_live now m.expires_at
      && is_revealed now m.scheduled_at
      && str_eq m.visibility "public"

  unfoldable pub heat : ℕ → ℤ × ℤ → ℤ → List MessageRow → List (Cell × ℕ)
  unfolding cell
  heat now at_user radius ms =
      by_count same_cell (groups same_cell (map cell (select (on_heatmap now at_user radius) ms)))

  abbrev pub point : Cell × ℕ → HeatmapPoint
  point ((latitude, longitude), n) = record {
    latitude = latitude;
    longitude = longitude;
    intensity = n;
  }

  -- `GetHeatmap`
  unfoldable pub get_heatmap : ℕ → ℤ → ℤ → ℤ → Query (List HeatmapPoint)
  unfolding heat
  get_heatmap now latitude longitude radius =
      read_rows (λ db. ok (map point (heat now (latitude, longitude) radius db.messages)))

  abbrev pub day : ℕ
  day = 24 * 3600 * 1000000000

  -- The WHERE of `get_leaderboard`, with the join.
  abbrev pub on_leaderboard : ℕ → ℤ × ℤ → ℤ → Db → MessageRow → Bool
  on_leaderboard now at_user radius db m =
      has_author db.users m && is_within at_user radius m && ltb now (m.created_at + 30 * day)

  abbrev pub name : String → List User → String
  name id users = elim (author id users) [ none ↦ "" | some u ↦ u.username ]

  total_likes : String → List MessageRow → ℤ
  total_likes id [] = pos 0
  total_likes id (m ∷ ms) =
      let rest = total_likes id ms in if str_eq m.user_id id then m.likes_count +ℤ rest else rest

  abbrev five_times : ℤ → ℤ
  five_times n = n +ℤ n +ℤ n +ℤ n +ℤ n

  -- One user's line.
  entry : List User → List MessageRow → String × ℕ → LeaderboardEntry
  unfolding total_likes
  entry users ms (id, posts) = record {
    user_id = id;
    username = name id users;
    total_posts = posts;
    total_likes = total_likes id ms;
    score = pos (posts * 10) +ℤ five_times (total_likes id ms);
  }

  insert_score : LeaderboardEntry → List LeaderboardEntry → List LeaderboardEntry
  insert_score e [] = e ∷ []
  insert_score e (f ∷ fs) =
      let rest = insert_score e fs in if leb_ℤ f.score e.score then e ∷ f ∷ fs else f ∷ rest

  by_score : List LeaderboardEntry → List LeaderboardEntry
  unfolding insert_score
  by_score [] = []
  by_score (e ∷ es) = insert_score e (by_score es)

  unfoldable pub ranking : ℕ → ℤ × ℤ → ℤ → Db → List LeaderboardEntry
  unfolding by_score entry
  ranking now at_user radius db =
      let ms = select (on_leaderboard now at_user radius db) db.messages in
      by_score (map (entry db.users ms) (groups str_eq (map (λ (m : MessageRow). m.user_id) ms)))

  -- `GetLeaderboard`
  unfoldable pub get_leaderboard : ℕ → ℤ → ℤ → ℤ → ℤ → Query (List LeaderboardEntry)
  unfolding ranking
  get_leaderboard now latitude longitude radius limit =
      read_rows (λ db. limited limit (ranking now (latitude, longitude) radius db))
