-- ===== src/Repository/Gamification.antt =====
-- `GamificationRepo` of backend/internal/repository/gamification_repo.go over the tables
-- `user_streaks` and `user_badges`. Days are counted from the epoch.
pub mod Zones
pub mod Streaks
pub mod History
pub mod Badges
pub mod Quiet
use geo_note.Common.{
  ℕ, ◌+◌, String, Bool, true, false, Option, none, some, List, [], ◌∷◌, ◌&&◌, not, max, str_eq,
  exists, first, select, leb, ◌==◌, if◌then◌else◌, map,
}
use geo_note.Model.{User, UserStreak, Badge}
use geo_note.Repository.Query.{
  failed, Result, ok, err, Db, Conn, Query, pure, statement, read, read_rows, attempt, ◌>>=◌, ◌>>◌,
}
use Zones.{total_zones}

abbrev pub has_user : String → Db → Bool
has_user user_id db = exists (λ (u : User). str_eq u.id user_id) db.users

abbrev pub row_of : String → List UserStreak → Option UserStreak
row_of user_id = first (λ s. str_eq s.user_id user_id)

-- The row with the defaults of the table's columns.
abbrev pub no_streak : String → UserStreak
no_streak user_id = record {
  user_id = user_id;
  current_streak = 0;
  max_streak = 0;
  last_post_date = none;
  total_posts = 0;
  total_zones = 0;
  total_unlocks = 0;
}

-- `GetStreak`: zeros where there is no row, and where the query fails.
or_no_streak : String → Result UserStreak → UserStreak
or_no_streak user_id (ok s) = s
or_no_streak user_id (err e) = no_streak user_id

row_or_error : Option UserStreak → Result UserStreak
row_or_error none = err failed
row_or_error (some s) = ok s

unfoldable pub get_streak : String → Query UserStreak
unfolding or_no_streak row_or_error
get_streak user_id = do
  r ← attempt (read (λ db. row_or_error (row_of user_id db.streaks)))
  pure (or_no_streak user_id r)

-- `last_post_date = CURRENT_DATE` and `= CURRENT_DATE - 1`; both fail on NULL.
is_day : ℕ → Option ℕ → Bool
is_day today none = false
is_day today (some d) = d == today

is_eve : ℕ → Option ℕ → Bool
is_eve today none = false
is_eve today (some d) = d + 1 == today

next_streak : ℕ → UserStreak → ℕ
unfolding is_day is_eve
next_streak today s =
    if is_day today s.last_post_date
    then s.current_streak
    else if is_eve today s.last_post_date
    then s.current_streak + 1
    else 1

-- The DO UPDATE of `RecordPost`, and its VALUES.
unfoldable pub posted : ℕ → ℕ → UserStreak → UserStreak
unfolding next_streak
posted today zones s = record s {
  current_streak = next_streak today s;
  max_streak = max s.max_streak (next_streak today s);
  last_post_date = some today;
  total_posts = s.total_posts + 1;
  total_zones = zones;
}

unfoldable pub first_post : String → ℕ → ℕ → UserStreak
first_post user_id today zones = record {
  user_id = user_id;
  current_streak = 1;
  max_streak = 1;
  last_post_date = some today;
  total_posts = 1;
  total_zones = zones;
  total_unlocks = 0;
}

-- `INSERT INTO user_streaks … ON CONFLICT (user_id) DO UPDATE`
abbrev pub upsert : String → UserStreak → (UserStreak → UserStreak) → Db → Result (Unit {0}) × Db
upsert user_id new update db =
    if exists (λ s. str_eq s.user_id user_id) db.streaks
    then (
      ok tt,
      record db {
        streaks = map (λ s. if str_eq s.user_id user_id then update s else s) db.streaks;
      },
    )
    else if has_user user_id db
    then (ok tt, record db { streaks = new ∷ db.streaks })
    else (err failed, db)

unfoldable pub post_row : String → ℕ → Db → Result (Unit {0}) × Db
post_row user_id today db =
    let zones = total_zones user_id db.messages in
    upsert user_id (first_post user_id today zones) (posted today zones) db

-- `RecordPost`
unfoldable pub record_post : String → ℕ → Query (Unit {0})
unfolding post_row
record_post user_id today = statement (post_row user_id today)

unfoldable pub unlocked : UserStreak → UserStreak
unlocked s = record s { total_unlocks = s.total_unlocks + 1 }

unfoldable pub unlock_row : String → Db → Result (Unit {0}) × Db
unfolding unlocked
unlock_row user_id = upsert user_id (unlocked (no_streak user_id)) unlocked

-- `RecordUnlock`
unfoldable pub record_unlock : String → Query (Unit {0})
unfolding unlock_row
record_unlock user_id = statement (unlock_row user_id)

abbrev pub is_badge : String → String → Badge → Bool
is_badge user_id badge b = str_eq b.user_id user_id && str_eq b.badge_type badge

abbrev pub has_badge : String → String → Db → Bool
has_badge user_id badge db = exists (is_badge user_id badge) db.badges

unfoldable pub badge_row : String → ℕ → String → Db → Result (Unit {0}) × Db
badge_row user_id now badge db =
    if has_badge user_id badge db
    then (ok tt, db)
    else if has_user user_id db
    then (
      ok tt,
      record db {
        badges = record { user_id = user_id; badge_type = badge; earned_at = now } ∷ db.badges;
      },
    )
    else (err failed, db)

-- `AwardBadge`: ON CONFLICT DO NOTHING.
unfoldable pub award_badge : String → ℕ → String → Query (Unit {0})
unfolding badge_row
award_badge user_id now badge = statement (badge_row user_id now badge)

-- The `if`s of `CheckAndAwardBadges` in their order; the error of an award is dropped.
unfoldable pub award_all : String → ℕ → List (Bool × String) → Query (Unit {0})
award_all user_id now [] = pure tt
award_all user_id now ((holds, badge) ∷ rest) = do
  if holds then attempt (award_badge user_id now badge) >> pure tt else pure tt
  award_all user_id now rest

unfoldable pub milestones : UserStreak → List (Bool × String)
milestones s =
    (leb 1 s.total_posts, "first_post")
    ∷ (leb 5 s.total_zones, "explorer_5")
    ∷ (leb 10 s.total_zones, "explorer_10")
    ∷ (leb 25 s.total_zones, "explorer_25")
    ∷ (leb 3 s.current_streak, "streak_3")
    ∷ (leb 7 s.current_streak, "streak_7")
    ∷ (leb 30 s.current_streak, "streak_30")
    ∷ (leb 5 s.total_unlocks, "mystery_hunter_5")
    ∷ (leb 25 s.total_unlocks, "mystery_hunter_25")
    ∷ []

-- `CheckAndAwardBadges`
unfoldable pub check_and_award_badges : String → ℕ → Query (Unit {0})
unfolding get_streak award_all milestones
check_and_award_badges user_id now = do s ← get_streak user_id; award_all user_id now (milestones s)

-- `GetBadges`, whose ORDER BY is not modelled.
unfoldable pub get_badges : String → Query (List Badge)
get_badges user_id = read_rows (λ db. ok (select (λ b. str_eq b.user_id user_id) db.badges))
