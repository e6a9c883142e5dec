-- ===== src/Repository/Gamification/Badges.antt =====
-- Which badges a check awards.
use geo_note.Common.{
  ℕ, ◌≡◌, refl, String, Bool, true, false, Option, none, some, List, [], ◌∷◌, ◌&&◌, ◌||◌, not, inl,
  inr, arith, eq_iff, str_eq, exists, leb, map, Bool-cases,
}
use mathlib.Core.Path.{subst}
use geo_note.Model.{UserStreak}
use geo_note.Repository.Query.{Db, Conn}
use geo_note.Repository.Gamification.{
  has_user, row_of, no_streak, has_badge, badge_row, award_badge, award_all, milestones,
  or_no_streak, row_or_error, check_and_award_badges,
}

-- The badge is in the list with a test that holds.
abbrev pub listed : String → List (Bool × String) → Bool
listed badge [] = false
listed badge ((holds, name) ∷ rest) = (holds && str_eq name badge) || listed badge rest

-- A badge, the statistic that it looks at, and the value from which on it is due.
abbrev Prize : Type 0
Prize = String × (UserStreak → ℕ) × ℕ

abbrev pub prizes : List Prize
prizes =
    ("first_post", λ s. s.total_posts, 1)
    ∷ ("explorer_5", λ s. s.total_zones, 5)
    ∷ ("explorer_10", λ s. s.total_zones, 10)
    ∷ ("explorer_25", λ s. s.total_zones, 25)
    ∷ ("streak_3", λ s. s.current_streak, 3)
    ∷ ("streak_7", λ s. s.current_streak, 7)
    ∷ ("streak_30", λ s. s.current_streak, 30)
    ∷ ("mystery_hunter_5", λ s. s.total_unlocks, 5)
    ∷ ("mystery_hunter_25", λ s. s.total_unlocks, 25)
    ∷ []

-- The statistics have reached the badge.
abbrev is_due : String → UserStreak → Prize → Bool
is_due badge s (name, statistic, from) = str_eq name badge && leb from (statistic s)

abbrev pub has_earned : String → UserStreak → Bool
has_earned badge s = exists (is_due badge s) prizes

abbrev tested : UserStreak → Prize → Bool × String
tested s (name, statistic, from) = (leb from (statistic s), name)

listed-tested :
    (badge : String) (s : UserStreak) (ps : List Prize)
    → listed badge (map (tested s) ps) ≡ exists (is_due badge s) ps
listed-tested badge s [] = refl
listed-tested badge s ((name, statistic, from) ∷ ps) = ground (arith, listed-tested badge s ps)

milestones-prizes : (s : UserStreak) → milestones s ≡ map (tested s) prizes
unfolding milestones
milestones-prizes s = refl

listed-milestones :
    (badge : String) (s : UserStreak) → listed badge (milestones s) ≡ has_earned badge s
listed-milestones badge s = rw (milestones-prizes s) (listed-tested badge s prizes)

-- How the badges of all users may differ after an award to `u` of some of the listed ones: none is
-- lost, and a new one is listed and the user's.
abbrev Grows : String → List (Bool × String) → Db → Db → Type 0
Grows u list before after =
    (v badge : String)
    → (has_badge v badge before ≡ true → has_badge v badge after ≡ true)
      × (has_badge v badge after ≡ true
          → has_badge v badge before || (str_eq u v && listed badge list) ≡ true)

row-Grows :
    (u : String) (now : ℕ) (name : String) (db : Db)
    → Grows u ((true, name) ∷ []) db (badge_row u now name db).1
unfolding badge_row
row-Grows u now name db v badge =
    (λ h. ground arith, λ h. ground (arith, eq_iff u v, eq_iff name badge))

award-Grows :
    (u : String) (now : ℕ) (name : String) (db : Db) (faults : List Bool)
    → Grows u
        ((true, name) ∷ [])
        db
        (award_badge u now name (record { db = db; faults = faults })).1.db
unfolding award_badge
award-Grows u now name db [] v badge = row-Grows u now name db v badge
award-Grows u now name db (true ∷ faults) v badge = (λ h. h, λ h. ground arith)
award-Grows u now name db (false ∷ faults) v badge = row-Grows u now name db v badge

Grows-trans :
    (u : String) (p : Bool × String) (list : List (Bool × String)) (a b c : Db)
    → Grows u (p ∷ []) a b
    → Grows u list b c
    → Grows u (p ∷ list) a c
Grows-trans u (holds, name) list a b c g h v badge =
    let g' = g v badge in
    let h' = h v badge in (λ k. h'.0 (g'.0 k), λ k. ground (arith, h'.1 k, g'.1))

award_all-Grows :
    (u : String) (now : ℕ) (list : List (Bool × String)) (c : Conn)
    → Grows u list c.db (award_all u now list c).1.db
unfolding award_all
award_all-Grows u now [] c v badge = (λ h. h, λ h. ground arith)
award_all-Grows u now ((true, name) ∷ rest) c v badge =
    let c' : Conn = (award_badge u now name c).1 in
    Grows-trans u (true, name) rest c.db c'.db (award_all u now rest c').1.db
      (award-Grows u now name c.db c.faults) (award_all-Grows u now rest c') v badge
award_all-Grows u now ((false, name) ∷ rest) c v badge =
    let h = award_all-Grows u now rest c v badge in (h.0, λ k. ground (arith, h.1 k))

abbrev row_or_zeros : String → Option UserStreak → UserStreak
row_or_zeros u none = no_streak u
row_or_zeros u (some s) = s

-- The statistics that the check reads, if its SELECT does not fail.
abbrev pub stats : String → Db → UserStreak
stats u db = row_or_zeros u (row_of u db.streaks)

zeros_earn_nothing : (u badge : String) → listed badge (milestones (no_streak u)) ≡ false
unfolding milestones
zeros_earn_nothing u badge = refl

shown_stats :
    (u : String) (o : Option UserStreak) → or_no_streak u (row_or_error o) ≡ row_or_zeros u o
unfolding or_no_streak row_or_error
shown_stats u none = refl
shown_stats u (some s) = refl

check_split :
    (u : String) (now : ℕ) (db : Db) (faults : List Bool)
    → Grows u
        (milestones (stats u db))
        db
        (check_and_award_badges u now (record { db = db; faults = faults })).1.db
unfolding check_and_award_badges
check_split u now db [] v badge =
    rw shown_stats
      (award_all-Grows u now (milestones (stats u db)) (record { db = db; faults = [] }) v badge)
check_split u now db (true ∷ faults) v badge =
    let c : Conn = record { db = db; faults = faults } in
    let h = award_all-Grows u now (milestones (no_streak u)) c v badge in
    (h.0, λ k. ground (arith, h.1 k, zeros_earn_nothing u badge))
check_split u now db (false ∷ faults) v badge =
    rw shown_stats (
      award_all-Grows u now (milestones (stats u db)) (record { db = db; faults = faults }) v badge)

check-Grows :
    (u : String) (now : ℕ) (c : Conn)
    → Grows u (milestones (stats u c.db)) c.db (check_and_award_badges u now c).1.db
check-Grows u now c v badge = check_split u now c.db c.faults v badge

-- No user has lost a badge, and none has one that is new and not both listed and of the user `u`.
abbrev pub Grown : String → List (Bool × String) → Db → Db → Type 0
Grown u list before after =
    (v badge : String)
    → ((has_badge v badge before && not (has_badge v badge after)) ≡ false)
      × ((has_badge v badge after
            && not (has_badge v badge before || (str_eq u v && listed badge list)))
          ≡ false)

-- Whatever statements fail, a check takes no badge from anyone, and the badges that it adds are
-- the user's and reached by the user's statistics.
check_and_award_badges-Grown :
    (u : String) (now : ℕ) (c : Conn)
    → Grown u (milestones (stats u c.db)) c.db (check_and_award_badges u now c).1.db
check_and_award_badges-Grown u now c v badge =
    let (keeps, adds) = check-Grows u now c v badge in (ground (arith, keeps), ground (arith, adds))

row_awards :
    (u : String) (now : ℕ) (name : String) (db : Db)
    → has_user u db ≡ true
    → (has_user u (badge_row u now name db).1 ≡ true)
      × (has_badge u name (badge_row u now name db).1 ≡ true)
unfolding badge_row
row_awards u now name db known = (ground arith, ground (arith, eq_iff u u, eq_iff name name))

award_all-awards :
    (u : String) (now : ℕ) (badge : String) (list : List (Bool × String)) (db : Db)
    → has_user u db ≡ true
    → listed badge list ≡ true
    → has_badge u badge (award_all u now list (record { db = db; faults = [] })).1.db ≡ true
unfolding award_all award_badge
award_all-awards u now badge [] db known h = absurd (cc)
award_all-awards u now badge ((false, name) ∷ rest) db known h =
    award_all-awards u now badge rest db known h
award_all-awards u now badge ((true, name) ∷ rest) db known h =
    let db' : Db = (badge_row u now name db).1 in
    let (known', has) = row_awards u now name db known in
    elim (Bool-cases (str_eq name badge)) [
      | inl same ↦ (award_all-Grows u now rest (record { db = db'; faults = [] }) u badge).0 (
          subst (λ n. has_badge u n (badge_row u now name db).1 ≡ true) ((eq_iff name badge).0 same)
            has)
      | inr other ↦ award_all-awards u now badge rest db' known' (ground arith)
    ]

check_awards :
    (u : String) (now : ℕ) (badge : String) (db : Db)
    → has_user u db ≡ true
    → listed badge (milestones (stats u db)) ≡ true
    → has_badge u badge (check_and_award_badges u now (record { db = db; faults = [] })).1.db ≡ true
unfolding check_and_award_badges
check_awards u now badge db known h =
    rw shown_stats (award_all-awards u now badge (milestones (stats u db)) db known h)

-- A check whose statements do not fail leaves the user, if there is such a user, with exactly the
-- badges held before and those of the list of prizes that the statistics have reached.
pub check_and_award_badges_exact :
    (u : String) (now : ℕ) (badge : String) (db : Db)
    → has_user u db ≡ true
    → has_badge u badge (check_and_award_badges u now (record { db = db; faults = [] })).1.db
      ≡ has_badge u badge db || has_earned badge (stats u db)
check_and_award_badges_exact u now badge db known = ground (
  arith,
  check-Grows u now (record { db = db; faults = [] }) u badge,
  check_awards u now badge db known,
  listed-milestones badge (stats u db),
  eq_iff u u,
)
