-- ===== src/Repository/Gamification/History.antt =====
-- The table `user_streaks` after any posts and unlocks of any users, each on its day.
use geo_note.Common.{
  ℕ, ◌≤◌, ◌≡◌, ◌≢◌, refl, ◌∙◌, String, true, Option, none, some, List, [], ◌∷◌, inl, inr, arith,
  eq_iff, str_eq, exists, map, if◌then◌else◌, Bool-cases,
}
use geo_note.Common.Rows.{exists-first, absent-first}
use geo_note.Model.{UserStreak}
use geo_note.Repository.Query.{Db}
use geo_note.Repository.Gamification.{
  has_user, row_of, no_streak, posted, first_post, unlocked, upsert, record_post, record_unlock,
}
use geo_note.Repository.Gamification.Zones.{total_zones}
use geo_note.Repository.Gamification.Streaks.{IsStreak, posted-IsStreak, one_post-IsStreak}

pub data Event : Type 0 where
  post : String → ℕ → Event
  unlock : String → ℕ → Event

abbrev pub day : Event → ℕ
day (post u t) = t
day (unlock u t) = t

-- The tables after an event whose statement does not fail.
pub after : Event → Db → Db
after (post u t) db = (record_post u t (record { db = db; faults = [] })).1.db
after (unlock u t) db = (record_unlock u (record { db = db; faults = [] })).1.db

-- The events with the latest first.
pub replay : List Event → Db → Db
replay [] db = db
replay (e ∷ earlier) db = after e (replay earlier db)

abbrev pub days_of : String → List Event → List ℕ
days_of u [] = []
days_of u (post v t ∷ earlier) = if str_eq v u then t ∷ days_of u earlier else days_of u earlier
days_of u (unlock v t ∷ earlier) = days_of u earlier

-- No event is before the one below it.
abbrev pub InOrder : List Event → Type 0
InOrder [] = Unit
InOrder (e ∷ []) = Unit
InOrder (e ∷ f ∷ earlier) = (day f ≤ day e) × InOrder (f ∷ earlier)

-- The row of a user who posted on the days, or has no row and never did.
abbrev pub RowFits : List ℕ → Option UserStreak → Type 0
RowFits [] none = Unit
RowFits [] (some s) =
    (s.last_post_date ≡ none) × (s.total_posts ≡ 0) × (s.current_streak ≡ 0) × (s.max_streak ≡ 0)
RowFits (last ∷ days) none = ⊥
RowFits (last ∷ days) (some s) = IsStreak last days s

abbrev updated : UserStreak → (UserStreak → UserStreak) → Option UserStreak → UserStreak
updated new update none = new
updated new update (some s) = update s

abbrev mapped : (UserStreak → UserStreak) → Option UserStreak → Option UserStreak
mapped f none = none
mapped f (some s) = some (f s)

module _ (u : String) (update : UserStreak → UserStreak) where
  first-update :
      (v : String) (rows : List UserStreak)
      → ((s : UserStreak) → (update s).user_id ≡ s.user_id)
      → row_of v (map (λ s. if str_eq s.user_id u then update s else s) rows)
        ≡ (if str_eq u v then mapped update (row_of v rows) else row_of v rows)
  first-update v [] same = ground arith
  first-update v (s ∷ rows) same =
      ground (
        arith,
        first-update v rows same,
        same s,
        eq_iff s.user_id u,
        eq_iff s.user_id v,
        eq_iff u v,
      )

  -- The row of each user after the statement.
  row_of-upsert :
      (v : String) (new : UserStreak) (db : Db)
      → new.user_id ≡ u
      → has_user u db ≡ true
      → ((s : UserStreak) → (update s).user_id ≡ s.user_id)
      → row_of v (upsert u new update db).1.streaks ≡ (
          if str_eq u v
          then some (updated new update (row_of u db.streaks))
          else row_of v db.streaks)
  row_of-upsert v new db named known same =
      elim (Bool-cases (exists (λ s. str_eq s.user_id u) db.streaks)) [
        | inl e ↦
            let (s, found) = exists-first (λ s. str_eq s.user_id u) db.streaks e in
            rw e (ground (arith, found, first-update v db.streaks same, eq_iff u v))
        | inr e ↦
            rw (e, known)
              (ground (
                arith,
                absent-first (λ s. str_eq s.user_id u) db.streaks e,
                eq_iff u v,
                eq_iff new.user_id v,
              ))
      ]

-- The rows of other users are left alone, account or not.
row_of-upsert_ne :
    (u v : String) (new : UserStreak) (update : UserStreak → UserStreak) (db : Db)
    → new.user_id ≡ u
    → ((s : UserStreak) → (update s).user_id ≡ s.user_id)
    → u ≢ v
    → row_of v (upsert u new update db).1.streaks ≡ row_of v db.streaks
row_of-upsert_ne u v new update db named same ne =
    elim (Bool-cases (exists (λ s. str_eq s.user_id u) db.streaks)) [
      | inl e ↦ rw e (ground (arith, first-update u update v db.streaks same, eq_iff u v))
      | inr e ↦ elim (Bool-cases (has_user u db)) [
        | inl k ↦ rw (e, k) (ground (arith, eq_iff u v, eq_iff new.user_id v))
        | inr k ↦ rw (e, k)
      ]
    ]

abbrev Before : ℕ → List ℕ → Type 0
Before t [] = Unit
Before t (last ∷ days) = last ≤ t

Before-later : (t t' : ℕ) (days : List ℕ) → t ≤ t' → Before t days → Before t' days
Before-later t t' [] h b = tt
Before-later t t' (last ∷ days) h b = omega arith

days_of-Before :
    (u : String) (e : Event) (earlier : List Event)
    → InOrder (e ∷ earlier)
    → Before (day e) (days_of u earlier)
days_of-Before u e [] order = tt
days_of-Before u e (unlock v t ∷ rest) (le, order) =
    Before-later t (day e) (days_of u rest) le (days_of-Before u (unlock v t) rest order)
days_of-Before u e (post v t ∷ rest) (le, order) = elim (Bool-cases (str_eq v u)) [
  | inl own ↦ rw own le
  | inr other ↦
      rw other (Before-later t (day e) (days_of u rest) le (days_of-Before u (post v t) rest order))
]

post-RowFits :
    (u : String) (t zones : ℕ) (days : List ℕ) (row : Option UserStreak)
    → Before t days
    → RowFits days row
    → RowFits (t ∷ days) (some (updated (first_post u t zones) (posted t zones) row))
unfolding first_post posted
post-RowFits u t zones [] none b fits =
    one_post-IsStreak t (first_post u t zones) refl refl refl refl
post-RowFits u t zones [] (some s) b (day, posts, current, best) =
    one_post-IsStreak t (posted t zones s) refl (omega arith) (ground arith) (ground arith)
post-RowFits u t zones (last ∷ days) none b fits = absurd fits
post-RowFits u t zones (last ∷ days) (some s) b fits = posted-IsStreak last t days s fits b zones

unlock-RowFits :
    (u : String) (days : List ℕ) (row : Option UserStreak)
    → RowFits days row
    → RowFits days (some (updated (unlocked (no_streak u)) unlocked row))
unfolding unlocked
unlock-RowFits u [] none fits = (refl, refl, refl, refl)
unlock-RowFits u [] (some s) fits = fits
unlock-RowFits u (last ∷ days) none fits = absurd fits
unlock-RowFits u (last ∷ days) (some s) fits = record {
  last_day = fits.last_day;
  posts = fits.posts;
  latest = fits.latest;
  started = fits.started;
  in_time = fits.in_time;
  current_run = fits.current_run;
  broken_before = fits.broken_before;
  longest = fits.longest;
  reached = fits.reached;
}

after-RowFits :
    (u : String) (e : Event) (db : Db) (earlier : List Event)
    → has_user u db ≡ true
    → InOrder (e ∷ earlier)
    → RowFits (days_of u earlier) (row_of u db.streaks)
    → RowFits (days_of u (e ∷ earlier)) (row_of u (after e db).streaks)
unfolding after record_post record_unlock
after-RowFits u (post v t) db earlier known order fits =
    let zones : ℕ = total_zones u db.messages in
    elim (Bool-cases (str_eq v u)) [
      | inl own ↦
          rw
            (
              (eq_iff v u).0 own,
              row_of-upsert u (posted t zones) u (first_post u t zones) db
                  (unfold first_post in refl) known (λ s. unfold posted in refl),
              (eq_iff u u).1 refl,
            )
            (post-RowFits u t zones (days_of u earlier) (row_of u db.streaks)
              (days_of-Before u (post v t) earlier order) fits)
      | inr other ↦
          rw
            (
              other,
              row_of-upsert_ne v u (first_post v t (total_zones v db.messages))
                  (posted t (total_zones v db.messages)) db (unfold first_post in refl)
                  (λ s. unfold posted in refl) (λ e. cc (other, (eq_iff v u).1 e)),
            )
            fits
    ]
after-RowFits u (unlock v t) db earlier known order fits = elim (Bool-cases (str_eq v u)) [
  | inl own ↦
      rw
        (
          (eq_iff v u).0 own,
          row_of-upsert u unlocked u (unlocked (no_streak u)) db (unfold unlocked in refl) known
              (λ s. unfold unlocked in refl),
          (eq_iff u u).1 refl,
        )
        (unlock-RowFits u (days_of u earlier) (row_of u db.streaks) fits)
  | inr other ↦
      rw
        (row_of-upsert_ne v u (unlocked (no_streak v)) unlocked db (unfold unlocked in refl)
          (λ s. unfold unlocked in refl) (λ e. cc (other, (eq_iff v u).1 e)))
        fits
]

has_user-after : (u : String) (e : Event) (db : Db) → has_user u (after e db) ≡ has_user u db
unfolding after record_post record_unlock
has_user-after u (post v t) db = ground arith
has_user-after u (unlock v t) db = ground arith

has_user-replay :
    (u : String) (events : List Event) (db : Db) → has_user u (replay events db) ≡ has_user u db
unfolding replay
has_user-replay u [] db = refl
has_user-replay u (e ∷ earlier) db =
    has_user-after u e (replay earlier db) ∙ has_user-replay u earlier db

InOrder-rest : (e : Event) (earlier : List Event) → InOrder (e ∷ earlier) → InOrder earlier
InOrder-rest e [] order = tt
InOrder-rest e (f ∷ earlier) (le, order) = order

-- After any posts and unlocks of any users, in the order of their days and on statements that do
-- not fail, the row of a user who had none fits the days of that user's posts: the total is their
-- number, the current streak is the longest run of days with a post that ends on the last of them,
-- and the maximum is the longest run of all.
pub replay-RowFits :
    (u : String) (events : List Event) (db : Db)
    → has_user u db ≡ true
    → row_of u db.streaks ≡ none
    → InOrder events
    → RowFits (days_of u events) (row_of u (replay events db).streaks)
unfolding replay
replay-RowFits u [] db known new order = rw new tt
replay-RowFits u (e ∷ earlier) db known new order =
    after-RowFits u e (replay earlier db) earlier (has_user-replay u earlier db ∙ known) order
      (replay-RowFits u earlier db known new (InOrder-rest e earlier order))
