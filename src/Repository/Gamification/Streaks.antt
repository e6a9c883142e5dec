-- ===== src/Repository/Gamification/Streaks.antt =====
-- The streak columns against the days on which the user posted.
use geo_note.Common.{
  ℕ, zero, suc, ◌+◌, ◌-◌, ◌≤◌, ◌<◌, ◌≡◌, refl, Bool, true, false, some, List, [], ◌∷◌, ◌⊎◌, inl,
  inr, arith, max, length, exists, ◌==◌, if◌then◌else◌, Bool-cases, ltb, leb, ltb→lt,
}
use geo_note.Model.{UserStreak}
use geo_note.Repository.Gamification.{next_streak, posted}

abbrev pub on_day : ℕ → List ℕ → Bool
on_day x days = exists (λ d. d == x) days

-- A run of `k` days from `x` on, with a post on each.
abbrev pub IsRun : List ℕ → ℕ → ℕ → Type 0
IsRun days x k = (y : ℕ) → x ≤ y → y < x + k → on_day y days ≡ true

-- The streak row after posts on the days `last ∷ days`, the latest first.
pub record IsStreak (last : ℕ) (days : List ℕ) (s : UserStreak) : Type 0 where
  pub last_day : s.last_post_date ≡ some last
  pub posts : s.total_posts ≡ length (last ∷ days)
  pub latest : (x : ℕ) → on_day x (last ∷ days) ≡ true → x ≤ last
  pub started : 1 ≤ s.current_streak
  pub in_time : s.current_streak ≤ last + 1
  pub current_run : (x : ℕ) → x ≤ last → last < x + s.current_streak → on_day x (last ∷ days) ≡ true
  pub broken_before : (x : ℕ) → x + s.current_streak ≡ last → on_day x (last ∷ days) ≡ false
  pub longest : (x k : ℕ) → IsRun (last ∷ days) x k → k ≤ s.max_streak
  pub reached : (x : ℕ) × IsRun (last ∷ days) x s.max_streak

module _ (last t : ℕ) (days : List ℕ) (s : UserStreak) (inv : IsStreak last days s)
    (le : last ≤ t) where
  abbrev next : ℕ
  next = next_streak t s

  next-cases :
      ((t ≡ last) × (next ≡ s.current_streak))
      ⊎ ((t ≡ last + 1) × (next ≡ s.current_streak + 1))
      ⊎ ((last + 1 < t) × (next ≡ 1))
  unfolding next_streak
  next-cases = ground (arith, inv.last_day)

  on_day-cons :
      (x : ℕ) → on_day x (t ∷ last ∷ days) ≡ (if t == x then true else on_day x (last ∷ days))
  on_day-cons x = refl

  next_current : (x : ℕ) → x ≤ t → t < x + next → on_day x (t ∷ last ∷ days) ≡ true
  next_current x h k = ground (arith, next-cases, inv.current_run x)

  next_broken : (x : ℕ) → x + next ≡ t → on_day x (t ∷ last ∷ days) ≡ false
  next_broken x h = ground (arith, next-cases, inv.broken_before x, inv.latest x, inv.started)

  -- A run that reaches the new day is no longer than the new streak.
  run_at_end : (x k : ℕ) → IsRun (t ∷ last ∷ days) x (suc k) → x + k ≡ t → suc k ≤ next
  run_at_end x k run e = ground (
    arith,
    next-cases,
    run (last - s.current_streak),
    run (t - 1),
    inv.latest (t - 1),
    inv.broken_before (last - s.current_streak),
    inv.started,
    inv.in_time,
  )

  run_before : (x k : ℕ) → IsRun (t ∷ last ∷ days) x k → x + k ≤ t → k ≤ s.max_streak
  run_before x k run h = inv.longest x k (λ y a b. ground (arith, run y a b))

  run_ends : (x k : ℕ) → IsRun (t ∷ last ∷ days) x (suc k) → x + k ≤ t
  run_ends x k run = ground (arith, run (x + k) (omega arith) (omega arith), inv.latest (x + k))

  next_longest : (x k : ℕ) → IsRun (t ∷ last ∷ days) x k → k ≤ max s.max_streak next
  next_longest x zero run = omega arith
  next_longest x (suc k) run = elim (Bool-cases (ltb (x + k) t)) [
    | inl before ↦ omega (arith, run_before x (suc k) run (omega (arith, ltb→lt (x + k) t before)))
    | inr at_end ↦ omega (arith, run_at_end x k run (ground (arith, run_ends x k run)))
  ]

  next_reached : (x : ℕ) × IsRun (t ∷ last ∷ days) x (max s.max_streak next)
  next_reached = elim (Bool-cases (leb next s.max_streak)) [
    | inl same ↦ (inv.reached.0, λ y a b. ground (arith, inv.reached.1 y))
    | inr longer ↦ (t + 1 - next, λ y a b. ground (arith, next-cases, next_current y, inv.in_time))
  ]

  -- A post on a later day, or the same, keeps the row right.
  pub posted-IsStreak : (zones : ℕ) → IsStreak t (last ∷ days) (posted t zones s)
  unfolding posted
  posted-IsStreak zones = record {
    last_day = refl;
    posts = omega (arith, inv.posts);
    latest = λ x h. ground (arith, inv.latest x);
    started = ground (arith, next-cases);
    in_time = ground (arith, next-cases, inv.in_time);
    current_run = next_current;
    broken_before = next_broken;
    longest = next_longest;
    reached = next_reached;
  }

-- The row of one post.
pub one_post-IsStreak :
    (t : ℕ) (s : UserStreak)
    → s.last_post_date ≡ some t
    → s.total_posts ≡ 1
    → s.current_streak ≡ 1
    → s.max_streak ≡ 1
    → IsStreak t [] s
one_post-IsStreak t s day posts current best = record {
  last_day = day;
  posts = posts;
  latest = λ x h. ground arith;
  started = omega arith;
  in_time = omega arith;
  current_run = λ x h k. ground arith;
  broken_before = λ x h. ground arith;
  longest = λ x k run. ground (arith, run x, run (x + 1));
  reached = (t, λ y h k. ground arith);
}
