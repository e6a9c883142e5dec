-- ===== src/Middleware/RateLimit/Window.antt =====
-- How many requests of one address the limiter lets through in a window, whatever else happens.
use geo_note.Common.{
  ℕ, ◌+◌, ◌-◌, ◌*◌, ◌≤◌, ◌≡◌, ap, String, Option, none, some, List, [], ◌∷◌, inl, inr, arith,
  eq_iff, str_eq, if◌then◌else◌, Bool-cases,
}
use geo_note.Http.{Response}
use geo_note.Middleware.RateLimit.{Visitors, token, second, cleanup, rate_limit}
use geo_note.Middleware.RateLimit.Bucket.{
  level, IsPast, rate_limit-level, rate_limit-level_ne, rate_limit-IsPast, cleanup-level,
  cleanup-IsPast, level_later, level_of-le,
}

-- What reaches the limiter: a request of an address, or the tick of the cleanup goroutine.
pub data Event : Type 0 where
  request : String → ℕ → Event
  tick : ℕ → Event

abbrev pub time : Event → ℕ
time (request ip t) = t
time (tick t) = t

-- The events come in the order of time, from `t` on and until `u`.
abbrev pub InOrder : ℕ → List Event → ℕ → Type 0
InOrder t [] u = t ≤ u
InOrder t (e ∷ es) u = (t ≤ time e) × InOrder (time e) es u

InOrder-le : (t : ℕ) (es : List Event) (u : ℕ) → InOrder t es u → t ≤ u
InOrder-le t [] u h = h
InOrder-le t (e ∷ es) u (h, order) = omega (arith, InOrder-le (time e) es u order)

window_split : (t v u rate : ℕ) → t ≤ v → v ≤ u → (u - t) * rate ≡ (v - t) * rate + (u - v) * rate
window_split t v u rate h k =
    let e : u - t ≡ (v - t) + (u - v) = omega arith in omega (arith, ap (λ (n : ℕ). n * rate) e)

abbrev passed : Option Response → ℕ
passed none = 1
passed (some r) = 0

module _ (rate max_burst : ℕ) where
  pub after : Visitors → Event → Visitors
  after s (request ip t) = (rate_limit rate max_burst ip t s).1
  after s (tick t) = cleanup t s

  pub admitted : String → Visitors → Event → ℕ
  admitted ip s (request j t) =
      if str_eq j ip then passed (rate_limit rate max_burst j t s).0 else 0
  admitted ip s (tick t) = 0

  -- How many requests of `ip` the events let through.
  pub run : String → Visitors → List Event → ℕ
  run ip s [] = 0
  run ip s (e ∷ es) = admitted ip s e + run ip (after s e) es

  passed-level :
      (ip : String) (t : ℕ) (s : Visitors)
      → level rate max_burst ip t (rate_limit rate max_burst ip t s).1
          + passed (rate_limit rate max_burst ip t s).0 * token
        ≡ level rate max_burst ip t s
  passed-level ip t s = ground (arith, rate_limit-level rate max_burst ip t s)

  -- One event: what it lets through is taken from the bucket.
  after-level :
      (ip : String) (s : Visitors) (e : Event)
      → max_burst * token ≤ 60 * second * rate
      → level rate max_burst ip (time e) (after s e) + admitted ip s e * token
        ≡ level rate max_burst ip (time e) s
  unfolding after admitted
  after-level ip s (tick t) full = rw (cleanup-level rate max_burst ip t s full) (omega arith)
  after-level ip s (request j t) full = elim (Bool-cases (str_eq j ip)) [
    | inl same ↦ rw (same, (eq_iff j ip).0 same) (passed-level ip t s)
    | inr other ↦
        rw
          (
            other,
            rate_limit-level_ne rate max_burst j ip t t s (λ e. cc (other, (eq_iff j ip).1 e)),
          )
          (omega arith)
  ]

  after-IsPast :
      (t : ℕ) (s : Visitors) (e : Event)
      → IsPast rate max_burst t s
      → t ≤ time e
      → IsPast rate max_burst (time e) (after s e)
  unfolding after
  after-IsPast t s (request ip u) past h = rate_limit-IsPast rate max_burst ip t u s past h
  after-IsPast t s (tick u) past h = cleanup-IsPast rate max_burst t u s past h

  run-level :
      (ip : String) (t u : ℕ) (s : Visitors) (es : List Event)
      → IsPast rate max_burst t s
      → InOrder t es u
      → max_burst * token ≤ 60 * second * rate
      → run ip s es * token ≤ level rate max_burst ip t s + (u - t) * rate
  unfolding run
  run-level ip t u s [] past order full = omega arith
  run-level ip t u s (e ∷ es) past (h, order) full = omega (
    arith,
    after-level ip s e full,
    level_later rate max_burst ip t (time e) s past h,
    run-level ip (time e) u (after s e) es (after-IsPast t s e past h) order full,
    window_split t (time e) u rate h (InOrder-le (time e) es u order),
  )

  -- In a window of events in the order of time, where no visitor was seen after its start and a
  -- minute refills the burst (the cleanup forgets an address after a minute), an address gets through
  -- at most its burst and what the rate refills, whatever other addresses send and whenever the
  -- cleanup runs.
  pub run_bound :
      (ip : String) (t u : ℕ) (s : Visitors) (es : List Event)
      → IsPast rate max_burst t s
      → InOrder t es u
      → max_burst * token ≤ 60 * second * rate
      → run ip s es * token ≤ max_burst * token + (u - t) * rate
  run_bound ip t u s es past order full =
      omega (arith, run-level ip t u s es past order full, level_of-le rate max_burst t (s ip))
