-- ===== src/Middleware/RateLimit/Bucket.antt =====
-- The level of an address's bucket, and what each event does to it.
use geo_note.Common.{
  ℕ, ◌+◌, ◌-◌, ◌*◌, ◌≤◌, ◌<◌, ◌≡◌, ◌≢◌, ap, String, Option, none, some, inl, inr, arith, eq_iff,
  min, Option-cases, Bool-cases, ltb,
}
use geo_note.Http.{Response, OnSome, too_many}
use geo_note.Middleware.RateLimit.{
  Visitor, Visitors, token, second, cleanup, rate_limit, spend, refill, visitor_at,
}

elapsed_split : (rate l t u : ℕ) → l ≤ t → t ≤ u → (u - l) * rate ≡ (t - l) * rate + (u - t) * rate
elapsed_split rate l t u h k =
    let e : u - l ≡ (t - l) + (u - t) = omega arith in omega (arith, ap (λ (n : ℕ). n * rate) e)

idle_long : (rate l now : ℕ) → 60 * second < now - l → 60 * second * rate ≤ (now - l) * rate
idle_long rate l now h = grind arith

module _ (rate max_burst : ℕ) where
  -- How full a bucket would be at `now`; that of an unknown address is full.
  abbrev pub level_of : ℕ → Option Visitor → ℕ
  level_of now none = max_burst * token
  level_of now (some v) = min (max_burst * token) (v.tokens + (now - v.last_seen) * rate)

  pub level_of-le : (now : ℕ) (v : Option Visitor) → level_of now v ≤ max_burst * token
  level_of-le now none = omega arith
  level_of-le now (some v) = omega arith

  abbrev pub level : String → ℕ → Visitors → ℕ
  level ip now visitors = level_of now (visitors ip)

  -- No visitor was seen after `now`.
  abbrev pub IsPast : ℕ → Visitors → Type 0
  IsPast now visitors = (ip : String) (v : Visitor) → visitors ip ≡ some v → v.last_seen ≤ now

  -- A request goes through exactly when its bucket holds a whole token, and takes one.
  pub rate_limit-level :
      (ip : String) (now : ℕ) (s : Visitors)
      → let (r, s') = rate_limit rate max_burst ip now s in
        ((r ≡ none) → (token ≤ level ip now s) × (level ip now s' + token ≡ level ip now s))
        × ((r ≢ none) → (level ip now s < token) × (level ip now s' ≡ level ip now s))
  unfolding rate_limit
  rate_limit-level ip now s = ground (arith, eq_iff ip ip)

  -- Time fills a bucket at `rate`, and no faster.
  pub level_later :
      (ip : String) (t u : ℕ) (s : Visitors)
      → IsPast t s
      → t ≤ u
      → level ip u s ≤ level ip t s + (u - t) * rate
  level_later ip t u s past h = elim (Option-cases (s ip)) [
    | inl e ↦ rw e (omega arith)
    | inr (v, e) ↦ rw e (omega (arith, elapsed_split rate v.last_seen t u (past ip v e) h))
  ]

  -- What a request leaves behind: other buckets, and the order of times.
  pub rate_limit-level_ne :
      (ip j : String) (now t : ℕ) (s : Visitors)
      → ip ≢ j
      → level j t (rate_limit rate max_burst ip now s).1 ≡ level j t s
  unfolding rate_limit
  rate_limit-level_ne ip j now t s h = ground (arith, eq_iff ip j)

  pub rate_limit-IsPast :
      (ip : String) (t now : ℕ) (s : Visitors)
      → IsPast t s
      → t ≤ now
      → IsPast now (rate_limit rate max_burst ip now s).1
  unfolding rate_limit
  rate_limit-IsPast ip t now s past h j v e = ground (arith, eq_iff ip j, past j v)

  -- The cleanup forgets only buckets that are full again.
  pub cleanup-level :
      (ip : String) (now : ℕ) (s : Visitors)
      → max_burst * token ≤ 60 * second * rate
      → level ip now (cleanup now s) ≡ level ip now s
  unfolding cleanup
  cleanup-level ip now s full = elim (Option-cases (s ip)) [
    | inl e ↦ rw e
    | inr (v, e) ↦ rw e (ground (arith, idle_long rate v.last_seen now))
  ]

  pub cleanup-IsPast :
      (t now : ℕ) (s : Visitors) → IsPast t s → t ≤ now → IsPast now (cleanup now s)
  unfolding cleanup
  cleanup-IsPast t now s past h j v e = ground (arith, past j v)

-- The answer of a request that the rate limit stops.
pub rate_limit-refusal :
    (rate max_burst : ℕ) (ip : String) (now : ℕ) (visitors : Visitors) (P : Response → Type 0)
    → P (too_many "RATE_LIMIT" "Trop de requetes")
    → OnSome P (rate_limit rate max_burst ip now visitors).0
unfolding rate_limit spend
rate_limit-refusal rate max_burst ip now visitors P p =
    spend_refusal (refill rate max_burst now (visitor_at rate max_burst now (visitors ip)))
  where
    spend_refusal : (v : Visitor) → OnSome P (spend rate max_burst ip v visitors).0
    spend_refusal v = elim (Bool-cases (ltb v.tokens token)) [
      | inl poor ↦ rw poor p
      | inr rich ↦ rw rich tt
    ]
