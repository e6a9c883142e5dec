-- ===== src/Middleware/RateLimit.antt =====
-- `RateLimit` of backend/internal/middleware/ratelimit.go, lines 10 to 75: a token bucket for each
-- remote address. Tokens are counted in billionths and times in nanoseconds, so that the refill
-- `elapsed * rate` is exact where the source rounds a float64. `time.Now` is read under the lock
-- and carries a monotonic reading, so that `now` is never below `last_seen`.
pub mod Bucket
pub mod Window
use geo_note.Common.{ℕ, ◌+◌, ◌-◌, ◌*◌, String, Bool, Option, none, some, ltb, if◌then◌else◌}
use geo_note.Common.StringMap.{StringMap, insert, sweep}
use geo_note.Http.{Response, too_many}

abbrev pub token : ℕ
token = 1000000000

abbrev pub second : ℕ
second = 1000000000

pub record Visitor : Type 0 where
  pub tokens : ℕ
  pub last_seen : ℕ

abbrev pub Visitors : Type 0
Visitors = StringMap Visitor

-- One pass of the cleanup goroutine.
pub cleanup : ℕ → Visitors → Visitors
cleanup now visitors = sweep (λ v. ltb (60 * second) (now - v.last_seen)) visitors

module _ (rate max_burst : ℕ) where
  -- `v, exists := visitors[ip]`, with the visitor made where there is none.
  visitor_at : ℕ → Option Visitor → Visitor
  visitor_at now none = record { tokens = max_burst * token; last_seen = now }
  visitor_at now (some v) = v

  refill : ℕ → Visitor → Visitor
  refill now v =
      let tokens = v.tokens + (now - v.last_seen) * rate in
      record {
        tokens = if ltb (max_burst * token) tokens then max_burst * token else tokens;
        last_seen = now;
      }

  -- `none` is a call of the next handler.
  spend : String → Visitor → Visitors → Option Response × Visitors
  spend ip v visitors =
      if ltb v.tokens token
      then (some (too_many "RATE_LIMIT" "Trop de requetes"), insert ip v visitors)
      else (none, insert ip (record v { tokens = v.tokens - token }) visitors)

  unfoldable pub rate_limit : String → ℕ → Visitors → Option Response × Visitors
  unfolding visitor_at refill spend
  rate_limit ip now visitors = spend ip (refill now (visitor_at now (visitors ip))) visitors
