-- ===== src/Middleware/AntiSpam.antt =====
-- `AntiSpam` of backend/internal/middleware/ratelimit.go, lines 77 to 125: one action of a user in
-- each cooldown. Times are nanoseconds of the monotonic clock.
pub mod Cooldown
use geo_note.Common.{ℕ, ◌-◌, ◌*◌, String, Option, none, some, ltb, str_eq, if◌then◌else◌}
use geo_note.Common.StringMap.{StringMap, insert, sweep}
use geo_note.Http.{Response, too_many}

abbrev pub LastAction : Type 0
LastAction = StringMap ℕ

module _ (cooldown : ℕ) where
  -- One pass of the cleanup goroutine.
  pub cleanup : ℕ → LastAction → LastAction
  cleanup now last_action = sweep (λ t. ltb (cooldown * 2) (now - t)) last_action

  act : String → ℕ → Option ℕ → LastAction → Option Response × LastAction
  act user_id now none last_action = (none, insert user_id now last_action)
  act user_id now (some last) last_action =
      if ltb (now - last) cooldown
      then (some (too_many "SPAM_LIMIT" "Attendez avant de poster a nouveau"), last_action)
      else (none, insert user_id now last_action)

  -- `none` is a call of the next handler; the empty user is the request without one.
  pub anti_spam : String → ℕ → LastAction → Option Response × LastAction
  unfolding act
  anti_spam user_id now last_action =
      if str_eq user_id ""
      then (none, last_action)
      else act user_id now (last_action user_id) last_action
