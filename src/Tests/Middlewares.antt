-- ===== src/Tests/Middlewares.antt =====
-- The middlewares of backend/internal/middleware on concrete requests.
use geo_note.Common.{
  ◌+◌, ◌-◌, ◌*◌, ◌≤◌, ◌≡◌, ◌≢◌, ◌↔◌, String, Option, none, some, List, [], ◌∷◌, inr, arith, eq_iff,
  str_eq, if◌then◌else◌,
}
use geo_note.Http.{too_many}
use geo_note.Middleware.RateLimit as RateLimit
use geo_note.Middleware.RateLimit.Window as Window
use geo_note.Middleware.AntiSpam as AntiSpam
use geo_note.Middleware.AntiSpam.Cooldown as Cooldown
use geo_note.Middleware.Auth.{auth}
use geo_note.Middleware.Auth.Access.{Carries, auth_iff}

abbrev no_visitors : RateLimit.Visitors
no_visitors ip = none

abbrev two_requests : List Window.Event
two_requests = Window.request "10.0.0.1" 5 ∷ Window.tick 6 ∷ Window.request "10.0.0.1" 7 ∷ []

run_bound_example :
    Window.run 10 20 "10.0.0.1" no_visitors two_requests * RateLimit.token
    ≤ 20 * RateLimit.token + (10 - 0) * 10
run_bound_example =
    Window.run_bound 10 20 "10.0.0.1" 0 10 no_visitors two_requests (λ ip v h. absurd (cc))
      (omega arith, (omega arith, (omega arith, omega arith))) (omega arith)

abbrev nobody_yet : AntiSpam.LastAction
nobody_yet user_id = none

abbrev alice : String
alice = "alice"

alice_named : alice ≢ ""
alice_named e = absurd (ground (arith, eq_iff "alice" "", e))

first_passes : (AntiSpam.anti_spam 30 "alice" 100 nobody_yet).0 ≡ none
first_passes =
    (Cooldown.anti_spam_lets_through 30 "alice" 100 nobody_yet alice_named (λ v h. absurd (cc))).0

abbrev in_between : List Cooldown.Event
in_between = Cooldown.action "bob" 105 ∷ Cooldown.tick 110 ∷ []

run_spacing_example :
    (AntiSpam.anti_spam 30 "alice" 120
      (Cooldown.run 30 (AntiSpam.anti_spam 30 "alice" 100 nobody_yet).1 in_between)).0
    ≡ some (too_many "SPAM_LIMIT" "Attendez avant de poster a nouveau")
run_spacing_example =
    Cooldown.run_spacing 30 "alice" 100 120 nobody_yet in_between alice_named first_passes
      (omega arith, omega arith, (omega arith, omega arith, tt)) (omega arith) (omega arith)

abbrev alice_only : String → Option String
alice_only token = if str_eq token "t1" then some "alice" else none

auth_iff_example :
    (auth alice_only "Bearer t1" ≡ inr (some "alice")) ↔ Carries alice_only "Bearer t1" "alice"
auth_iff_example = auth_iff alice_only "Bearer t1" "alice"
