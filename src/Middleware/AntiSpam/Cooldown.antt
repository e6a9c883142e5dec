-- ===== src/Middleware/AntiSpam/Cooldown.antt =====
-- Two actions of a user are never closer than the cooldown, whatever happens in between.
use geo_note.Common.{
  ℕ, ◌+◌, ◌≤◌, ◌<◌, ◌≡◌, ◌≢◌, String, Option, none, some, List, [], ◌∷◌, inl, inr, arith, eq_iff,
  Option-cases, Bool-cases, ltb, str_eq, ◌-◌,
}
use geo_note.Http.{Response, OnSome, too_many}
use geo_note.Middleware.AntiSpam.{LastAction, act, cleanup, anti_spam}

pub data Event : Type 0 where
  action : String → ℕ → Event
  tick : ℕ → Event

abbrev pub time : Event → ℕ
time (action u t) = t
time (tick t) = t

module _ (cooldown : ℕ) where
  pub after : LastAction → Event → LastAction
  after s (action u t) = (anti_spam cooldown u t s).1
  after s (tick t) = cleanup cooldown t s

  pub run : LastAction → List Event → LastAction
  run s [] = s
  run s (e ∷ es) = run (after s e) es

  -- The events fall in the cooldown that begins at `t`.
  abbrev pub Within : ℕ → List Event → Type 0
  Within t [] = Unit
  Within t (e ∷ es) = (t ≤ time e) × (time e < t + cooldown) × Within t es

  abbrev pub Since : ℕ → Option ℕ → Type 0
  Since t none = ⊥
  Since t (some v) = t ≤ v

  -- The user is remembered, with an action at `t` or later.
  abbrev pub IsRecent : String → ℕ → LastAction → Type 0
  IsRecent u t s = Since t (s u)

  after-IsRecent :
      (u : String) (t : ℕ) (s : LastAction) (e : Event)
      → t ≤ time e
      → time e < t + cooldown
      → IsRecent u t s
      → IsRecent u t (after s e)
  unfolding after anti_spam cleanup
  after-IsRecent u t s (tick x) h k r = ground arith
  after-IsRecent u t s (action w x) h k r = ground (arith, eq_iff w u, eq_iff w "")

  run-IsRecent :
      (u : String) (t : ℕ) (s : LastAction) (es : List Event)
      → Within t es
      → IsRecent u t s
      → IsRecent u t (run s es)
  unfolding run
  run-IsRecent u t s [] within r = r
  run-IsRecent u t s (e ∷ es) (h, k, within) r =
      run-IsRecent u t (after s e) es within (after-IsRecent u t s e h k r)

  passed-IsRecent :
      (u : String) (t : ℕ) (s : LastAction)
      → u ≢ ""
      → (anti_spam cooldown u t s).0 ≡ none
      → IsRecent u t (anti_spam cooldown u t s).1
  unfolding anti_spam
  passed-IsRecent u t s named h = ground (arith, eq_iff u "", eq_iff u u)

  recent_rejected :
      (u : String) (t x : ℕ) (s : LastAction)
      → u ≢ ""
      → t ≤ x
      → x < t + cooldown
      → IsRecent u t s
      → (anti_spam cooldown u x s).0
        ≡ some (too_many "SPAM_LIMIT" "Attendez avant de poster a nouveau")
  unfolding anti_spam
  recent_rejected u t x s named le h r = ground (arith, eq_iff u "")

  -- After an action of a named user at `t` has gone through, any other requests and any cleanups
  -- within the cooldown change nothing: the user's next request before its end is refused.
  pub run_spacing :
      (u : String) (t x : ℕ) (s : LastAction) (es : List Event)
      → u ≢ ""
      → (anti_spam cooldown u t s).0 ≡ none
      → Within t es
      → t ≤ x
      → x < t + cooldown
      → (anti_spam cooldown u x (run (anti_spam cooldown u t s).1 es)).0
        ≡ some (too_many "SPAM_LIMIT" "Attendez avant de poster a nouveau")
  run_spacing u t x s es named passed within le h =
      recent_rejected u t x (run (anti_spam cooldown u t s).1 es) named le h (
        run-IsRecent u t (anti_spam cooldown u t s).1 es within
          (passed-IsRecent u t s named passed))

  -- The first request of a named user, and one that comes a cooldown or more after the last that
  -- went through, goes through and is remembered.
  pub anti_spam_lets_through :
      (u : String) (x : ℕ) (s : LastAction)
      → u ≢ ""
      → ((v : ℕ) → s u ≡ some v → v + cooldown ≤ x)
      → ((anti_spam cooldown u x s).0 ≡ none) × ((anti_spam cooldown u x s).1 u ≡ some x)
  unfolding anti_spam
  anti_spam_lets_through u x s named idle = elim (Option-cases (s u)) [
    | inl e ↦ (ground (arith, eq_iff u ""), ground (arith, eq_iff u "", eq_iff u u))
    | inr (v, e) ↦
        (ground (arith, eq_iff u "", idle v e), ground (arith, eq_iff u "", eq_iff u u, idle v e))
  ]

-- The answer of a request that comes within the cooldown.
module _ (cooldown : ℕ) (u : String) (now : ℕ) (s : LastAction) (P : Response → Type 0)
    (p : P (too_many "SPAM_LIMIT" "Attendez avant de poster a nouveau")) where
  act_refusal : (last : Option ℕ) → OnSome P (act cooldown u now last s).0
  unfolding act
  act_refusal none = tt
  act_refusal (some last) = elim (Bool-cases (ltb (now - last) cooldown)) [
    | inl soon ↦ rw soon p
    | inr late ↦ rw late tt
  ]

  pub anti_spam-refusal : OnSome P (anti_spam cooldown u now s).0
  unfolding anti_spam
  anti_spam-refusal = elim (Bool-cases (str_eq u "")) [
    | inl nobody ↦ rw nobody tt
    | inr named ↦ rw named (act_refusal (s u))
  ]
