-- ===== src/Ws/Hub/Draining.antt =====
-- The goroutines that `Broadcast` starts for slow clients come to an end.
use geo_note.Common.{
  ℕ, zero, suc, ◌≡◌, refl, Option, none, some, List, [], ◌∷◌, ◌&&◌, ◌||◌, not, arith, length, inl,
  inr, Bool-cases,
}
use geo_note.Ws.Hub.{Hub, is_client, ◌>>=◌, close, unregister, drop_first, run_pending}
use geo_note.Ws.Hub.Safety.{IsSafe, GoesOn, unregister-GoesOn, is_client-select}

-- The first `n` goroutines that have not run yet run.
run_all : ℕ → Hub → Option Hub
unfolding run_pending
run_all zero h = some h
run_all (suc n) h = run_pending h >>= run_all n

-- The clients `cs` are unregistered and their channels closed; the others are as before.
abbrev pub Gone : List ℕ → Hub → Hub → Type 0
Gone cs h h' =
    (c : ℕ)
    → (is_client c h'.clients ≡ is_client c h.clients && not (is_client c cs))
      × ((h'.channels c).closed
          ≡ (h.channels c).closed || (is_client c h.clients && is_client c cs))

abbrev Step : ℕ → Hub → Option Hub → Type 0
Step c h none = ⊥
Step c h (some h') = (h'.pending ≡ h.pending) × Gone (c ∷ []) h h'

unregister-Step : (c : ℕ) (h : Hub) → IsSafe h → Step c h (unregister c h)
unfolding unregister close
unregister-Step c h s = elim (Bool-cases (is_client c h.clients)) [
  | inl e ↦
      rw (e, s.open_client c e)
        (refl, λ d. (ground (arith, e, is_client-select c d h.clients), ground (arith, e)))
  | inr e ↦ rw e (refl, λ d. (ground (arith, e), ground (arith, e)))
]

-- None is left of the goroutines that wait for `cs`, and these clients are gone.
abbrev pub Drained : List ℕ → Hub → Option Hub → Type 0
Drained cs h none = ⊥
Drained cs h (some h') = (h'.pending ≡ []) × Gone cs h h'

Drained-step :
    (c : ℕ) (cs : List ℕ) (h h1 : Hub) (o : Option Hub)
    → Gone (c ∷ []) h h1
    → Drained cs h1 o
    → Drained (c ∷ cs) h o
Drained-step c cs h h1 none g k = k
Drained-step c cs h h1 (some h') g (empty, k) =
    (empty, λ d. (ground (arith, g d, k d), ground (arith, g d, k d)))

drain :
    (c : ℕ) (cs : List ℕ) (h : Hub) (o : Option Hub)
    → Step c (record h { pending = cs }) o
    → GoesOn o
    → ((h1 : Hub) → h1.pending ≡ cs → IsSafe h1 → Drained cs h1 (run_all (length cs) h1))
    → Drained (c ∷ cs) h (o >>= run_all (length cs))
drain c cs h none step g next = absurd g
drain c cs h (some h1) (same, gone) g next =
    Drained-step c cs h h1 (run_all (length cs) h1) gone (next h1 same g)

pub rest-IsSafe : (cs : List ℕ) (h : Hub) → IsSafe h → IsSafe (record h { pending = cs })
rest-IsSafe cs h s = record {
  open_client = s.open_client;
  known = s.known;
  room = s.room;
  unique = s.unique;
}

run_all-list :
    (cs : List ℕ) (h : Hub) → h.pending ≡ cs → IsSafe h → Drained cs h (run_all (length cs) h)
unfolding run_all run_pending drop_first
run_all-list [] h e s = (e, λ c. (ground arith, ground arith))
run_all-list (c ∷ cs) h e s =
    let safe = rest-IsSafe cs h s in
    rw e (
      drain c cs h (unregister c (record h { pending = cs }))
        (unregister-Step c (record h { pending = cs }) safe)
        (unregister-GoesOn c (record h { pending = cs }) safe) (run_all-list cs))

-- From a safe hub, as many steps as there are pending goroutines leave none, and the hub goes on:
-- exactly the clients that they were for are no longer registered, with their channels closed.
run_all-Drained : (h : Hub) → IsSafe h → Drained h.pending h (run_all (length h.pending) h)
run_all-Drained h s = run_all-list h.pending h refl s
