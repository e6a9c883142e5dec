-- ===== src/Ws/Hub/Safety.antt =====
-- No order of connections, disconnections and broadcasts makes the hub panic.
use geo_note.Common.{
  inl, inr, refl, All, Option-cases, ltb, ltb→lt, ℕ, ◌≤◌, ◌<◌, ◌≡◌, String, true, false, Option,
  none, some, List, [], ◌∷◌, arith, length, length-append, Bool-cases, select, not, ◌==◌,
  if◌then◌else◌,
}
use mathlib.Core.Path.{subst}
use geo_note.Ws.Hub.{
  Hub, Event, new_hub, send_buf_size, is_client, ◌>>=◌, serve_ws, unregister, offer, queue,
  offer_all, broadcast, drop_first, run_pending, write_pump,
}

-- No client is listed twice.
abbrev pub Distinct : List ℕ → Type 0
Distinct [] = Unit
Distinct (c ∷ cs) = (is_client c cs ≡ false) × Distinct cs

-- Every registered client is a known connection with an open channel, and no buffer is overfull.
pub record IsSafe (h : Hub) : Type 0 where
  pub open_client : (c : ℕ) → is_client c h.clients ≡ true → (h.channels c).closed ≡ false
  pub known : (c : ℕ) → is_client c h.clients ≡ true → c < h.next
  pub room : (c : ℕ) → length (h.channels c).buffer ≤ send_buf_size
  pub unique : Distinct h.clients

-- An outcome that is no panic, and safe.
abbrev pub GoesOn : Option Hub → Type 0
GoesOn none = ⊥
GoesOn (some h) = IsSafe h

GoesOn-bind :
    (f : Hub → Option Hub) (o : Option Hub)
    → GoesOn o
    → ((h : Hub) → IsSafe h → GoesOn (f h))
    → GoesOn (o >>= f)
GoesOn-bind f none g next = g
GoesOn-bind f (some h) g next = next h g

pub is_client-select :
    (c d : ℕ) (cs : List ℕ)
    → is_client d (select (λ e. not (e == c)) cs) ≡ (if c == d then false else is_client d cs)
is_client-select c d [] = ground arith
is_client-select c d (e ∷ cs) = ground (arith, is_client-select c d cs)

Distinct-select : (c : ℕ) (cs : List ℕ) → Distinct cs → Distinct (select (λ e. not (e == c)) cs)
Distinct-select c [] u = tt
Distinct-select c (d ∷ cs) (h, u) = ground (arith, Distinct-select c cs u, is_client-select c d cs)

-- The hub of `NewHub` is safe: it has no client and every buffer is empty.
pub new_hub-IsSafe : IsSafe new_hub
unfolding new_hub
new_hub-IsSafe = record {
  open_client = λ c h. refl;
  known = λ c h. cc;
  room = λ c. omega arith;
  unique = tt;
}

pub serve_ws-IsSafe : (h : Hub) → IsSafe h → IsSafe (serve_ws h)
unfolding serve_ws
serve_ws-IsSafe h s = record {
  open_client = λ c k. ground (arith, s.open_client c);
  known = λ c k. ground (arith, s.known c);
  room = λ c. ground (arith, s.room c);
  unique = ground (arith, s.unique);
}

pub unregister-GoesOn : (c : ℕ) (h : Hub) → IsSafe h → GoesOn (unregister c h)
unfolding unregister
unregister-GoesOn c h s = elim (Bool-cases (is_client c h.clients)) [
  | inl e ↦
      rw (e, s.open_client c e)
        (record {
          open_client = λ d k. ground (arith, s.open_client d, is_client-select c d h.clients);
          known = λ d k. ground (arith, s.known d, is_client-select c d h.clients);
          room = λ d. ground (arith, s.room d, s.room c);
          unique = Distinct-select c h.clients s.unique;
        })
  | inr e ↦ rw e s
]

-- An outcome that is no panic, is safe, and has the clients `cs`.
abbrev Keeps : List ℕ → Option Hub → Type 0
Keeps cs none = ⊥
Keeps cs (some h) = IsSafe h × (h.clients ≡ cs)

queue-IsSafe :
    (m : String) (c : ℕ) (h : Hub)
    → IsSafe h
    → length (h.channels c).buffer < send_buf_size
    → IsSafe (queue m c h)
unfolding queue
queue-IsSafe m c h s k = record {
  open_client = λ d r. ground (arith, s.open_client d r);
  known = s.known;
  room = λ d. ground (arith, s.room d, length-append (h.channels c).buffer (m ∷ []));
  unique = s.unique;
}

offer-Keeps :
    (m : String) (c : ℕ) (h : Hub)
    → IsSafe h
    → is_client c h.clients ≡ true
    → Keeps h.clients (offer m c h)
unfolding offer
offer-Keeps m c h s k = elim (Bool-cases (ltb (length (h.channels c).buffer) send_buf_size)) [
  | inl e ↦ rw (s.open_client c k, e) (queue-IsSafe m c h s (ltb→lt _ _ e), unfold queue in refl)
  | inr e ↦
      rw (s.open_client c k, e)
        (
          record { open_client = s.open_client; known = s.known; room = s.room; unique = s.unique },
          refl,
        )
]

Keeps-bind :
    (ds : List ℕ) (f : Hub → Option Hub) (o : Option Hub)
    → Keeps ds o
    → ((h : Hub) → IsSafe h → h.clients ≡ ds → Keeps ds (f h))
    → Keeps ds (o >>= f)
Keeps-bind ds f none k next = k
Keeps-bind ds f (some h) (s, e) next = next h s e

offer_all-Keeps :
    (m : String) (cs ds : List ℕ) (h : Hub)
    → IsSafe h
    → h.clients ≡ ds
    → All (λ c. is_client c ds ≡ true) cs
    → Keeps ds (offer_all m cs h)
unfolding offer_all
offer_all-Keeps m [] ds h s e k = (s, e)
offer_all-Keeps m (c ∷ cs) ds h s e (k, ks) =
    Keeps-bind ds (offer_all m cs) (offer m c h)
      (subst (λ l. Keeps l (offer m c h)) e (offer-Keeps m c h s (rw e k)))
      (λ h' s' e'. offer_all-Keeps m cs ds h' s' e' ks)

All-clients :
    (ds cs : List ℕ)
    → ((c : ℕ) → is_client c cs ≡ true → is_client c ds ≡ true)
    → All (λ c. is_client c ds ≡ true) cs
All-clients ds [] sub = tt
All-clients ds (c ∷ cs) sub =
    (sub c (ground arith), All-clients ds cs (λ d k. sub d (ground arith)))

Keeps-GoesOn : (cs : List ℕ) (o : Option Hub) → Keeps cs o → GoesOn o
Keeps-GoesOn cs (some h) k = k.0
Keeps-GoesOn cs none k = k

pub broadcast-GoesOn :
    (marshal : Event → Option String) (e : Event) (h : Hub)
    → IsSafe h
    → GoesOn (broadcast marshal e h)
unfolding broadcast
broadcast-GoesOn marshal e h s = elim (Option-cases (marshal e)) [
  | inl f ↦ rw f s
  | inr (m, f) ↦ rw f (
      Keeps-GoesOn h.clients (offer_all m h.clients h) (
        offer_all-Keeps m h.clients h.clients h s refl
          (All-clients h.clients h.clients (λ c k. k))))
]

drop_first-GoesOn : (cs : List ℕ) (h : Hub) → IsSafe h → GoesOn (drop_first cs h)
unfolding drop_first
drop_first-GoesOn [] h s = s
drop_first-GoesOn (c ∷ cs) h s =
    unregister-GoesOn c (record h { pending = cs })
      (record { open_client = s.open_client; known = s.known; room = s.room; unique = s.unique })

pub write_pump-IsSafe : (c : ℕ) (h : Hub) → IsSafe h → IsSafe (write_pump c h).1
unfolding write_pump
write_pump-IsSafe c h s = record {
  open_client = λ d k. ground (arith, s.open_client d k, s.open_client c);
  known = s.known;
  room = λ d. ground (arith, s.room d);
  unique = s.unique;
}

-- What happens to a hub: a connection, a read pump that ends, a broadcast, a goroutine that
-- `Broadcast` started, and a round of a write pump.
pub data Action : Type 0 where
  connect : Action
  disconnect : ℕ → Action
  announce : Event → Action
  settle : Action
  pump : ℕ → Action

module _ (marshal : Event → Option String) where
  pub act : Action → Hub → Option Hub
  act connect h = some (serve_ws h)
  act (disconnect c) h = unregister c h
  act (announce e) h = broadcast marshal e h
  act settle h = run_pending h
  act (pump c) h = some (write_pump c h).1

  pub run : List Action → Hub → Option Hub
  run [] h = some h
  run (a ∷ rest) h = act a h >>= run rest

  pub act-GoesOn : (a : Action) (h : Hub) → IsSafe h → GoesOn (act a h)
  unfolding act run_pending
  act-GoesOn connect h s = serve_ws-IsSafe h s
  act-GoesOn (disconnect c) h s = unregister-GoesOn c h s
  act-GoesOn (announce e) h s = broadcast-GoesOn marshal e h s
  act-GoesOn settle h s = drop_first-GoesOn h.pending h s
  act-GoesOn (pump c) h s = write_pump-IsSafe c h s

  -- From a safe hub, no sequence of actions panics, and the hub stays safe: every registered
  -- client has an open channel, and no buffer holds more than its capacity.
  run-GoesOn : (actions : List Action) (h : Hub) → IsSafe h → GoesOn (run actions h)
  unfolding run
  run-GoesOn [] h s = s
  run-GoesOn (a ∷ rest) h s =
      GoesOn-bind (run rest) (act a h) (act-GoesOn a h s) (λ h' s'. run-GoesOn rest h' s')
