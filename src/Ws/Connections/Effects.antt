-- ===== src/Ws/Connections/Effects.antt =====
-- What the operations of the hub do to the list of clients and to the channels.
use geo_note.Common.{
  ℕ, ◌≡◌, refl, String, Option, none, some, List, [], ◌∷◌, ◌&&◌, ◌||◌, not, ltb, ◌==◌, length,
  arith, inl, inr, Bool-cases,
}
use geo_note.Ws.Hub.{
  Hub, Event, send_buf_size, is_client, ◌>>=◌, close, unregister, offer, queue, offer_all, deliver,
  broadcast, write_pump,
}
use geo_note.Ws.Hub.Safety.{IsSafe, GoesOn, unregister-GoesOn, broadcast-GoesOn, is_client-select}
use geo_note.Ws.Connections.{take_first, rest_of}

-- The clients and which channels are closed are as before.
abbrev pub Alike : Hub → Hub → Type 0
Alike h h' =
    (h'.clients ≡ h.clients)
    × (h'.next ≡ h.next)
    × ((c : ℕ) → (h'.channels c).closed ≡ (h.channels c).closed)

abbrev AlikeAfter : Hub → Option Hub → Type 0
AlikeAfter h none = Unit
AlikeAfter h (some h') = Alike h h'

offer-Alike : (m : String) (c : ℕ) (h : Hub) → AlikeAfter h (offer m c h)
unfolding offer queue
offer-Alike m c h = elim (Bool-cases (h.channels c).closed) [
  | inl e ↦ rw e tt
  | inr e ↦ elim (Bool-cases (ltb (length (h.channels c).buffer) send_buf_size)) [
    | inl f ↦ rw (e, f) (refl, refl, λ d. ground (arith, e))
    | inr f ↦ rw (e, f) (refl, refl, λ d. refl)
  ]
]

then-Alike :
    (h : Hub) (o : Option Hub) (f : Hub → Option Hub)
    → AlikeAfter h o
    → ((h1 : Hub) → AlikeAfter h1 (f h1))
    → AlikeAfter h (o >>= f)
then-Alike h none f a next = tt
then-Alike h (some h1) f a next = chain (f h1) (next h1) a
  where
    chain : (o : Option Hub) → AlikeAfter h1 o → Alike h h1 → AlikeAfter h o
    chain none k (e1, e2, e3) = tt
    chain (some h2) (k1, k2, k3) (e1, e2, e3) = (cc, cc, λ c. ground (arith, k3 c, e3 c))

offer_all-Alike : (m : String) (cs : List ℕ) (h : Hub) → AlikeAfter h (offer_all m cs h)
unfolding offer_all
offer_all-Alike m [] h = (refl, refl, λ c. refl)
offer_all-Alike m (c ∷ cs) h =
    then-Alike h (offer m c h) (offer_all m cs) (offer-Alike m c h) (offer_all-Alike m cs)

deliver-Alike : (o : Option String) (h : Hub) → AlikeAfter h (deliver o h)
unfolding deliver
deliver-Alike none h = (refl, refl, λ c. refl)
deliver-Alike (some m) h = offer_all-Alike m h.clients h

-- A safe outcome, with the clients and the closed channels of before.
abbrev pub Calm : Hub → Option Hub → Type 0
Calm h none = ⊥
Calm h (some h') = IsSafe h' × Alike h h'

both : (h : Hub) (o : Option Hub) → GoesOn o → AlikeAfter h o → Calm h o
both h none g a = g
both h (some h') g a = (g, a)

pub broadcast-Calm :
    (marshal : Event → Option String) (e : Event) (h : Hub)
    → IsSafe h
    → Calm h (broadcast marshal e h)
unfolding broadcast
broadcast-Calm marshal e h s =
    both h (deliver (marshal e) h) (unfold broadcast in broadcast-GoesOn marshal e h s)
      (deliver-Alike (marshal e) h)

-- The client is unregistered, and its channel closed where it was registered; nothing else changes.
abbrev pub Left : ℕ → Hub → Hub → Type 0
Left c h h' =
    (h'.next ≡ h.next)
    × ((d : ℕ) → is_client d h'.clients ≡ is_client d h.clients && not (c == d))
    × ((d : ℕ)
        → (h'.channels d).closed ≡ (h.channels d).closed || (is_client d h.clients && c == d))
    × ((d : ℕ) → (h'.channels d).buffer ≡ (h.channels d).buffer)

abbrev pub Leaves : ℕ → Hub → Option Hub → Type 0
Leaves c h none = ⊥
Leaves c h (some h') = IsSafe h' × Left c h h'

pub unregister-Leaves : (c : ℕ) (h : Hub) → IsSafe h → Leaves c h (unregister c h)
unfolding unregister close
unregister-Leaves c h s = elim (Bool-cases (is_client c h.clients)) [
  | inl e ↦
      rw (e, s.open_client c e)
        (
          rw (e, s.open_client c e) at (unregister-GoesOn c h s),
          (
            refl,
            λ d. ground (arith, e, is_client-select c d h.clients),
            λ d. ground (arith, e),
            λ d. ground arith,
          ),
        )
  | inr e ↦ rw e (s, (refl, λ d. ground (arith, e), λ d. ground (arith, e), λ d. refl))
]

pub write_pump-Alike : (c : ℕ) (h : Hub) → Alike h (write_pump c h).1
unfolding write_pump
write_pump-Alike c h = (refl, refl, λ d. ground arith)

rest-Alike : (c : ℕ) (h : Hub) (buffer : List String) → Alike h (rest_of c h buffer)
rest-Alike c h [] = (refl, refl, λ d. refl)
rest-Alike c h (m ∷ ms) = (refl, refl, λ d. ground arith)

pub take_first-Alike : (c : ℕ) (h : Hub) → Alike h (take_first c h)
unfolding take_first
take_first-Alike c h = rest-Alike c h (h.channels c).buffer
