-- ===== src/Ws/Hub/Delivery.antt =====
-- What a broadcast does to each channel.
use geo_note.Common.{
  ℕ, ◌≡◌, String, Bool, true, false, Option, none, some, List, [], ◌∷◌, ◌++◌, ◌&&◌, ◌||◌, not,
  arith, length, ltb, inl, inr, if◌then◌else◌, Bool-cases, refl,
}
use geo_note.Ws.Hub.{Hub, Event, send_buf_size, is_client, offer, queue, offer_all, broadcast}
use geo_note.Ws.Hub.Safety.{IsSafe, Distinct}

abbrev pub has_room : ℕ → Hub → Bool
has_room c h = ltb (length (h.channels c).buffer) send_buf_size

-- Each client of `cs` that has room gets the message last in its queue, each that has none is due
-- to be unregistered, and the other connections are left alone.
abbrev pub Delivered : String → List ℕ → Hub → ℕ → Option Hub → Type 0
Delivered m cs h c none = ⊥
Delivered m cs h c (some h') =
    ((h'.channels c).buffer ≡ (
      if is_client c cs && has_room c h
      then (h.channels c).buffer ++ m ∷ []
      else (h.channels c).buffer))
    × (is_client c h'.pending ≡ (is_client c cs && not (has_room c h)) || is_client c h.pending)
    × ((h'.channels c).closed ≡ (h.channels c).closed)
    × (h'.clients ≡ h.clients)

-- Offering to one more client that is not in the rest.
Delivered-cons :
    (m : String) (d c : ℕ) (cs : List ℕ) (h h1 : Hub) (o : Option Hub)
    → is_client d cs ≡ false
    → Delivered m (d ∷ []) h c (some h1)
    → Delivered m cs h1 c o
    → Delivered m (d ∷ cs) h c o
Delivered-cons m d c cs h h1 none u p q = q
Delivered-cons m d c cs h h1 (some h') u p q = ground arith

Delivered-queue :
    (m : String) (d c : ℕ) (h : Hub)
    → has_room d h ≡ true
    → (h.channels d).closed ≡ false
    → Delivered m (d ∷ []) h c (some (queue m d h))
unfolding queue
Delivered-queue m d c h r is_open = (ground arith, ground arith, ground arith, refl)

Delivered-full :
    (m : String) (d c : ℕ) (h : Hub)
    → has_room d h ≡ false
    → Delivered m (d ∷ []) h c (some (record h { pending = d ∷ h.pending }))
Delivered-full m d c h r = ground arith

offer_all-Delivered :
    (m : String) (cs : List ℕ) (c : ℕ) (h : Hub)
    → ((d : ℕ) → is_client d cs ≡ true → (h.channels d).closed ≡ false)
    → Distinct cs
    → Delivered m cs h c (offer_all m cs h)
unfolding offer_all offer
offer_all-Delivered m [] c h is_open u = (refl, refl, refl, refl)
offer_all-Delivered m (d ∷ cs) c h is_open (fresh, u) = elim (Bool-cases (has_room d h)) [
  | inl r ↦
      rw (is_open d (ground arith), r)
        (Delivered-cons m d c cs h (queue m d h) (offer_all m cs (queue m d h)) fresh
          (Delivered-queue m d c h r (is_open d (ground arith)))
          (offer_all-Delivered m cs c (queue m d h)
            (λ e k. unfold queue in ground (arith, is_open e)) u))
  | inr r ↦
      rw (is_open d (ground arith), r)
        (Delivered-cons m d c cs h (record h { pending = d ∷ h.pending })
          (offer_all m cs (record h { pending = d ∷ h.pending })) fresh (Delivered-full m d c h r)
          (offer_all-Delivered m cs c (record h { pending = d ∷ h.pending })
            (λ e k. is_open e (ground arith)) u))
]

-- In a safe hub a broadcast whose event encodes reaches, at the end of the queue, each registered
-- client that has room; each that has none is due to be unregistered; no other queue changes, no
-- channel is closed or opened, and the registered clients are the same.
pub broadcast-Delivered :
    (marshal : Event → Option String) (e : Event) (m : String) (h : Hub) (c : ℕ)
    → IsSafe h
    → marshal e ≡ some m
    → Delivered m h.clients h c (broadcast marshal e h)
unfolding broadcast
broadcast-Delivered marshal e m h c s encoded =
    rw encoded (offer_all-Delivered m h.clients c h s.open_client s.unique)
