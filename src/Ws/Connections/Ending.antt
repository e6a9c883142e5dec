-- ===== src/Ws/Connections/Ending.antt =====
-- How connections end: no goroutine and no registration outlives its connection.
use geo_note.Common.{
  ℕ, ◌≡◌, refl, ◌⊎◌, String, Bool, true, false, Option, none, some, List, [], ◌∷◌, ltb, ltb→lt,
  arith, inl, inr, Bool-cases, if◌then◌else◌,
}
use geo_note.Ws.Hub.{
  Hub, Event, Frame, text, close_message, blocked, frame_of, is_client, ◌>>=◌, unregister, round,
  write_pump,
}
use geo_note.Ws.Connections.{
  Sockets, set_socket, stop_reading, read_pump, Writing, fine, no_writer, broken, stop_writing,
  send, take_first, write_messages, write_round, reads, writes, turn, turns,
}
use geo_note.Ws.Connections.Effects.{Leaves, unregister-Leaves}
use geo_note.Ws.Connections.Links.{IsLinked}
use geo_note.Ws.Connections.Turns.{write_round-Linked}

-- The writer has ended, or has only the close message left to write.
abbrev NearlyDone : ℕ → Sockets → Type 0
NearlyDone c s =
    ((s.sockets c).writing ≡ false)
    ⊎ (((s.hub.channels c).buffer ≡ []) × ((s.hub.channels c).closed ≡ true))

stop_writing-done : (c : ℕ) (s : Sockets) → ((stop_writing c s).sockets c).writing ≡ false
unfolding stop_writing
stop_writing-done c s = ground arith

if-NearlyDone :
    (c : ℕ) (b : Bool) (u v : Sockets)
    → NearlyDone c u
    → NearlyDone c v
    → NearlyDone c (if b then u else v)
if-NearlyDone c true u v h k = h
if-NearlyDone c false u v h k = k

emptied :
    (c : ℕ) (s : Sockets)
    → (s.hub.channels c).closed ≡ true
    → NearlyDone c (record s { hub = (write_pump c s.hub).1 })
unfolding write_pump
emptied c s closed = inr (ground arith, ground (arith, closed))

sent-NearlyDone : (f : Frame) (c : ℕ) (s : Sockets) → NearlyDone c s → NearlyDone c (send f c s)
unfolding send
sent-NearlyDone f c s (inl h) =
    if-NearlyDone c (s.sockets c).is_open _ s (inl (ground (arith, h))) (inl h)
sent-NearlyDone f c s (inr h) = if-NearlyDone c (s.sockets c).is_open _ s (inr h) (inr h)

never_blocked : (b : List String) (closed : Bool) → closed ≡ true → ¬ (frame_of b closed ≡ blocked)
never_blocked [] true k e = absurd (cc)
never_blocked [] false k e = absurd (cc)
never_blocked (m ∷ ms) closed k e = absurd (cc)

nothing_left :
    (b : List String) (closed : Bool) (ms : List String)
    → b ≡ []
    → closed ≡ true
    → ¬ (frame_of b closed ≡ text ms)
nothing_left [] true ms h k e = absurd (cc)
nothing_left [] false ms h k e = absurd (cc)
nothing_left (m ∷ rest) closed ms h k e = absurd (cc)

messages-NearlyDone :
    (how : Writing) (f : Frame) (c : ℕ) (s : Sockets)
    → (s.hub.channels c).closed ≡ true
    → round (s.hub.channels c) ≡ f
    → NearlyDone c (write_messages how f c s)
unfolding write_messages round
messages-NearlyDone how blocked c s closed e =
    absurd (never_blocked (s.hub.channels c).buffer (s.hub.channels c).closed closed e)
messages-NearlyDone how close_message c s closed e =
    inl (stop_writing-done c (send close_message c s))
messages-NearlyDone no_writer (text ms) c s closed e =
    inl (stop_writing-done c (record s { hub = take_first c s.hub }))
messages-NearlyDone broken (text ms) c s closed e =
    inl (stop_writing-done c (record s { hub = (write_pump c s.hub).1 }))
messages-NearlyDone fine (text ms) c s closed e =
    let sent : Sockets = record s { hub = (write_pump c s.hub).1 } in
    if-NearlyDone c (s.sockets c).is_open (send (text ms) c sent) (stop_writing c sent)
      (sent-NearlyDone (text ms) c sent (emptied c s closed)) (inl (stop_writing-done c sent))

-- The writer of a client that is no more registered has at most the close message left after a round.
round-NearlyDone :
    (how : Writing) (c : ℕ) (s : Sockets)
    → (s.hub.channels c).closed ≡ true
    → NearlyDone c (write_round how c s)
unfolding write_round
round-NearlyDone how c s closed = elim (Bool-cases (s.sockets c).writing) [
  | inl e ↦ rw e (messages-NearlyDone how (round (s.hub.channels c)) c s closed refl)
  | inr e ↦ rw e (inl e)
]

last_messages :
    (how : Writing) (f : Frame) (c : ℕ) (s : Sockets)
    → (s.hub.channels c).buffer ≡ []
    → (s.hub.channels c).closed ≡ true
    → round (s.hub.channels c) ≡ f
    → ((write_messages how f c s).sockets c).writing ≡ false
unfolding write_messages round
last_messages how blocked c s empty closed e =
    absurd (never_blocked (s.hub.channels c).buffer (s.hub.channels c).closed closed e)
last_messages how close_message c s empty closed e = stop_writing-done c (send close_message c s)
last_messages how (text ms) c s empty closed e =
    absurd (nothing_left (s.hub.channels c).buffer (s.hub.channels c).closed ms empty closed e)

-- The next round ends it.
last_round :
    (how : Writing) (c : ℕ) (s : Sockets)
    → NearlyDone c s
    → ((write_round how c s).sockets c).writing ≡ false
unfolding write_round
last_round how c s (inl done) = rw done done
last_round how c s (inr (empty, closed)) = elim (Bool-cases (s.sockets c).writing) [
  | inl e ↦ rw e (last_messages how (round (s.hub.channels c)) c s empty closed refl)
  | inr e ↦ rw e e
]

-- What is left of a connection: no goroutine, and no registration.
abbrev pub Ended : ℕ → Option Sockets → Type 0
Ended c none = ⊥
Ended c (some s) =
    (is_client c s.hub.clients ≡ false)
    × ((s.sockets c).reading ≡ false)
    × ((s.sockets c).writing ≡ false)
    × ((s.sockets c).is_open ≡ false)

stopped-Ended :
    (c : ℕ) (s : Sockets) (o : Option Hub)
    → Leaves c s.hub o
    → (s.sockets c).writing ≡ false
    → Ended c (
        o >>= λ h. some (
          set_socket c
            (record (s.sockets c) { is_open = false; reading = false })
            (record s { hub = h })))
stopped-Ended c s none l w = l
stopped-Ended c s (some h) (safe, (e1, e2, e3, e4)) w =
    (ground (arith, e2 c), ground arith, ground (arith, w), ground arith)

-- After the writer of a connection has ended for whatever reason, the next read of the connection,
-- whatever it answers, ends the reader and the registration too.
pub read_pump-Ended :
    (failed : Bool) (c : ℕ) (s : Sockets)
    → IsLinked s
    → (s.sockets c).writing ≡ false
    → Ended c (read_pump failed c s)
unfolding read_pump stop_reading
read_pump-Ended failed c s k done =
    let shut = k.writer_open c done in
    elim (Bool-cases (s.sockets c).reading) [
      | inl e ↦ elim (Bool-cases failed) [
        | inl f ↦
            rw (e, f)
              (stopped-Ended c s (unregister c s.hub) (unregister-Leaves c s.hub k.safe) done)
        | inr f ↦
            rw (e, f, shut)
              (stopped-Ended c s (unregister c s.hub) (unregister-Leaves c s.hub k.safe) done)
      ]
      | inr e ↦ rw e (unregistered c s k e, e, done, shut)
    ]
  where
    unregistered :
        (c : ℕ) (s : Sockets)
        → IsLinked s
        → (s.sockets c).reading ≡ false
        → is_client c s.hub.clients ≡ false
    unregistered c s k e = ground (arith, k.reader c, e)

-- Where the hub has dropped a client, as a slow one, two rounds of the writer and one read end its
-- connection, whatever the writes and the read answer.
pub turns-Ended :
    (marshal : Event → Option String) (how how' : Writing) (failed : Bool) (c : ℕ) (s : Sockets)
    → IsLinked s
    → is_client c s.hub.clients ≡ false
    → Ended c (turns marshal (writes how c ∷ writes how' c ∷ reads failed c ∷ []) s)
unfolding turns turn
turns-Ended marshal how how' failed c s k gone =
    let s1 = write_round how c s in
    let s2 = write_round how' c s1 in
    let k2 = write_round-Linked how' c s1 (write_round-Linked how c s k) in
    again (read_pump failed c s2)
      (read_pump-Ended failed c s2 k2 (last_round how' c s1 (first_round how c s k gone)))
  where
    first_round :
        (how : Writing) (c : ℕ) (s : Sockets)
        → IsLinked s
        → is_client c s.hub.clients ≡ false
        → NearlyDone c (write_round how c s)
    first_round how c s k gone = elim (Bool-cases (ltb c s.hub.next)) [
      | inl e ↦ round-NearlyDone how c s (k.shut c (ltb→lt _ _ e) gone)
      | inr e ↦ inl (last_round how c s (inl ((k.fresh c (ground (arith, e))).1)))
    ]

    again : (o : Option Sockets) → Ended c o → Ended c (o >>= λ s. some s)
    again none h = h
    again (some s) h = h
