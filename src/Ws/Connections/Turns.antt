-- ===== src/Ws/Connections/Turns.antt =====
-- Every turn of a goroutine keeps the hub and the connections in agreement.
use geo_note.Common.{
  ℕ, ◌≡◌, refl, String, Bool, false, Option, none, some, List, [], ◌∷◌, ◌&&◌, ◌||◌, not, arith, inl,
  inr, Bool-cases,
}
use geo_note.Ws.Hub.{
  Hub, Event, Frame, text, close_message, blocked, ◌>>=◌, unregister, broadcast, run_pending,
  drop_first, round, write_pump, new_hub,
}
use geo_note.Ws.Hub.Safety.{IsSafe, new_hub-IsSafe}
use geo_note.Ws.Connections.{
  Socket, Sockets, set_socket, no_socket, stop_reading, read_pump, Writing, fine, no_writer, broken,
  stop_writing, send, take_first, write_messages, write_round, tick, Turn, connects, reads, pongs,
  writes, ticks, announces, settles, with_hub, turn, turns,
}
use geo_note.Ws.Connections.Effects.{
  Calm, broadcast-Calm, Left, Leaves, unregister-Leaves, take_first-Alike,
}
use geo_note.Ws.Connections.Links.{
  IsLinked, Linked-connect, Linked-hub, if-Linked, stop_writing-Linked, send-Linked, pong-Linked,
  rest-IsSafe, pumped-Linked,
}

write_messages-Linked :
    (how : Writing) (f : Frame) (c : ℕ) (s : Sockets)
    → IsLinked s
    → IsLinked (write_messages how f c s)
unfolding write_messages take_first
write_messages-Linked how blocked c s k = k
write_messages-Linked how close_message c s k =
    stop_writing-Linked c (send close_message c s) (send-Linked close_message c s k)
write_messages-Linked no_writer (text ms) c s k =
    stop_writing-Linked c (record s { hub = take_first c s.hub })
      (Linked-hub s (take_first c s.hub) k
        (rest-IsSafe c s.hub (s.hub.channels c).buffer refl k.safe) (take_first-Alike c s.hub))
write_messages-Linked broken (text ms) c s k =
    stop_writing-Linked c (record s { hub = (write_pump c s.hub).1 }) (pumped-Linked c s k)
write_messages-Linked fine (text ms) c s k =
    let sent : Sockets = record s { hub = (write_pump c s.hub).1 } in
    if-Linked (s.sockets c).is_open (send (text ms) c sent) (stop_writing c sent)
      (send-Linked (text ms) c sent (pumped-Linked c s k))
      (stop_writing-Linked c sent (pumped-Linked c s k))

pub write_round-Linked :
    (how : Writing) (c : ℕ) (s : Sockets) → IsLinked s → IsLinked (write_round how c s)
unfolding write_round
write_round-Linked how c s k = elim (Bool-cases (s.sockets c).writing) [
  | inl e ↦ rw e (write_messages-Linked how (round (s.hub.channels c)) c s k)
  | inr e ↦ rw e k
]

tick-Linked : (failed : Bool) (c : ℕ) (s : Sockets) → IsLinked s → IsLinked (tick failed c s)
unfolding tick
tick-Linked failed c s k =
    elim (Bool-cases ((s.sockets c).writing && (failed || not (s.sockets c).is_open))) [
      | inl e ↦ rw e (stop_writing-Linked c s k)
      | inr e ↦ rw e k
    ]

-- A turn that is no panic, and after which all agree.
abbrev pub StaysLinked : Option Sockets → Type 0
StaysLinked none = ⊥
StaysLinked (some s) = IsLinked s

with_hub-Linked :
    (s : Sockets) (o : Option Hub) → IsLinked s → Calm s.hub o → StaysLinked (with_hub s o)
with_hub-Linked s none k g = g
with_hub-Linked s (some h) k (safe, alike) = Linked-hub s h k safe alike

stopped-Linked :
    (c : ℕ) (n : Socket) (s : Sockets) (h : Hub)
    → IsLinked s
    → IsSafe h
    → Left c s.hub h
    → n.is_open ≡ false
    → ((s.sockets c).writing ≡ false → n.writing ≡ false)
    → ((s.sockets c).reading ≡ false → n.reading ≡ false)
    → IsLinked (set_socket c n (record s { hub = h }))
stopped-Linked c n s h k safe (e1, e2, e3, e4) closed w r = record {
  safe = safe;
  reader = λ d. ground (arith, k.reader d, e2 d);
  reader_open = λ d. ground (arith, k.reader_open d, closed);
  writer_open = λ d. ground (arith, k.writer_open d, closed);
  shut = λ d i. ground (arith, k.shut d, e1, e2 d, e3 d);
  fresh = λ d i. (ground (arith, i, e1, k.fresh d, r), ground (arith, i, e1, k.fresh d, w));
}

unregistered-Linked :
    (c : ℕ) (n : Socket) (s : Sockets) (o : Option Hub)
    → IsLinked s
    → Leaves c s.hub o
    → n.is_open ≡ false
    → ((s.sockets c).writing ≡ false → n.writing ≡ false)
    → ((s.sockets c).reading ≡ false → n.reading ≡ false)
    → StaysLinked (o >>= λ h. some (set_socket c n (record s { hub = h })))
unregistered-Linked c n s none k l closed w r = l
unregistered-Linked c n s (some h) k (safe, left) closed w r =
    stopped-Linked c n s h k safe left closed w r

read_pump-Linked :
    (failed : Bool) (c : ℕ) (s : Sockets) → IsLinked s → StaysLinked (read_pump failed c s)
unfolding read_pump stop_reading
read_pump-Linked failed c s k = elim (Bool-cases (s.sockets c).reading) [
  | inl e ↦ elim (Bool-cases (failed || not (s.sockets c).is_open)) [
    | inl f ↦
        rw (e, f)
          (unregistered-Linked c (record (s.sockets c) { is_open = false; reading = false }) s
            (unregister c s.hub) k (unregister-Leaves c s.hub k.safe) refl (λ w. w) (λ r. refl))
    | inr f ↦ rw (e, f) k
  ]
  | inr e ↦ rw e k
]

left-Linked :
    (c : ℕ) (s : Sockets) (o : Option Hub)
    → IsLinked s
    → Leaves c s.hub o
    → StaysLinked (with_hub s o)
left-Linked c s none k l = l
left-Linked c s (some h) k (safe, (e1, e2, e3, e4)) = record {
  safe = safe;
  reader = λ d. ground (arith, k.reader d, e2 d);
  reader_open = k.reader_open;
  writer_open = k.writer_open;
  shut = λ d i. ground (arith, k.shut d, e1, e2 d, e3 d);
  fresh = λ d i. k.fresh d (rw e1 at i);
}

settled-Linked :
    (s : Sockets) (cs : List ℕ) → IsLinked s → StaysLinked (with_hub s (drop_first cs s.hub))
unfolding drop_first
settled-Linked s [] k = k
settled-Linked s (c ∷ cs) k =
    let h : Hub = record s.hub { pending = cs } in
    let safe : IsSafe h = record {
      open_client = k.safe.open_client;
      known = k.safe.known;
      room = k.safe.room;
      unique = k.safe.unique;
    } in
    left-Linked c (record s { hub = h }) (unregister c h)
      (Linked-hub s h k safe (refl, refl, λ d. refl)) (unregister-Leaves c h safe)

module _ (marshal : Event → Option String) where
  pub turn-Linked : (t : Turn) (s : Sockets) → IsLinked s → StaysLinked (turn marshal t s)
  unfolding turn run_pending
  turn-Linked (connects upgraded now) s k = Linked-connect upgraded now s k
  turn-Linked (reads failed c) s k = read_pump-Linked failed c s k
  turn-Linked (pongs now c) s k = pong-Linked now c s k
  turn-Linked (writes how c) s k = write_round-Linked how c s k
  turn-Linked (ticks failed c) s k = tick-Linked failed c s k
  turn-Linked (announces e) s k =
      with_hub-Linked s (broadcast marshal e s.hub) k (broadcast-Calm marshal e s.hub k.safe)
  turn-Linked settles s k = settled-Linked s s.hub.pending k

  then-Linked :
      (o : Option Sockets) (f : Sockets → Option Sockets)
      → StaysLinked o
      → ((s : Sockets) → IsLinked s → StaysLinked (f s))
      → StaysLinked (o >>= f)
  then-Linked none f k next = k
  then-Linked (some s) f k next = next s k

  -- Whatever turns the goroutines take and whatever their reads and writes answer, from a hub and
  -- connections that agree there is no panic and they agree again: registered clients have a running
  -- reader and an open channel, and a connection whose reader or writer has ended is closed.
  pub turns-Linked : (ts : List Turn) (s : Sockets) → IsLinked s → StaysLinked (turns marshal ts s)
  unfolding turns
  turns-Linked [] s k = k
  turns-Linked (t ∷ ts) s k =
      then-Linked (turn marshal t s) (turns marshal ts) (turn-Linked t s k) (turns-Linked ts)

-- A new hub without connections.
abbrev pub no_sockets : Sockets
no_sockets = record { hub = new_hub; sockets = λ c. no_socket }

pub no_sockets-IsLinked : IsLinked no_sockets
unfolding new_hub
no_sockets-IsLinked = record {
  safe = unfold new_hub in new_hub-IsSafe;
  reader = λ c r. absurd (cc);
  reader_open = λ c r. refl;
  writer_open = λ c r. refl;
  shut = λ c i. absurd (omega (arith, i));
  fresh = λ c i. (refl, refl);
}
