-- ===== src/Ws/Connections/Links.antt =====
-- The hub and the two goroutines of each connection agree at any time.
use geo_note.Common.{
  ℕ, ◌≤◌, ◌<◌, ◌≡◌, refl, ap, String, Bool, true, false, List, [], ◌∷◌, ◌&&◌, ◌+◌, ◌++◌, length,
  arith, if◌then◌else◌,
}
use geo_note.Ws.Hub.{Hub, Frame, is_client, serve_ws, register, write_pump}
use geo_note.Ws.Hub.Safety.{IsSafe, serve_ws-IsSafe, write_pump-IsSafe}
use geo_note.Ws.Connections.{
  Socket, Sockets, set_socket, connect, pong, stop_writing, send, rest_of, pong_wait,
}
use geo_note.Ws.Connections.Effects.{Alike, write_pump-Alike}

-- The hub is safe; the reader of a registered client runs; a connection whose reader or writer has
-- ended is closed; the channel of a client that is no more registered is closed; and no goroutine runs
-- for a connection that is not there yet.
pub record IsLinked (s : Sockets) : Type 0 where
  pub safe : IsSafe s.hub
  pub reader : (c : ℕ) → is_client c s.hub.clients ≡ true → (s.sockets c).reading ≡ true
  pub reader_open : (c : ℕ) → (s.sockets c).reading ≡ false → (s.sockets c).is_open ≡ false
  pub writer_open : (c : ℕ) → (s.sockets c).writing ≡ false → (s.sockets c).is_open ≡ false
  pub shut :
      (c : ℕ)
      → c < s.hub.next
      → is_client c s.hub.clients ≡ false
      → (s.hub.channels c).closed ≡ true
  pub fresh :
      (c : ℕ) → s.hub.next ≤ c → ((s.sockets c).reading ≡ false) × ((s.sockets c).writing ≡ false)

pub Linked-connect :
    (upgraded : Bool) (now : ℕ) (s : Sockets) → IsLinked s → IsLinked (connect upgraded now s)
unfolding connect serve_ws register
Linked-connect false now s k = k
Linked-connect true now s k = record {
  safe = unfold connect in serve_ws-IsSafe s.hub k.safe;
  reader = λ c. ground (arith, k.reader c);
  reader_open = λ c. ground (arith, k.reader_open c);
  writer_open = λ c. ground (arith, k.writer_open c);
  shut = λ c. ground (arith, k.shut c);
  fresh = λ c h. (ground (arith, h, k.fresh c), ground (arith, h, k.fresh c));
}

-- A change of the hub that leaves the clients and the closed channels.
pub Linked-hub :
    (s : Sockets) (h : Hub)
    → IsLinked s
    → IsSafe h
    → Alike s.hub h
    → IsLinked (record s { hub = h })
Linked-hub s h k safe (e1, e2, e3) = record {
  safe = safe;
  reader = λ c r. k.reader c (rw e1 at r);
  reader_open = k.reader_open;
  writer_open = k.writer_open;
  shut = λ c i r. rw (e3 c) (k.shut c (rw e2 at i) (rw e1 at r));
  fresh = λ c i. k.fresh c (rw e2 at i);
}

-- A change of one connection that ends the writer, or closes it, or neither.
Linked-socket :
    (c : ℕ) (n : Socket) (s : Sockets)
    → IsLinked s
    → n.reading ≡ (s.sockets c).reading
    → (n.reading ≡ false → n.is_open ≡ false)
    → (n.writing ≡ false → n.is_open ≡ false)
    → ((s.sockets c).writing ≡ false → n.writing ≡ false)
    → IsLinked (set_socket c n s)
Linked-socket c n s k same r w was = record {
  safe = k.safe;
  reader = λ d. ground (arith, k.reader d, same);
  reader_open = λ d. ground (arith, k.reader_open d, r);
  writer_open = λ d. ground (arith, k.writer_open d, w);
  shut = k.shut;
  fresh = λ d i. (ground (arith, i, k.fresh d, same), ground (arith, i, k.fresh d, was));
}

pub if-Linked : (b : Bool) (u v : Sockets) → IsLinked u → IsLinked v → IsLinked (if b then u else v)
if-Linked true u v h k = h
if-Linked false u v h k = k

pub stop_writing-Linked : (c : ℕ) (s : Sockets) → IsLinked s → IsLinked (stop_writing c s)
unfolding stop_writing
stop_writing-Linked c s k =
    Linked-socket c (record (s.sockets c) { is_open = false; writing = false }) s k refl (λ e. refl)
      (λ e. refl) (λ e. refl)

pub send-Linked : (frame : Frame) (c : ℕ) (s : Sockets) → IsLinked s → IsLinked (send frame c s)
unfolding send
send-Linked frame c s k =
    if-Linked (s.sockets c).is_open _ s
      (Linked-socket c (record (s.sockets c) { wire = (s.sockets c).wire ++ frame ∷ [] }) s k refl
        (k.reader_open c) (k.writer_open c) (λ w. w))
      k

pub pong-Linked : (now c : ℕ) (s : Sockets) → IsLinked s → IsLinked (pong now c s)
unfolding pong
pong-Linked now c s k =
    if-Linked ((s.sockets c).reading && (s.sockets c).is_open) _ s
      (Linked-socket c (record (s.sockets c) { deadline = now + pong_wait }) s k refl
        (k.reader_open c) (k.writer_open c) (λ w. w))
      k

pub rest-IsSafe :
    (c : ℕ) (h : Hub) (buffer : List String)
    → buffer ≡ (h.channels c).buffer
    → IsSafe h
    → IsSafe (rest_of c h buffer)
rest-IsSafe c h [] e s = s
rest-IsSafe c h (m ∷ ms) e s = record {
  open_client = λ d r. ground (arith, s.open_client d r);
  known = s.known;
  room = λ d. ground (arith, s.room d, s.room c, ap length e);
  unique = s.unique;
}

pub pumped-Linked :
    (c : ℕ) (s : Sockets) → IsLinked s → IsLinked (record s { hub = (write_pump c s.hub).1 })
pumped-Linked c s k =
    Linked-hub s (write_pump c s.hub).1 k (write_pump-IsSafe c s.hub k.safe)
      (write_pump-Alike c s.hub)
