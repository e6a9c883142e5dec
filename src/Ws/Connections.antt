-- ===== src/Ws/Connections.antt =====
-- backend/internal/ws/client.go: a connection with its two goroutines, `readPump` and `writePump`.
-- What the WebSocket library answers is chosen by the event: a message over the read limit, a passed
-- deadline and a lost connection are failures of it. A closed connection neither reads nor writes any
-- more. Times are nanoseconds. An event is one turn of one goroutine.
pub mod Effects
pub mod Links
pub mod Turns
pub mod Ending
pub mod Stream
pub mod Order
pub mod Fifo
use geo_note.Common.{
  ℕ, ◌+◌, ◌*◌, ◌/◌, String, Bool, true, false, Option, none, some, List, [], ◌∷◌, ◌++◌, ◌&&◌, ◌||◌,
  not, ◌==◌, if◌then◌else◌,
}
use geo_note.Ws.Hub.{
  Event, Hub, Frame, text, close_message, blocked, set_channel, ◌>>=◌, serve_ws, unregister,
  broadcast, run_pending, round, write_pump,
}

abbrev pub second : ℕ
second = 1000000000

abbrev pub pong_wait : ℕ
pong_wait = 60 * second

abbrev pub ping_period : ℕ
ping_period = pong_wait * 9 / 10

-- `Client.conn`, the read deadline that is set on it, which goroutines run, and the frames that went
-- out on it.
pub record Socket : Type 0 where
  pub is_open : Bool
  pub deadline : ℕ
  pub reading : Bool
  pub writing : Bool
  pub wire : List Frame

-- The hub, and the connections of its clients.
pub record Sockets : Type 0 where
  pub hub : Hub
  pub sockets : ℕ → Socket

abbrev pub set_socket : ℕ → Socket → Sockets → Sockets
set_socket c k s = record s { sockets = λ d. if c == d then k else s.sockets d }

abbrev pub no_socket : Socket
no_socket = record { is_open = false; deadline = 0; reading = false; writing = false; wire = [] }

-- `ServeWS`: a failed upgrade leaves all as it is; else both goroutines start, and the read pump sets
-- its deadline.
unfoldable pub connect : Bool → ℕ → Sockets → Sockets
connect false now s = s
connect true now s =
    set_socket s.hub.next
      (record {
        is_open = true;
        deadline = now + pong_wait;
        reading = true;
        writing = true;
        wire = [];
      })
      (record s { hub = serve_ws s.hub })

-- The deferred calls of `readPump`.
pub stop_reading : ℕ → Sockets → Option Sockets
stop_reading c s = unregister c s.hub >>= λ h. some (
    set_socket c (record (s.sockets c) { is_open = false; reading = false }) (record s { hub = h }))

-- A `ReadMessage` of `readPump`: what it reads is dropped, and an error ends the loop.
pub read_pump : Bool → ℕ → Sockets → Option Sockets
unfolding stop_reading
read_pump failed c s =
    if (s.sockets c).reading
    then if failed || not (s.sockets c).is_open then stop_reading c s else some s
    else some s

-- The pong handler.
pub pong : ℕ → ℕ → Sockets → Sockets
pong now c s =
    if (s.sockets c).reading && (s.sockets c).is_open
    then set_socket c (record (s.sockets c) { deadline = now + pong_wait }) s
    else s

-- How the writes of a round end: all go well, there is no writer, or the writer does not close.
pub data Writing : Type 0 where
  fine no_writer broken : Writing

-- The deferred calls of `writePump`.
unfoldable pub stop_writing : ℕ → Sockets → Sockets
stop_writing c s = set_socket c (record (s.sockets c) { is_open = false; writing = false }) s

-- A frame goes out.
pub send : Frame → ℕ → Sockets → Sockets
send frame c s =
    if (s.sockets c).is_open
    then set_socket c (record (s.sockets c) { wire = (s.sockets c).wire ++ frame ∷ [] }) s
    else s

-- A message that was received and then not written.
abbrev pub rest_of : ℕ → Hub → List String → Hub
rest_of c h [] = h
rest_of c h (m ∷ ms) = record h {
  channels = set_channel c (record { buffer = ms; closed = (h.channels c).closed }) h.channels;
}

pub take_first : ℕ → Hub → Hub
take_first c h = rest_of c h (h.channels c).buffer

-- The `case message, ok := <-c.send` of `writePump`, which waits where there is none.
pub write_messages : Writing → Frame → ℕ → Sockets → Sockets
unfolding stop_writing send take_first
write_messages how blocked c s = s
write_messages how close_message c s = stop_writing c (send close_message c s)
write_messages no_writer (text ms) c s = stop_writing c (record s { hub = take_first c s.hub })
write_messages broken (text ms) c s = stop_writing c (record s { hub = (write_pump c s.hub).1 })
write_messages fine (text ms) c s =
    if (s.sockets c).is_open
    then send (text ms) c (record s { hub = (write_pump c s.hub).1 })
    else stop_writing c (record s { hub = (write_pump c s.hub).1 })

pub write_round : Writing → ℕ → Sockets → Sockets
unfolding write_messages
write_round how c s =
    if (s.sockets c).writing then write_messages how (round (s.hub.channels c)) c s else s

-- The `case <-ticker.C`: a ping.
pub tick : Bool → ℕ → Sockets → Sockets
unfolding stop_writing
tick failed c s =
    if (s.sockets c).writing && (failed || not (s.sockets c).is_open) then stop_writing c s else s

-- A turn of a goroutine.
pub data Turn : Type 0 where
  connects : Bool → ℕ → Turn
  reads : Bool → ℕ → Turn
  pongs : ℕ → ℕ → Turn
  writes : Writing → ℕ → Turn
  ticks : Bool → ℕ → Turn
  announces : Event → Turn
  settles : Turn

abbrev with_hub : Sockets → Option Hub → Option Sockets
with_hub s none = none
with_hub s (some h) = some (record s { hub = h })

pub turn : (Event → Option String) → Turn → Sockets → Option Sockets
turn marshal (connects upgraded now) s = some (connect upgraded now s)
turn marshal (reads failed c) s = read_pump failed c s
turn marshal (pongs now c) s = some (pong now c s)
turn marshal (writes how c) s = some (write_round how c s)
turn marshal (ticks failed c) s = some (tick failed c s)
turn marshal (announces e) s = with_hub s (broadcast marshal e s.hub)
turn marshal settles s = with_hub s (run_pending s.hub)

pub turns : (Event → Option String) → List Turn → Sockets → Option Sockets
turns marshal [] s = some s
turns marshal (t ∷ rest) s = turn marshal t s >>= turns marshal rest
