-- ===== src/Tests/Connections.antt =====
-- A connection that is announced to, written to, dropped and ended.
use geo_note.Common.{◌≡◌, ◌<◌, ◌==◌, if◌then◌else◌, refl, List, [], ◌∷◌, false, true, arith}
use geo_note.Ws.Hub.{serve_ws, register, new_hub}
use geo_note.Ws.Connections.{
  Sockets, connect, stop_writing, Turn, connects, reads, pongs, writes, ticks, announces, settles,
  fine, broken, turns, read_pump, no_socket, pong_wait,
}
use geo_note.Ws.Connections.Links.{IsLinked, Linked-connect, stop_writing-Linked}
use geo_note.Ws.Connections.Turns.{no_sockets, no_sockets-IsLinked, StaysLinked, turns-Linked}
use geo_note.Ws.Connections.Ending.{Ended, read_pump-Ended, turns-Ended}
use geo_note.Ws.Connections.Stream.{FollowsTurn}
use geo_note.Ws.Connections.Fifo.{announced, turns-Follows}
use geo_note.Tests.Sockets.{marshal_payload, new_message}

abbrev busy : List Turn
busy =
    connects true 0
    ∷ announces new_message
    ∷ announces new_message
    ∷ pongs 54000000000 0
    ∷ writes fine 0
    ∷ ticks false 0
    ∷ announces new_message
    ∷ reads true 0
    ∷ writes broken 0
    ∷ settles
    ∷ []

turns-Linked_example : StaysLinked (turns marshal_payload busy no_sockets)
turns-Linked_example = turns-Linked marshal_payload busy no_sockets no_sockets-IsLinked

abbrev one_socket : Sockets
one_socket = connect true 0 no_sockets

one_socket-IsLinked : IsLinked one_socket
one_socket-IsLinked = Linked-connect true 0 no_sockets no_sockets-IsLinked

one_known : 0 < one_socket.hub.next
unfolding connect serve_ws register new_hub
one_known = ground arith

turns-Follows_example :
    FollowsTurn
      (announced marshal_payload busy)
      0
      one_socket
      (turns marshal_payload busy one_socket)
turns-Follows_example =
    turns-Follows marshal_payload busy 0 one_socket one_socket-IsLinked one_known

one_socket-listens :
    ((one_socket.sockets 0).reading ≡ true)
    × ((one_socket.sockets 0).is_open ≡ true)
    × ((one_socket.sockets 0).deadline ≡ pong_wait)
unfolding connect serve_ws register new_hub
one_socket-listens = (ground arith, ground arith, ground arith)

mute : ((stop_writing 0 one_socket).sockets 0).writing ≡ false
unfolding stop_writing
mute = ground arith

read_pump-Ended_example : Ended 0 (read_pump false 0 (stop_writing 0 one_socket))
read_pump-Ended_example =
    read_pump-Ended false 0 (stop_writing 0 one_socket)
      (stop_writing-Linked 0 one_socket one_socket-IsLinked) mute

-- The hub has dropped the client, and a message still waits.
abbrev dropped : Sockets
dropped = record {
  hub = record {
    clients = [];
    channels = λ c. record { buffer = "{}" ∷ []; closed = true };
    next = 1;
    pending = [];
  };
  sockets = λ c.
      if c == 0
      then record {
        is_open = true;
        deadline = 60000000000;
        reading = true;
        writing = true;
        wire = [];
      }
      else no_socket;
}

dropped-IsLinked : IsLinked dropped
dropped-IsLinked = record {
  safe = record {
    open_client = λ c h. absurd (cc);
    known = λ c h. absurd (cc);
    room = λ c. omega arith;
    unique = tt;
  };
  reader = λ c r. absurd (cc);
  reader_open = λ c. ground arith;
  writer_open = λ c. ground arith;
  shut = λ c i r. refl;
  fresh = λ c i. (ground (arith, i), ground (arith, i));
}

turns-Ended_example :
    Ended 0 (turns marshal_payload (writes fine 0 ∷ writes broken 0 ∷ reads false 0 ∷ []) dropped)
turns-Ended_example = turns-Ended marshal_payload fine broken false 0 dropped dropped-IsLinked refl
