-- ===== src/Tests/Sockets.antt =====
-- The hub of backend/internal/ws with two connections.
use geo_note.Common.{refl, String, Option, some, List, [], ◌∷◌}
use geo_note.Ws.Hub.{Hub, Event, new_hub, serve_ws, broadcast}
use geo_note.Ws.Hub.Safety.{
  Action, connect, announce, disconnect, settle, pump, new_hub-IsSafe, serve_ws-IsSafe,
}
use geo_note.Ws.Hub.Delivery.{Delivered, broadcast-Delivered}

abbrev pub marshal_payload : Event → Option String
marshal_payload e = some e.payload

abbrev pub new_message : Event
new_message = record { kind = "new_message"; payload = "{}" }

abbrev day_of_two : List Action
day_of_two =
    connect
    ∷ connect
    ∷ announce new_message
    ∷ disconnect 0
    ∷ announce new_message
    ∷ settle
    ∷ pump 1
    ∷ []

abbrev two_clients : Hub
two_clients = serve_ws (serve_ws new_hub)

broadcast-Delivered_example :
    Delivered "{}" two_clients.clients two_clients 1
      (broadcast marshal_payload new_message two_clients)
broadcast-Delivered_example =
    broadcast-Delivered marshal_payload new_message "{}" two_clients 1
      (serve_ws-IsSafe (serve_ws new_hub) (serve_ws-IsSafe new_hub new_hub-IsSafe)) refl

-- The goroutine that unregisters the first client has not run yet.
abbrev slow_one : Hub
slow_one = record two_clients { pending = 0 ∷ [] }
