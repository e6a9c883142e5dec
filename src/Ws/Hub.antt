-- ===== src/Ws/Hub.antt =====
-- backend/internal/ws/hub.go, and the channels of client.go. A client is the number of its connection; its channel
-- `send` lives in the hub's store. The hub's lock makes each operation one step. `none` is a Go
-- panic: a send on a closed channel, or a second close. The iteration order of the client map does
-- not matter, since each client has a channel of its own. JSON encoding is a parameter.
pub mod Safety
pub mod Delivery
pub mod Draining
use geo_note.Common.{
  ℕ, suc, String, Bool, true, false, Option, none, some, List, [], ◌∷◌, ◌++◌, ltb, ◌==◌, length,
  select, exists, not, if◌then◌else◌,
}

abbrev pub send_buf_size : ℕ
send_buf_size = 256

-- A Go channel of messages.
pub record Channel : Type 0 where
  pub buffer : List String
  pub closed : Bool

-- `Event`, with its payload as it is encoded.
pub record Event : Type 0 where
  pub kind : String
  pub payload : String

-- `Hub`, with the channels of all connections so far, the number of the next connection, and the
-- goroutines `go h.Unregister(client)` that have not run yet.
pub record Hub : Type 0 where
  pub clients : List ℕ
  pub channels : ℕ → Channel
  pub next : ℕ
  pub pending : List ℕ

abbrev no_channel : ℕ → Channel
no_channel c = record { buffer = []; closed = false }

unfoldable pub new_hub : Hub
new_hub = record { clients = []; channels = no_channel; next = 0; pending = [] }

abbrev pub is_client : ℕ → List ℕ → Bool
is_client c clients = exists (λ d. d == c) clients

abbrev pub set_channel : ℕ → Channel → (ℕ → Channel) → ℕ → Channel
set_channel c ch channels d = if c == d then ch else channels d

infixl 5 ◌>>=◌
abbrev pub ◌>>=◌ {ℓ κ} : {A : Type ℓ} {B : Type κ} → Option A → (A → Option B) → Option B
none >>= f = none
some a >>= f = f a

unfoldable pub register : ℕ → Hub → Hub
register c h = if is_client c h.clients then h else record h { clients = c ∷ h.clients }

-- `ServeWS` after a successful upgrade: a new client with an empty channel.
unfoldable pub serve_ws : Hub → Hub
unfolding register
serve_ws h = register h.next (record h {
  next = suc h.next;
  channels = set_channel h.next (record { buffer = []; closed = false }) h.channels;
})

unfoldable pub close : ℕ → Hub → Option Hub
close c h =
    if (h.channels c).closed
    then none
    else some (record h {
      channels =
          set_channel c (record { buffer = (h.channels c).buffer; closed = true }) h.channels;
    })

unfoldable pub unregister : ℕ → Hub → Option Hub
unfolding close
unregister c h =
    if is_client c h.clients
    then close c (record h { clients = select (λ d. not (d == c)) h.clients })
    else some h

-- A send to an open channel that has room.
unfoldable pub queue : String → ℕ → Hub → Hub
queue message c h = record h {
  channels =
      set_channel c (record { buffer = (h.channels c).buffer ++ message ∷ []; closed = false })
        h.channels;
}

-- The `select` of `Broadcast`: a client whose buffer is full is unregistered by a goroutine.
unfoldable pub offer : String → ℕ → Hub → Option Hub
offer message c h =
    if (h.channels c).closed
    then none
    else if ltb (length (h.channels c).buffer) send_buf_size
    then some (queue message c h)
    else some (record h { pending = c ∷ h.pending })

unfoldable pub offer_all : String → List ℕ → Hub → Option Hub
offer_all message [] h = some h
offer_all message (c ∷ cs) h = offer message c h >>= offer_all message cs

unfoldable pub deliver : Option String → Hub → Option Hub
deliver none h = some h
deliver (some message) h = offer_all message h.clients h

unfoldable pub broadcast : (Event → Option String) → Event → Hub → Option Hub
unfolding deliver
broadcast marshal e h = deliver (marshal e) h

-- `BroadcastNewMessage`, `BroadcastNewLike` and `BroadcastNewComment`.
unfoldable pub broadcast_new : String → (Event → Option String) → String → Hub → Option Hub
broadcast_new kind marshal payload = broadcast marshal (record { kind = kind; payload = payload })

unfoldable pub drop_first : List ℕ → Hub → Option Hub
drop_first [] h = some h
drop_first (c ∷ cs) h = unregister c (record h { pending = cs })

-- One goroutine that `Broadcast` started runs.
unfoldable pub run_pending : Hub → Option Hub
unfolding drop_first
run_pending h = drop_first h.pending h

-- What one round of `writePump` writes.
pub data Frame : Type 0 where
  text : List String → Frame
  close_message : Frame
  blocked : Frame

abbrev pub frame_of : List String → Bool → Frame
frame_of [] true = close_message
frame_of [] false = blocked
frame_of (m ∷ ms) closed = text (m ∷ ms)

unfoldable pub round : Channel → Frame
round ch = frame_of ch.buffer ch.closed

-- A round of `writePump` whose writes succeed: the next message and all that are queued behind it
-- go out as one frame, in order; on a closed channel that is empty, a close message.
unfoldable pub write_pump : ℕ → Hub → Frame × Hub
unfolding round
write_pump c h = (
  round (h.channels c),
  record h {
    channels = set_channel c (record { buffer = []; closed = (h.channels c).closed }) h.channels;
  },
)
