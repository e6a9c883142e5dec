-- ===== src/Ws/Connections/Order.antt =====
-- Every turn, and every sequence of turns, keeps the order of what a client gets.
use geo_note.Common.{
  ℕ, ◌<◌, ◌≡◌, refl, ap, sym, ◌∙◌, String, Bool, true, false, Option, none, some, List, [], ◌∷◌,
  ◌++◌, ◌&&◌, ◌==◌, arith, inl, inr, Bool-cases, if◌then◌else◌,
}
use mathlib.Core.Path.{subst}
use geo_note.Ws.Hub.{
  Hub, Frame, text, close_message, blocked, frame_of, is_client, unregister, drop_first, round,
  write_pump,
}
use geo_note.Ws.Hub.Safety.{IsSafe}
use geo_note.Ws.Hub.Delivery.{Delivered, has_room}
use geo_note.Ws.Connections.{
  Sockets, set_socket, Writing, fine, no_writer, broken, stop_writing, send, take_first, rest_of,
  write_messages, write_round, with_hub,
}
use geo_note.Ws.Connections.Effects.{Leaves, unregister-Leaves, Calm, take_first-Alike}
use geo_note.Ws.Connections.Stream.{
  written, stream, none_left, keep, Sub-none, append_assoc, append_nil, written-text, Follows,
  same-Follows, ended-Follows, FollowsTurn,
}

framed : (b ms : List String) (closed : Bool) → frame_of b closed ≡ text ms → b ≡ ms
framed [] ms true e = absurd (cc)
framed [] ms false e = absurd (cc)
framed (m ∷ rest) ms closed e = cc

if-Follows :
    (c : ℕ) (s : Sockets) (b : Bool) (u v : Sockets)
    → (b ≡ true → Follows [] c s u)
    → (b ≡ false → Follows [] c s v)
    → Follows [] c s (if b then u else v)
if-Follows c s true u v h k = h refl
if-Follows c s false u v h k = k refl

send-next : (f : Frame) (c : ℕ) (s : Sockets) → (send f c s).hub.next ≡ s.hub.next
unfolding send
send-next f c s = ground arith

-- Nothing changes for a client.
abbrev Spares : ℕ → Sockets → Sockets → Type 0
Spares c s s' =
    (s'.hub.next ≡ s.hub.next)
    × ((s'.sockets c).writing ≡ (s.sockets c).writing)
    × ((s'.sockets c).wire ≡ (s.sockets c).wire)
    × ((s'.hub.channels c).buffer ≡ (s.hub.channels c).buffer)

spared-Follows : (c : ℕ) (s s' : Sockets) → c < s.hub.next → Spares c s s' → Follows [] c s s'
spared-Follows c s s' there (e, writing, wire, buffer) =
    same-Follows [] c s s' (rw e there) writing wire buffer

module _ (d c : ℕ) (other : (d == c) ≡ false) where
  stop_writing-Spares : (s s' : Sockets) → Spares c s s' → Spares c s (stop_writing d s')
  unfolding stop_writing
  stop_writing-Spares s s' (e, writing, wire, buffer) = (e, rw other writing, rw other wire, buffer)

  send-Spares : (f : Frame) (s s' : Sockets) → Spares c s s' → Spares c s (send f d s')
  unfolding send
  send-Spares f s s' h = go (s'.sockets d).is_open h
    where
      go :
          (b : Bool)
          → Spares c s s'
          → Spares c s (
              if b
              then set_socket d (record (s'.sockets d) { wire = (s'.sockets d).wire ++ f ∷ [] }) s'
              else s')
      go true (e, writing, wire, buffer) = (e, rw other writing, rw other wire, buffer)
      go false h = h

  pumped-Spares : (s : Sockets) → Spares c s (record s { hub = (write_pump d s.hub).1 })
  unfolding write_pump
  pumped-Spares s = (refl, refl, refl, rw other refl)

  rest-Spares : (s : Sockets) (b : List String) → Spares c s (record s { hub = rest_of d s.hub b })
  rest-Spares s [] = (refl, refl, refl, refl)
  rest-Spares s (m ∷ ms) = (refl, refl, refl, rw other refl)

  -- A round of the writer of another connection.
  other-Spares : (how : Writing) (f : Frame) (s : Sockets) → Spares c s (write_messages how f d s)
  unfolding write_messages take_first
  other-Spares how blocked s = (refl, refl, refl, refl)
  other-Spares how close_message s =
      stop_writing-Spares s (send close_message d s)
        (send-Spares close_message s s (refl, refl, refl, refl))
  other-Spares no_writer (text ms) s =
      stop_writing-Spares s (record s { hub = take_first d s.hub })
        (rest-Spares s (s.hub.channels d).buffer)
  other-Spares broken (text ms) s =
      stop_writing-Spares s (record s { hub = (write_pump d s.hub).1 }) (pumped-Spares s)
  other-Spares fine (text ms) s = go (s.sockets d).is_open
    where
      go :
          (b : Bool)
          → Spares c s (
              if b
              then send (text ms) d (record s { hub = (write_pump d s.hub).1 })
              else stop_writing d (record s { hub = (write_pump d s.hub).1 }))
      go true =
          send-Spares (text ms) s (record s { hub = (write_pump d s.hub).1 }) (pumped-Spares s)
      go false = stop_writing-Spares s (record s { hub = (write_pump d s.hub).1 }) (pumped-Spares s)

module _ (c : ℕ) where
  ended :
      (s s' : Sockets)
      → c < s.hub.next
      → s'.hub.next ≡ s.hub.next
      → Follows [] c s (stop_writing c s')
  unfolding stop_writing
  ended s s' there e =
      ended-Follows [] c s (stop_writing c s') (unfold stop_writing in rw e there)
        (unfold stop_writing in ground arith)

  -- The frame of a round holds what waited.
  sent-Follows :
      (s : Sockets) (ms : List String)
      → c < s.hub.next
      → (s.sockets c).is_open ≡ true
      → (s.hub.channels c).buffer ≡ ms
      → Follows [] c s (send (text ms) c (record s { hub = (write_pump c s.hub).1 }))
  unfolding send write_pump
  sent-Follows s ms there is_open waited =
      let same : (c == c) ≡ true = ground arith in
      rw (is_open, same)
        (
          there,
          λ w. (
            w,
            (
              [],
              none_left,
              ap (λ r. r ++ [])
                  (written-text (s.sockets c).wire ms
                    ∙ ap (λ r. written (s.sockets c).wire ++ r) (sym waited)),
            ),
          ),
        )

  own-Follows :
      (how : Writing) (f : Frame) (s : Sockets)
      → c < s.hub.next
      → round (s.hub.channels c) ≡ f
      → Follows [] c s (write_messages how f c s)
  unfolding write_messages round send
  own-Follows how blocked s there e = same-Follows [] c s s there refl refl refl
  own-Follows how close_message s there e =
      ended s (send close_message c s) there (send-next close_message c s)
  own-Follows no_writer (text ms) s there e =
      ended s (record s { hub = take_first c s.hub }) there (take_first-Alike c s.hub).1
  own-Follows broken (text ms) s there e =
      ended s (record s { hub = (write_pump c s.hub).1 }) there (unfold write_pump in refl)
  own-Follows fine (text ms) s there e =
      let sent : Sockets = record s { hub = (write_pump c s.hub).1 } in
      if-Follows c s (s.sockets c).is_open (send (text ms) c sent) (stop_writing c sent)
        (λ f. sent-Follows s ms there f (framed (s.hub.channels c).buffer ms _ e))
        (λ f. ended s sent there (unfold write_pump in refl))

pub write_round-Follows :
    (how : Writing) (d c : ℕ) (s : Sockets) → c < s.hub.next → Follows [] c s (write_round how d s)
unfolding write_round
write_round-Follows how d c s there = elim (Bool-cases (s.sockets d).writing) [
  | inl e ↦ rw e (elim (Bool-cases (d == c)) [
    | inl same ↦
        let eq : d ≡ c = ground (arith, same) in
        subst (λ k. Follows [] c s (write_messages how (round (s.hub.channels k)) k s)) (sym eq)
          (own-Follows c how (round (s.hub.channels c)) s there refl)
    | inr other ↦
        spared-Follows c s (write_messages how (round (s.hub.channels d)) d s) there
          (other-Spares d c other how (round (s.hub.channels d)) s)
  ])
  | inr e ↦ rw e (same-Follows [] c s s there refl refl refl)
]

-- What an announcement that encodes adds.
pub announced-Follows :
    (m : String) (c : ℕ) (s : Sockets) (o : Option Hub)
    → c < s.hub.next
    → Calm s.hub o
    → Delivered m s.hub.clients s.hub c o
    → FollowsTurn (m ∷ []) c s (with_hub s o)
announced-Follows m c s none there g q = g
announced-Follows m c s (some h) there (safe, (e1, e2, e3)) (buffer, due, shut, same) = (
  rw e2 there,
  λ w. (
    w,
    elim (Bool-cases (is_client c s.hub.clients && has_room c s.hub)) [
      | inl r ↦ (
        m ∷ [],
        keep m none_left,
        rw (buffer, r)
            (sym (append_assoc (written (s.sockets c).wire) (s.hub.channels c).buffer (m ∷ []))),
      )
      | inr r ↦ ([], Sub-none (m ∷ []), rw (buffer, r) (sym (append_nil (stream c s))))
    ],
  ),
)

left_hub-Follows :
    (d c : ℕ) (s : Sockets) (h : Hub) (o : Option Hub)
    → c < s.hub.next
    → h.next ≡ s.hub.next
    → (h.channels c).buffer ≡ (s.hub.channels c).buffer
    → Leaves d h o
    → FollowsTurn [] c s (with_hub s o)
left_hub-Follows d c s h none there e b l = l
left_hub-Follows d c s h (some h') there e b (safe, (e1, e2, e3, e4)) =
    same-Follows [] c s (record s { hub = h' }) (rw (e1, e) there) refl refl (e4 c ∙ b)

pub settled-Follows :
    (c : ℕ) (s : Sockets) (cs : List ℕ)
    → c < s.hub.next
    → IsSafe s.hub
    → FollowsTurn [] c s (with_hub s (drop_first cs s.hub))
unfolding drop_first
settled-Follows c s [] there k = same-Follows [] c s s there refl refl refl
settled-Follows c s (d ∷ cs) there k =
    let h : Hub = record s.hub { pending = cs } in
    left_hub-Follows d c s h (unregister d h) there refl refl (
      unregister-Leaves d h
        (record { open_client = k.open_client; known = k.known; room = k.room; unique = k.unique }))
