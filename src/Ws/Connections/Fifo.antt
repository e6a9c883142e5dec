-- ===== src/Ws/Connections/Fifo.antt =====
-- A client gets what was announced, in order and without repetition, through any turns.
use geo_note.Common.{
  ℕ, ◌<◌, ◌≡◌, refl, ap, ◌∙◌, String, Option, none, some, List, [], ◌∷◌, ◌++◌, inl, inr,
  Option-cases,
}
use geo_note.Ws.Hub.{Hub, Event, ◌>>=◌, broadcast, deliver, run_pending}
use geo_note.Ws.Hub.Delivery.{broadcast-Delivered}
use geo_note.Ws.Connections.{
  Sockets, Turn, connects, reads, pongs, writes, ticks, announces, settles, turn, turns, with_hub,
}
use geo_note.Ws.Connections.Effects.{broadcast-Calm}
use geo_note.Ws.Connections.Links.{IsLinked}
use geo_note.Ws.Connections.Turns.{StaysLinked, turn-Linked}
use geo_note.Ws.Connections.Stream.{
  stream, Sub-append, append_assoc, Follows, FollowsTurn, same-Follows, connect-Follows,
  tick-Follows, pong-Follows, read_pump-Follows,
}
use geo_note.Ws.Connections.Order.{write_round-Follows, announced-Follows, settled-Follows}

abbrev encoding : Option String → List String
encoding none = []
encoding (some m) = m ∷ []

module _ (marshal : Event → Option String) where
  abbrev announced_by : Turn → List String
  announced_by (announces e) = encoding (marshal e)
  announced_by (connects upgraded now) = []
  announced_by (reads failed c) = []
  announced_by (pongs now c) = []
  announced_by (writes how c) = []
  announced_by (ticks failed c) = []
  announced_by settles = []

  -- The messages of the announcements, in order.
  abbrev pub announced : List Turn → List String
  announced [] = []
  announced (t ∷ ts) = announced_by t ++ announced ts

  silent : (e : Event) (h : Hub) → marshal e ≡ none → broadcast marshal e h ≡ some h
  unfolding broadcast deliver
  silent e h f = rw f refl

  announce-Follows :
      (e : Event) (c : ℕ) (s : Sockets)
      → IsLinked s
      → c < s.hub.next
      → FollowsTurn (encoding (marshal e)) c s (with_hub s (broadcast marshal e s.hub))
  announce-Follows e c s k there = elim (Option-cases (marshal e)) [
    | inl f ↦ rw (f, silent e s.hub f) (same-Follows [] c s s there refl refl refl)
    | inr (m, f) ↦ rw f (
        announced-Follows m c s (broadcast marshal e s.hub) there
          (broadcast-Calm marshal e s.hub k.safe)
          (broadcast-Delivered marshal e m s.hub c k.safe f))
  ]

  turn-Follows :
      (t : Turn) (c : ℕ) (s : Sockets)
      → IsLinked s
      → c < s.hub.next
      → FollowsTurn (announced_by t) c s (turn marshal t s)
  unfolding turn run_pending
  turn-Follows (connects upgraded now) c s k there = connect-Follows upgraded now c s there
  turn-Follows (reads failed d) c s k there = read_pump-Follows failed d c s there k
  turn-Follows (pongs now d) c s k there = pong-Follows now d c s there
  turn-Follows (writes how d) c s k there = write_round-Follows how d c s there
  turn-Follows (ticks failed d) c s k there = tick-Follows failed d c s there
  turn-Follows (announces e) c s k there = announce-Follows e c s k there
  turn-Follows settles c s k there = settled-Follows c s s.hub.pending there k.safe

  chained :
      (ms ns : List String) (c : ℕ) (s s1 : Sockets) (o : Option Sockets)
      → Follows ms c s s1
      → FollowsTurn ns c s1 o
      → FollowsTurn (ms ++ ns) c s o
  chained ms ns c s s1 none f g = g
  chained ms ns c s s1 (some s2) (there1, f) (there2, g) = (
    there2,
    λ w.
        let (w1, (got2, sub2, e2)) = g w in
        let (w0, (got1, sub1, e1)) = f w1 in
        (
          w0,
          (
            got1 ++ got2,
            Sub-append sub1 sub2,
            e2 ∙ ap (λ r. r ++ got2) e1 ∙ append_assoc (stream c s) got1 got2,
          ),
        ),
  )

  next-Follows :
      (ms ns : List String) (c : ℕ) (s : Sockets) (o : Option Sockets)
      (f : Sockets → Option Sockets)
      → FollowsTurn ms c s o
      → StaysLinked o
      → ((s1 : Sockets) → IsLinked s1 → c < s1.hub.next → FollowsTurn ns c s1 (f s1))
      → FollowsTurn (ms ++ ns) c s (o >>= f)
  next-Follows ms ns c s none f g k next = g
  next-Follows ms ns c s (some s1) f g k next = chained ms ns c s s1 (f s1) g (next s1 k g.0)

  -- Through any turns from a hub and connections that agree, there is no panic; and where the writer of
  -- a connection still runs at the end, it ran all the time, and what the client got with what waits
  -- for it is what it was at the start, and then some of the messages that were announced since, each
  -- once and in the order of the announcements.
  pub turns-Follows :
      (ts : List Turn) (c : ℕ) (s : Sockets)
      → IsLinked s
      → c < s.hub.next
      → FollowsTurn (announced ts) c s (turns marshal ts s)
  unfolding turns
  turns-Follows [] c s k there = same-Follows [] c s s there refl refl refl
  turns-Follows (t ∷ ts) c s k there =
      next-Follows (announced_by t) (announced ts) c s (turn marshal t s) (turns marshal ts)
        (turn-Follows t c s k there) (turn-Linked marshal t s k)
        (λ s1 k1 there1. turns-Follows ts c s1 k1 there1)
