-- ===== src/Ws/Connections/Stream.antt =====
-- What a client gets is what was announced, in order and without repetition.
use geo_note.Common.{
  ℕ, ◌<◌, ◌≡◌, refl, ap, sym, ◌∙◌, String, Bool, true, false, Option, none, some, List, [], ◌∷◌,
  ◌++◌, ◌&&◌, ◌||◌, not, ◌==◌, arith, inl, inr, Bool-cases,
}
use geo_note.Ws.Hub.{
  Hub, Frame, text, close_message, blocked, ◌>>=◌, serve_ws, register, unregister,
}
use geo_note.Ws.Connections.{
  Socket, Sockets, set_socket, connect, stop_reading, read_pump, pong, stop_writing, tick,
}
use geo_note.Ws.Connections.Effects.{Leaves, unregister-Leaves}
use geo_note.Ws.Connections.Links.{IsLinked}

-- The messages of the frames that went out.
abbrev pub written : List Frame → List String
written [] = []
written (text ms ∷ fs) = ms ++ written fs
written (close_message ∷ fs) = written fs
written (blocked ∷ fs) = written fs

-- What a client got, and what waits for it.
abbrev pub stream : ℕ → Sockets → List String
stream c s = written (s.sockets c).wire ++ (s.hub.channels c).buffer

-- A list with some items left out.
pub data Sub : List String → List String → Type 0 where
  none_left : Sub [] []
  skip : {xs ys : List String} (y : String) → Sub xs ys → Sub xs (y ∷ ys)
  keep : {xs ys : List String} (x : String) → Sub xs ys → Sub (x ∷ xs) (x ∷ ys)

pub Sub-append : {xs ys us vs : List String} → Sub xs ys → Sub us vs → Sub (xs ++ us) (ys ++ vs)
Sub-append none_left k = k
Sub-append (skip y h) k = skip y (Sub-append h k)
Sub-append (keep x h) k = keep x (Sub-append h k)

pub Sub-none : (ys : List String) → Sub [] ys
Sub-none [] = none_left
Sub-none (y ∷ ys) = skip y (Sub-none ys)

pub append_assoc : (xs ys zs : List String) → (xs ++ ys) ++ zs ≡ xs ++ (ys ++ zs)
append_assoc [] ys zs = refl
append_assoc (x ∷ xs) ys zs = ap (◌∷◌ x) (append_assoc xs ys zs)

pub append_nil : (xs : List String) → xs ++ [] ≡ xs
append_nil [] = refl
append_nil (x ∷ xs) = ap (◌∷◌ x) (append_nil xs)

pub written-text :
    (fs : List Frame) (ms : List String) → written (fs ++ text ms ∷ []) ≡ written fs ++ ms
written-text [] ms = append_nil ms
written-text (text ns ∷ fs) ms =
    ap (λ r. ns ++ r) (written-text fs ms) ∙ sym (append_assoc ns (written fs) ms)
written-text (close_message ∷ fs) ms = written-text fs ms
written-text (blocked ∷ fs) ms = written-text fs ms

-- While the writer runs it has run all the time, and the client's stream has grown by some of the
-- messages `ms`, in their order.
abbrev pub Follows : List String → ℕ → Sockets → Sockets → Type 0
Follows ms c s s' =
    (c < s'.hub.next)
    × ((s'.sockets c).writing ≡ true
        → ((s.sockets c).writing ≡ true)
          × ((got : List String) × Sub got ms × (stream c s' ≡ stream c s ++ got)))

pub same-Follows :
    (ms : List String) (c : ℕ) (s s' : Sockets)
    → c < s'.hub.next
    → (s'.sockets c).writing ≡ (s.sockets c).writing
    → (s'.sockets c).wire ≡ (s.sockets c).wire
    → (s'.hub.channels c).buffer ≡ (s.hub.channels c).buffer
    → Follows ms c s s'
same-Follows ms c s s' there writing wire buffer = (
  there,
  λ w. (sym writing ∙ w, ([], Sub-none ms, rw (wire, buffer) (sym (append_nil (stream c s))))),
)

pub ended-Follows :
    (ms : List String) (c : ℕ) (s s' : Sockets)
    → c < s'.hub.next
    → (s'.sockets c).writing ≡ false
    → Follows ms c s s'
ended-Follows ms c s s' there done = (there, λ w. absurd (cc))

pub connect-Follows :
    (upgraded : Bool) (now c : ℕ) (s : Sockets)
    → c < s.hub.next
    → Follows [] c s (connect upgraded now s)
unfolding connect serve_ws register
connect-Follows false now c s there = same-Follows [] c s s there refl refl refl
connect-Follows true now c s there =
    let other : (s.hub.next == c) ≡ false = ground (arith, there) in
    same-Follows [] c s (connect true now s) (ground (arith, there)) (rw other refl) (rw other refl)
      (ground (arith, other))

-- A change of the socket of `d` that leaves its wire.
socket-Follows :
    (d c : ℕ) (n : Socket) (s : Sockets)
    → c < s.hub.next
    → n.writing ≡ (s.sockets d).writing
    → n.wire ≡ (s.sockets d).wire
    → Follows [] c s (set_socket d n s)
socket-Follows d c n s there writing wire =
    same-Follows [] c s (set_socket d n s) there (ground (arith, writing)) (ground (arith, wire))
      refl

stop_writing-Follows : (d c : ℕ) (s : Sockets) → c < s.hub.next → Follows [] c s (stop_writing d s)
unfolding stop_writing
stop_writing-Follows d c s there = elim (Bool-cases (d == c)) [
  | inl e ↦ ended-Follows [] c s (stop_writing d s) there (unfold stop_writing in ground (arith, e))
  | inr e ↦ same-Follows [] c s (stop_writing d s) there (rw e refl) (rw e refl) refl
]

pub tick-Follows :
    (failed : Bool) (d c : ℕ) (s : Sockets) → c < s.hub.next → Follows [] c s (tick failed d s)
unfolding tick
tick-Follows failed d c s there =
    elim (Bool-cases ((s.sockets d).writing && (failed || not (s.sockets d).is_open))) [
      | inl e ↦ rw e (stop_writing-Follows d c s there)
      | inr e ↦ rw e (same-Follows [] c s s there refl refl refl)
    ]

pub pong-Follows : (now d c : ℕ) (s : Sockets) → c < s.hub.next → Follows [] c s (pong now d s)
unfolding pong
pong-Follows now d c s there = elim (Bool-cases ((s.sockets d).reading && (s.sockets d).is_open)) [
  | inl e ↦ rw e (socket-Follows d c _ s there refl refl)
  | inr e ↦ rw e (same-Follows [] c s s there refl refl refl)
]

abbrev pub FollowsTurn : List String → ℕ → Sockets → Option Sockets → Type 0
FollowsTurn ms c s none = ⊥
FollowsTurn ms c s (some s') = Follows ms c s s'

left-Follows :
    (d c : ℕ) (n : Socket) (s : Sockets) (o : Option Hub)
    → c < s.hub.next
    → n.writing ≡ (s.sockets d).writing
    → n.wire ≡ (s.sockets d).wire
    → Leaves d s.hub o
    → FollowsTurn [] c s (o >>= λ h. some (set_socket d n (record s { hub = h })))
left-Follows d c n s none there writing wire l = l
left-Follows d c n s (some h) there writing wire (safe, (e1, e2, e3, e4)) =
    same-Follows [] c s (set_socket d n (record s { hub = h })) (rw e1 there)
      (ground (arith, writing)) (ground (arith, wire)) (e4 c)

pub read_pump-Follows :
    (failed : Bool) (d c : ℕ) (s : Sockets)
    → c < s.hub.next
    → IsLinked s
    → FollowsTurn [] c s (read_pump failed d s)
unfolding read_pump stop_reading
read_pump-Follows failed d c s there k = elim (Bool-cases (s.sockets d).reading) [
  | inl e ↦ elim (Bool-cases (failed || not (s.sockets d).is_open)) [
    | inl f ↦
        rw (e, f)
          (left-Follows d c (record (s.sockets d) { is_open = false; reading = false }) s
            (unregister d s.hub) there refl refl (unregister-Leaves d s.hub k.safe))
    | inr f ↦ rw (e, f) (same-Follows [] c s s there refl refl refl)
  ]
  | inr e ↦ rw e (same-Follows [] c s s there refl refl refl)
]
