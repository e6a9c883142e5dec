-- ===== src/Common/Text.antt =====
-- What the source calls of Go's `strings` package, over the characters of a text. Go's strings are
-- bytes: the texts here are those that are valid UTF-8.
use Prim.Native.Char.{Char, code}
use Prim.Native.String
use Prim.Native.Nat.{ℕ, ◌<◌, ◌≤◌, ◌+◌}
use Prim.Native.String.{String, count, [], ◌∷◌}
use mathlib.Core.Path.{◌≡◌, refl, ap}
use mathlib.Core.Logic.{◌≢◌, inl, inr}
use mathlib.Core.Bool.{Bool, true, false, ◌&&◌, ◌||◌}
use mathlib.Core.Option.{Option, none, some}
use native.Mathlib.Omega.{arith}
use text.Mathlib.TextEquality.{Char-path}
use text.Mathlib.TextLemmas.{nil-append, cons-append, length-append, length-cons, length-nil}
use geo_note.Common.Tests.{ltb, leb, ◌==◌, ==_iff, Bool-cases, Option-cases, if◌then◌else◌}

-- What follows the prefix `p`, if the text has it.
pub strip_prefix : String → String → Option String
strip_prefix [] s = some s
strip_prefix (c ∷ p) [] = none
strip_prefix (c ∷ p) (d ∷ s) =
    let rest = strip_prefix p s in if code d == code c then rest else none

abbrev pub or_self : String → Option String → String
or_self s none = s
or_self s (some rest) = rest

-- `strings.TrimPrefix(s, p)`
unfoldable pub trim_prefix : String → String → String
unfolding strip_prefix
trim_prefix s p = or_self s (strip_prefix p s)

-- A text has a prefix exactly when it is the prefix and a rest.
pub strip_prefix-append : (p t : String) → strip_prefix p (String.◌++◌ p t) ≡ some t
unfolding strip_prefix
strip_prefix-append [] t = ap some (nil-append t)
strip_prefix-append (c ∷ p) t =
    rw (cons-append, (==_iff (code c) (code c)).1 refl) (strip_prefix-append p t)

pub strip_prefix-eq : (p s t : String) → strip_prefix p s ≡ some t → s ≡ String.◌++◌ p t
unfolding strip_prefix
strip_prefix-eq [] s t h = rw nil-append (cc)
strip_prefix-eq (c ∷ p) [] t h = cc
strip_prefix-eq (c ∷ p) (d ∷ s) t h = elim (Bool-cases (code d == code c)) [
  | inl same ↦ rw (
    cons-append,
    Char-path d c ((==_iff (code d) (code c)).0 same),
    strip_prefix-eq p s t (rw same at h),
  )
  | inr other ↦ cc (other, h)
]

pub trim_prefix-append : (p t : String) → trim_prefix (String.◌++◌ p t) p ≡ t
unfolding trim_prefix
trim_prefix-append p t = rw strip_prefix-append

pub append-ne_self : (p t : String) → 0 < count p → t ≢ String.◌++◌ p t
append-ne_self p t h e = omega (arith, ap count e, length-append p t)

-- What the trimmed text differs from has the prefix.
pub trim_prefix-eq : (s p : String) → trim_prefix s p ≢ s → s ≡ String.◌++◌ p (trim_prefix s p)
unfolding trim_prefix
trim_prefix-eq s p h = elim (Option-cases (strip_prefix p s)) [
  | inl e ↦ absurd (h (rw e))
  | inr (t, e) ↦ rw e (strip_prefix-eq p s t e)
]

abbrev is_some : Option String → Bool
is_some none = false
is_some (some s) = true

-- `strings.Contains(s, t)`
pub contains : String → String → Bool
unfolding strip_prefix
contains [] t = is_some (strip_prefix t [])
contains (c ∷ s) t = is_some (strip_prefix t (c ∷ s)) || contains s t

-- `unicode.IsSpace`
pub is_space : ℕ → Bool
is_space c =
    (leb 9 c && leb c 13)
    || c == 32
    || c == 0x85
    || c == 0xa0
    || c == 0x1680
    || (leb 0x2000 c && leb c 0x200a)
    || c == 0x2028
    || c == 0x2029
    || c == 0x202f
    || c == 0x205f
    || c == 0x3000

trim_left : String → String
trim_left [] = []
trim_left (c ∷ s) = let rest = trim_left s in if is_space (code c) then rest else c ∷ s

-- A character before a text that is trimmed on the right: a space goes if nothing is left of it.
put_back : Char → String → String
put_back c [] = if is_space (code c) then [] else c ∷ []
put_back c (d ∷ s) = c ∷ d ∷ s

trim_right : String → String
unfolding put_back
trim_right [] = []
trim_right (c ∷ s) = put_back c (trim_right s)

-- `strings.TrimSpace`
unfoldable pub trim_space : String → String
unfolding is_space trim_left trim_right
trim_space s = trim_right (trim_left s)

count-trim_left : (s : String) → count (trim_left s) ≤ count s
unfolding trim_left
count-trim_left [] = ground arith
count-trim_left (c ∷ s) =
    ground (arith, count-trim_left s, length-cons c s, length-cons c (trim_left s))

count-put_back : (c : Char) (s : String) → count (put_back c s) ≤ 1 + count s
unfolding put_back
count-put_back c [] = elim (Bool-cases (is_space (code c))) [
  | inl e ↦ rw e (omega (arith, length-nil))
  | inr e ↦ rw e (omega (arith, length-nil, length-cons c []))
]
count-put_back c (d ∷ s) = ground (arith, length-cons c (d ∷ s))

count-trim_right : (s : String) → count (trim_right s) ≤ count s
unfolding trim_right
count-trim_right [] = ground arith
count-trim_right (c ∷ s) =
    omega (arith, length-cons c s, count-trim_right s, count-put_back c (trim_right s))

-- Trimming makes no text longer.
pub count-trim_space : (s : String) → count (trim_space s) ≤ count s
unfolding trim_space
count-trim_space s = omega (arith, count-trim_left s, count-trim_right (trim_left s))

-- The bytes of a character in UTF-8.
width : Char → ℕ
width c =
    if ltb (code c) 0x80
    then 1
    else if ltb (code c) 0x800
    then 2
    else if ltb (code c) 0x10000
    then 3
    else 4

-- `len(s)`
unfoldable pub bytes : String → ℕ
unfolding width
bytes [] = 0
bytes (c ∷ s) = width c + bytes s

pub count-bytes : (s : String) → count s ≤ bytes s
unfolding bytes width
count-bytes [] = ground (arith, length-nil)
count-bytes (c ∷ s) = ground (arith, length-cons c s, count-bytes s)
