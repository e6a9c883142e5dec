-- ===== src/Repository/Messages/Hashtags.antt =====
-- `extractHashtags` of message_repo.go and its regular expression `#([a-zA-Z0-9_]+)`. A match is a
-- '#' and all the word characters behind it. They hold no '#', so that going on behind the '#'
-- finds the same matches as going on behind the match.
use Prim.Native.String.{[], ◌∷◌}
use mathlib.Core.Path.{subst}
use geo_note.Common.{
  ℕ, zero, suc, ◌-◌, ◌≡◌, ◌≢◌, ◌↔◌, refl, sym, ◌∙◌, String, Char, code, Bool, true, false, List,
  ◌&&◌, ◌||◌, inl, inr, leb, ◌==◌, str_eq, eq_iff, ==_iff, exists, if◌then◌else◌, Bool-cases, arith,
  ◌++◌, map,
}

unfoldable pub is_word : ℕ → Bool
is_word c =
    (leb b'a' c && leb c b'z')
    || (leb b'A' c && leb c b'Z')
    || (leb b'0' c && leb c b'9')
    || c == b'_'

nth : String → ℕ → Char → Char
nth [] n d = d
nth (c ∷ s) zero d = c
nth (c ∷ s) (suc n) d = nth s n d

-- `strings.ToLower` on what the expression matches, which is ASCII.
lower_char : Char → Char
unfolding nth
lower_char c =
    if leb b'A' (code c) && leb (code c) b'Z'
    then nth "abcdefghijklmnopqrstuvwxyz" (code c - b'A') c
    else c

pub lower : String → String
unfolding lower_char
lower [] = []
lower (c ∷ s) = lower_char c ∷ lower s

-- The word characters that a text begins with.
pub word : String → String
unfolding is_word
word [] = []
word (c ∷ s) = let rest = word s in if is_word (code c) then c ∷ rest else []

-- `FindAllStringSubmatch`, with the submatch of each match.
pub find_all : String → List String
unfolding word
find_all [] = List.[]
find_all (c ∷ s) =
    let rest = find_all s in
    if code c == b'#' then if str_eq (word s) "" then rest else List.◌∷◌ (word s) rest else rest

-- `seen[tag]`, for the tags that were appended.
abbrev pub is_in : String → List String → Bool
is_in t = exists (λ s. str_eq s t)

pub collect : List String → List String → List String
unfolding lower
collect tags List.[] = tags
collect tags (List.◌∷◌ m ms) =
    collect (if is_in (lower m) tags then tags else tags ++ List.◌∷◌ (lower m) List.[]) ms

unfoldable pub extract_hashtags : String → List String
unfolding find_all collect
extract_hashtags content = collect List.[] (find_all content)

abbrev pub Distinct : List String → Type 0
Distinct List.[] = Unit
Distinct (List.◌∷◌ t ts) = (is_in t ts ≡ false) × Distinct ts

is_in-append :
    (t s : String) (ts : List String)
    → is_in t (ts ++ List.◌∷◌ s List.[]) ≡ is_in t ts || str_eq s t
is_in-append t s List.[] = ground arith
is_in-append t s (List.◌∷◌ u ts) = ground (arith, is_in-append t s ts)

Distinct-append :
    (s : String) (ts : List String)
    → is_in s ts ≡ false
    → Distinct ts
    → Distinct (ts ++ List.◌∷◌ s List.[])
Distinct-append s List.[] h d = (refl, tt)
Distinct-append s (List.◌∷◌ u ts) h (f, d) =
    ground (arith, Distinct-append s ts, is_in-append u s ts, eq_iff u s, eq_iff s u)

collect-Distinct : (tags ms : List String) → Distinct tags → Distinct (collect tags ms)
unfolding collect
collect-Distinct tags List.[] d = d
collect-Distinct tags (List.◌∷◌ m ms) d = elim (Bool-cases (is_in (lower m) tags)) [
  | inl e ↦ rw e (collect-Distinct tags ms d)
  | inr e ↦ rw e (
      collect-Distinct (tags ++ List.◌∷◌ (lower m) List.[]) ms (Distinct-append (lower m) tags e d))
]

is_in-collect :
    (t : String) (tags ms : List String)
    → is_in t (collect tags ms) ≡ is_in t tags || is_in t (map lower ms)
unfolding collect
is_in-collect t tags List.[] = ground arith
is_in-collect t tags (List.◌∷◌ m ms) = elim (Bool-cases (is_in (lower m) tags)) [
  | inl e ↦ rw e (ground (arith, is_in-collect t tags ms, eq_iff (lower m) t))
  | inr e ↦ rw e (
      ground (
        arith,
        is_in-collect t (tags ++ List.◌∷◌ (lower m) List.[]) ms,
        is_in-append t (lower m) tags,
      ))
]

-- The text has a '#' followed by the word `w`, which ends there, and not at once.
pub data HasWord (w : String) : String → Type 0 where
  here : {c : Char} {s : String} → code c ≡ b'#' → word s ≡ w → w ≢ "" → HasWord w (c ∷ s)
  there : {c : Char} {s : String} → HasWord w s → HasWord w (c ∷ s)

HasWord-found : (w s : String) → HasWord w s → is_in w (find_all s) ≡ true
unfolding find_all
HasWord-found w [] h = elim h [ ]
HasWord-found w (c ∷ s) (here e f g) =
    rw ((==_iff (code c) b'#').1 e, f) (ground (arith, eq_iff w "", eq_iff w w))
HasWord-found w (c ∷ s) (there h) = ground (arith, HasWord-found w s h)

found-HasWord : (w s : String) → is_in w (find_all s) ≡ true → HasWord w s
unfolding find_all
found-HasWord w [] h = absurd (cc)
found-HasWord w (c ∷ s) h = elim (Bool-cases (code c == b'#')) [
  | inr other ↦ there (found-HasWord w s (rw other at h))
  | inl hash ↦ elim (Bool-cases (str_eq (word s) "")) [
    | inl empty ↦ there (found-HasWord w s (rw (hash, empty) at h))
    | inr full ↦ elim (Bool-cases (str_eq (word s) w)) [
      | inl same ↦
          here ((==_iff (code c) b'#').0 hash) ((eq_iff (word s) w).0 same)
            (λ e. ground (arith, eq_iff (word s) "", (eq_iff (word s) w).0 same))
      | inr differs ↦ there (found-HasWord w s (rw (hash, full, differs) at h))
    ]
  ]
]

mapped-found :
    (t : String) (ws : List String)
    → is_in t (map lower ws) ≡ true
    → (w : String) × (is_in w ws ≡ true) × (lower w ≡ t)
mapped-found t List.[] h = absurd (cc)
mapped-found t (List.◌∷◌ w ws) h = elim (Bool-cases (str_eq (lower w) t)) [
  | inl same ↦ (w, ground (arith, eq_iff w w), (eq_iff (lower w) t).0 same)
  | inr other ↦ let (v, found, e) = mapped-found t ws (rw other at h) in (v, ground arith, e)
]

found-mapped :
    (w : String) (ws : List String) → is_in w ws ≡ true → is_in (lower w) (map lower ws) ≡ true
found-mapped w List.[] h = absurd (cc)
found-mapped w (List.◌∷◌ v ws) h =
    ground (arith, found-mapped w ws, eq_iff v w, eq_iff (lower v) (lower w))

-- The hashtags of a text are the words behind its '#'s in lower case, each once.
pub extract_hashtags_iff :
    (content t : String)
    → ((is_in t (extract_hashtags content) ≡ true)
        ↔ ((w : String) × HasWord w content × (lower w ≡ t)))
      × Distinct (extract_hashtags content)
unfolding extract_hashtags
extract_hashtags_iff content t = (
  (
    λ h.
        let (w, found, e) =
          mapped-found t (find_all content)
            (sym (is_in-collect t List.[] (find_all content)) ∙ h) in
        (w, found-HasWord w content found, e),
    λ (w, has, e).
        is_in-collect t List.[] (find_all content)
        ∙ subst (λ u. is_in u (map lower (find_all content)) ≡ true) e
            (found-mapped w (find_all content) (HasWord-found w content has)),
  ),
  collect-Distinct List.[] (find_all content) tt,
)
