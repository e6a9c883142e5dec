-- ===== src/Repository/Soundness/Keys.antt =====
-- Messages as the target of references: through an INSERT, an UPDATE of other columns, and a DELETE
-- that cascades.
use geo_note.Common.{
  ◌≤◌, ◌≡◌, refl, String, Bool, true, false, List, [], ◌∷◌, map, not, ◌||◌, select, tally, exists,
  All, str_eq, arith, eq_iff, Bool-cases, inl, inr,
}
use geo_note.Common.Rows.{tally-split, All-imp, tally-exists}
use geo_note.Model.{MessageRow}

abbrev pub has_key : String → MessageRow → Bool
has_key k m = str_eq m.id k

abbrev pub known : String → List MessageRow → Bool
known k ms = exists (has_key k) ms

abbrev pub Unique : List MessageRow → Type 0
Unique ms = (k : String) → tally (has_key k) ms ≤ 1

module _ {A : Type 0} where
  -- Every row refers to a message that is there.
  abbrev pub Refers : (A → String) → List MessageRow → List A → Type 0
  Refers key ms rows = All (λ a. known (key a) ms ≡ true) rows

  pub All-select : (P : A → Type 0) (q : A → Bool) (xs : List A) → All P xs → All P (select q xs)
  All-select P q [] h = tt
  All-select P q (x ∷ xs) (p, h) = elim (Bool-cases (q x)) [
    | inl e ↦ rw e (p, All-select P q xs h)
    | inr e ↦ rw e (All-select P q xs h)
  ]

  pub All-both : (P Q : A → Type 0) (xs : List A) → All P xs → All Q xs → All (λ x. P x × Q x) xs
  All-both P Q [] h k = tt
  All-both P Q (x ∷ xs) (p, h) (q, k) = ((p, q), All-both P Q xs h k)

  All-selected : (q : A → Bool) (xs : List A) → All (λ x. q x ≡ true) (select q xs)
  All-selected q [] = tt
  All-selected q (x ∷ xs) = elim (Bool-cases (q x)) [
    | inl e ↦ rw e (e, All-selected q xs)
    | inr e ↦ rw e (All-selected q xs)
  ]

  -- Nothing is counted that no item passes.
  tally-none : (p : A → Bool) (xs : List A) → All (λ x. p x ≡ false) xs → tally p xs ≡ 0
  tally-none p [] h = omega arith
  tally-none p (x ∷ xs) (e, h) = ground (arith, tally-none p xs h)

  pub Refers-known :
      (key : A → String) (ms ns : List MessageRow) (rows : List A)
      → ((k : String) → known k ms ≡ true → known k ns ≡ true)
      → Refers key ms rows
      → Refers key ns rows
  Refers-known key ms ns rows grows h =
      All-imp (λ a. known (key a) ms ≡ true) (λ a. known (key a) ns ≡ true) rows
        (λ a. grows (key a)) h

  -- No row refers to a message that is not there.
  pub Refers-absent :
      (key : A → String) (p : A → Bool) (k : String) (ms : List MessageRow) (rows : List A)
      → ((a : A) → p a ≡ true → key a ≡ k)
      → known k ms ≡ false
      → Refers key ms rows
      → tally p rows ≡ 0
  Refers-absent key p k ms rows on_k absent h = tally-none p rows (
      All-imp (λ a. known (key a) ms ≡ true) (λ a. p a ≡ false) rows
        (λ a there. elim (Bool-cases (p a)) [
          | inl e ↦ absurd (ground (arith, (rw (on_k a e) at there), absent))
          | inr e ↦ e
        ])
        h)

-- An UPDATE that leaves the key.
abbrev pub KeepsId : (MessageRow → MessageRow) → Type 0
KeepsId f = (m : MessageRow) → (f m).id ≡ m.id

module _ (f : MessageRow → MessageRow) (same : KeepsId f) where
  pub known-map : (k : String) (ms : List MessageRow) → known k (map f ms) ≡ known k ms
  known-map k [] = refl
  known-map k (m ∷ ms) = ground (arith, known-map k ms, same m)

  pub tally-map :
      (k : String) (ms : List MessageRow) → tally (has_key k) (map f ms) ≡ tally (has_key k) ms
  tally-map k [] = refl
  tally-map k (m ∷ ms) = ground (arith, tally-map k ms, same m)

-- The messages that a DELETE takes.
abbrev pub is_gone : (MessageRow → Bool) → List MessageRow → String → Bool
is_gone p ms k = known k (select p ms)

module _ (p : MessageRow → Bool) where
  known-split :
      (k : String) (ms : List MessageRow)
      → known k ms ≡ (is_gone p ms k || known k (select (λ m. not (p m)) ms))
  known-split k [] = refl
  known-split k (m ∷ ms) = ground (arith, known-split k ms)

  -- The cascade leaves no reference to a message that is gone.
  pub Refers-cascade :
      {A : Type 0} (key : A → String) (ms : List MessageRow) (rows : List A)
      → Refers key ms rows
      → Refers key (select (λ m. not (p m)) ms) (select (λ a. not (is_gone p ms (key a))) rows)
  Refers-cascade {A} key ms rows h =
      let stays = λ (a : A). not (is_gone p ms (key a)) in
      let there = λ (a : A). known (key a) ms ≡ true in
      let left = select stays rows in
      All-imp (λ a. (known (key a) ms ≡ true) × (stays a ≡ true))
        (λ a. known (key a) (select (λ m. not (p m)) ms) ≡ true) left
        (λ a (was, stayed). ground (arith, was, stayed, known-split (key a) ms))
        (All-both there (λ a. stays a ≡ true) left (All-select there stays rows h)
          (All-selected stays rows))

  All-known : (ns : List MessageRow) → All (λ (m : MessageRow). known m.id ns ≡ true) ns
  All-known ns = go ns ns (λ k h. h)
    where
      go :
          (all ns : List MessageRow)
          → ((k : String) → known k ns ≡ true → known k all ≡ true)
          → All (λ (m : MessageRow). known m.id all ≡ true) ns
      go all [] sub = tt
      go all (n ∷ ns) sub = (
        sub n.id (ground (arith, eq_iff n.id n.id)),
        go all ns (λ k h. sub k (ground (arith, h))),
      )

  -- With unique keys, no message that stays has the key of one that is gone.
  pub stays-not-gone :
      (ms : List MessageRow)
      → Unique ms
      → All (λ (m : MessageRow). is_gone p ms m.id ≡ false) (select (λ m. not (p m)) ms)
  stays-not-gone ms unique =
      let left = select (λ m. not (p m)) ms in
      All-imp (λ (m : MessageRow). known m.id left ≡ true) (λ m. is_gone p ms m.id ≡ false) left
        (λ m there. ground (
          arith,
          there,
          unique m.id,
          tally-split (has_key m.id) p ms,
          tally-exists (has_key m.id) left there,
          tally-exists (has_key m.id) (select p ms),
        ))
        (All-known left)

  pub Unique-select : (ms : List MessageRow) → Unique ms → Unique (select (λ m. not (p m)) ms)
  Unique-select ms unique k = omega (arith, unique k, tally-split (has_key k) p ms)

  -- The rows that refer to a message that stays are all left.
  pub tally-cascade :
      {A : Type 0} (key : A → String) (q : A → Bool) (k : String) (ms : List MessageRow)
      (rows : List A)
      → ((a : A) → q a ≡ true → key a ≡ k)
      → is_gone p ms k ≡ false
      → tally q (select (λ a. not (is_gone p ms (key a))) rows) ≡ tally q rows
  tally-cascade key q k ms [] on_k stays = refl
  tally-cascade key q k ms (a ∷ rows) on_k stays =
      let rest = tally-cascade key q k ms rows on_k stays in
      elim (Bool-cases (q a)) [
        | inl e ↦ let s : is_gone p ms (key a) ≡ false = rw (on_k a e) stays in ground (arith, rest)
        | inr e ↦ ground (arith, rest)
      ]
