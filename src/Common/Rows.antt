-- ===== src/Common/Rows.antt =====
-- Counting rows of a table through a deletion.
use Prim.Native.Nat.{◌+◌, ◌≤◌}
use mathlib.Core.Path.{◌≡◌, refl}
use mathlib.Core.Bool.{Bool, true, false, not}
use mathlib.Core.Option.{none, some}
use mathlib.Core.List.{List, [], ◌∷◌, map}
use native.Mathlib.Omega.{arith}
use mathlib.Core.Logic.{inl, inr}
use geo_note.Common.Tests.{Bool-cases}
use geo_note.Common.Lists.{select, tally, first, exists, All}

module _ {A : Type 0} where
  -- A table falls into the rows that a DELETE takes and those that it leaves.
  pub tally-split :
      (q p : A → Bool) (xs : List A)
      → tally q (select p xs) + tally q (select (λ x. not (p x)) xs) ≡ tally q xs
  tally-split q p [] = omega arith
  tally-split q p (x ∷ xs) = ground (arith, tally-split q p xs)

  pub exists-tally : (p : A → Bool) (xs : List A) → exists p xs ≡ false → tally p xs ≡ 0
  exists-tally p [] h = omega arith
  exists-tally p (x ∷ xs) h = ground (arith, exists-tally p xs)

  pub tally-exists : (p : A → Bool) (xs : List A) → exists p xs ≡ true → 1 ≤ tally p xs
  tally-exists p [] h = absurd (cc)
  tally-exists p (x ∷ xs) h = ground (arith, tally-exists p xs)

  pub first-none : (p : A → Bool) (xs : List A) → first p xs ≡ none → exists p xs ≡ false
  first-none p [] h = refl
  first-none p (x ∷ xs) h = ground (arith, first-none p xs)

  pub first-some :
      (p : A → Bool) (xs : List A) {a : A}
      → first p xs ≡ some a
      → (p a ≡ true) × (exists p xs ≡ true)
  first-some p [] h = absurd (cc)
  first-some p (x ∷ xs) {a} h = ground (arith, first-some p xs {a = a})

  select-empty : (k : A → Bool) (xs : List A) → tally k xs ≤ 0 → select k xs ≡ []
  select-empty k [] h = refl
  select-empty k (x ∷ xs) h = ground (arith, select-empty k xs)

  first-tally :
      (p k : A → Bool) (xs : List A) (a : A) → first p xs ≡ some a → k a ≡ true → 1 ≤ tally k xs
  first-tally p k [] a h e = absurd (cc)
  first-tally p k (x ∷ xs) a h e = ground (arith, first-tally p k xs a)

  -- A key that one row at most has selects the row that a search found.
  pub select-single :
      (p k : A → Bool) (xs : List A) (a : A)
      → tally k xs ≤ 1
      → first p xs ≡ some a
      → k a ≡ true
      → select k xs ≡ a ∷ []
  select-single p k [] a u h e = absurd (cc)
  select-single p k (x ∷ xs) a u h e =
      ground (arith, select-empty k xs, select-single p k xs a, first-tally p k xs a)

  pub All-map {κ} :
      (P Q : A → Type κ) (f : A → A) (xs : List A)
      → ((x : A) → P x → Q (f x))
      → All P xs
      → All Q (map f xs)
  All-map P Q f [] step h = tt
  All-map P Q f (x ∷ xs) step (h, hs) = (step x h, All-map P Q f xs step hs)

  pub All-imp {κ} : (P Q : A → Type κ) (xs : List A) → ((x : A) → P x → Q x) → All P xs → All Q xs
  All-imp P Q [] step h = tt
  All-imp P Q (x ∷ xs) step (h, hs) = (step x h, All-imp P Q xs step hs)

  pub exists-first :
      (p : A → Bool) (xs : List A) → exists p xs ≡ true → (a : A) × (first p xs ≡ some a)
  exists-first p [] h = absurd (cc)
  exists-first p (x ∷ xs) h = elim (Bool-cases (p x)) [
    | inl e ↦ (x, rw e)
    | inr e ↦ let (a, f) = exists-first p xs (rw e at h) in (a, rw e f)
  ]

  pub absent-first : (p : A → Bool) (xs : List A) → exists p xs ≡ false → first p xs ≡ none
  absent-first p [] h = refl
  absent-first p (x ∷ xs) h = ground (arith, absent-first p xs)
