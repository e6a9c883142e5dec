-- ===== src/Common/Groups.antt =====
-- GROUP BY with a count, and ORDER BY that count DESC.
use Prim.Native.Nat.{ℕ, ◌+◌}
use mathlib.Core.Path.{◌≡◌, refl}
use mathlib.Core.Logic.{◌↔◌, inl, inr}
use mathlib.Core.Bool.{Bool, true, false, ◌&&◌}
use mathlib.Core.List.{List, [], ◌∷◌}
use native.Mathlib.Omega.{arith}
use geo_note.Common.Tests.{leb, ◌==◌, if◌then◌else◌, Bool-cases}
use geo_note.Common.Lists.{tally}

module _ {K : Type 0} (same : K → K → Bool) where
  -- One more row with the key.
  unfoldable pub add : K → List (K × ℕ) → List (K × ℕ)
  add k [] = (k, 1) ∷ []
  add k ((j, n) ∷ gs) = let rest = add k gs in if same k j then (j, n + 1) ∷ gs else (j, n) ∷ rest

  unfoldable pub groups : List K → List (K × ℕ)
  unfolding add
  groups [] = []
  groups (k ∷ ks) = add k (groups ks)

  insert_count : K × ℕ → List (K × ℕ) → List (K × ℕ)
  insert_count g [] = g ∷ []
  insert_count (k, n) ((j, m) ∷ gs) =
      let rest = insert_count (k, n) gs in if leb m n then (k, n) ∷ (j, m) ∷ gs else (j, m) ∷ rest

  unfoldable pub by_count : List (K × ℕ) → List (K × ℕ)
  unfolding insert_count
  by_count [] = []
  by_count (g ∷ gs) = insert_count g (by_count gs)

  -- The count of a key.
  abbrev pub count_of : K → List (K × ℕ) → ℕ
  count_of k [] = 0
  count_of k ((j, n) ∷ gs) = (if same k j then n else 0) + count_of k gs

  count_of-insert_count :
      (k : K) (g : K × ℕ) (gs : List (K × ℕ))
      → count_of k (insert_count g gs) ≡ (if same k g.0 then g.1 else 0) + count_of k gs
  unfolding insert_count
  count_of-insert_count k (j, n) [] = refl
  count_of-insert_count k (j, n) ((i, m) ∷ gs) = ground (arith, count_of-insert_count k (j, n) gs)

  pub count_of-by_count : (k : K) (gs : List (K × ℕ)) → count_of k (by_count gs) ≡ count_of k gs
  unfolding by_count
  count_of-by_count k [] = refl
  count_of-by_count k ((j, n) ∷ gs) =
      omega (arith, count_of-insert_count k (j, n) (by_count gs), count_of-by_count k gs)

  -- The groups of a key.
  abbrev pub groups_of : K → List (K × ℕ) → ℕ
  groups_of k = tally (λ g. same k g.0)

  groups_of-insert_count :
      (k : K) (g : K × ℕ) (gs : List (K × ℕ))
      → groups_of k (insert_count g gs) ≡ (if same k g.0 then 1 else 0) + groups_of k gs
  unfolding insert_count
  groups_of-insert_count k (j, n) [] = refl
  groups_of-insert_count k (j, n) ((i, m) ∷ gs) = ground (arith, groups_of-insert_count k (j, n) gs)

  pub groups_of-by_count : (k : K) (gs : List (K × ℕ)) → groups_of k (by_count gs) ≡ groups_of k gs
  unfolding by_count
  groups_of-by_count k [] = refl
  groups_of-by_count k ((j, n) ∷ gs) =
      omega (arith, groups_of-insert_count k (j, n) (by_count gs), groups_of-by_count k gs)

  module _ (same_iff : (a b : K) → (same a b ≡ true) ↔ (a ≡ b)) where
    count_of-add :
        (k c : K) (gs : List (K × ℕ))
        → count_of k (add c gs) ≡ (if same k c then 1 else 0) + count_of k gs
    unfolding add
    count_of-add k c [] = refl
    count_of-add k c ((j, n) ∷ gs) = elim (Bool-cases (same c j)) [
      | inl e ↦ rw (e, (same_iff c j).0 e) (ground arith)
      | inr e ↦ rw e (omega (arith, count_of-add k c gs))
    ]

    -- Each key is counted as often as it stands in the list.
    pub count_of-groups : (k : K) (ks : List K) → count_of k (groups ks) ≡ tally (same k) ks
    unfolding groups
    count_of-groups k [] = refl
    count_of-groups k (c ∷ ks) = omega (arith, count_of-add k c (groups ks), count_of-groups k ks)

    groups_of-add :
        (k c : K) (gs : List (K × ℕ))
        → groups_of k (add c gs)
          ≡ (if same k c && (groups_of k gs == 0) then 1 else 0) + groups_of k gs
    unfolding add
    groups_of-add k c [] = ground arith
    groups_of-add k c ((j, n) ∷ gs) = elim (Bool-cases (same c j)) [
      | inl e ↦ rw (e, (same_iff c j).0 e) (ground arith)
      | inr e ↦ elim (Bool-cases (same k c)) [
        | inl f ↦
            let other : same k j ≡ false = rw ((same_iff k c).0 f) e in
            rw e (ground (arith, f, other, groups_of-add k c gs))
        | inr f ↦ rw e (ground (arith, f, groups_of-add k c gs))
      ]
    ]

    -- Each key that stands in the list has one group.
    pub groups_of-groups :
        (k : K) (ks : List K) → groups_of k (groups ks) ≡ (if tally (same k) ks == 0 then 0 else 1)
    unfolding groups
    groups_of-groups k [] = refl
    groups_of-groups k (c ∷ ks) =
        ground (arith, groups_of-add k c (groups ks), groups_of-groups k ks)
