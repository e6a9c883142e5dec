-- ===== src/Repository/Messages/Clusters/Counting.antt =====
-- What the heatmap and the popular hashtags count.
use geo_note.Common.{
  ◌≡◌, ◌↔◌, refl, ◌∙◌, arith, ℕ, ◌+◌, String, Bool, true, List, [], ◌∷◌, ◌&&◌, ◌==◌, ap, map,
  ==_iff, str_eq, eq_iff, select, tally, tally-append, if◌then◌else◌,
}
use geo_note.Common.Groups.{
  groups, count_of, count_of-groups, count_of-by_count, groups_of, groups_of-by_count,
  groups_of-groups,
}
use geo_note.Common.Int.{ℤ, pos, negsuc}
use geo_note.External.{External}
use geo_note.Model.{MessageRow}
use geo_note.Repository.Messages.Rows.{is_live, is_revealed}
use geo_note.Repository.Messages.Clusters.{
  Cell, same_int, same_cell, cell, live_tags, popular, on_heatmap, heat,
}

same_int_iff : (a b : ℤ) → (same_int a b ≡ true) ↔ (a ≡ b)
same_int_iff (pos a) (pos b) = ground (arith, ==_iff a b)
same_int_iff (pos a) (negsuc b) = ground arith
same_int_iff (negsuc a) (pos b) = ground arith
same_int_iff (negsuc a) (negsuc b) = ground (arith, ==_iff a b)

same_cell_iff : (a b : Cell) → (same_cell a b ≡ true) ↔ (a ≡ b)
same_cell_iff (a, b) (c, d) = ground (arith, same_int_iff a c, same_int_iff b d)

tally-map :
    {A B : Type 0} (p : B → Bool) (f : A → B) (xs : List A)
    → tally p (map f xs) ≡ tally (λ x. p (f x)) xs
tally-map p f [] = refl
tally-map p f (x ∷ xs) = omega (arith, tally-map p f xs)

tally-select :
    {A : Type 0} (p q : A → Bool) (xs : List A) → tally p (select q xs) ≡ tally (λ x. q x && p x) xs
tally-select p q [] = refl
tally-select p q (x ∷ xs) = ground (arith, tally-select p q xs)

-- The groups are those of the cell: one whose count is `n`, or none where `n` is 0.
abbrev pub Counted : Cell → List (Cell × ℕ) → ℕ → Type 0
Counted k gs n =
    (count_of same_cell k gs ≡ n) × (groups_of same_cell k gs ≡ (if n == 0 then 0 else 1))

-- The heatmap gives each cell of a thousandth of a degree one point, whose number is that of the
-- messages in the cell that are within the radius, public, live and revealed, and no point where
-- there are none: no message is lost or counted twice.
pub count_of-heat :
    (x : External) (now : ℕ) (at_user : ℤ × ℤ) (radius : ℤ) (ms : List MessageRow) (k : Cell)
    → Counted k
        (heat x now at_user radius ms)
        (tally (λ m. on_heatmap x now at_user radius m && same_cell k (cell m)) ms)
unfolding heat
count_of-heat x now at_user radius ms k =
    let shown = select (on_heatmap x now at_user radius) ms in
    let cells = map cell shown in
    let in_cell =
      tally-map (same_cell k) cell shown
      ∙ tally-select (λ m. same_cell k (cell m)) (on_heatmap x now at_user radius) ms in
    (
      count_of-by_count same_cell k (groups same_cell cells)
          ∙ count_of-groups same_cell same_cell_iff k cells
          ∙ in_cell,
      groups_of-by_count same_cell k (groups same_cell cells)
          ∙ groups_of-groups same_cell same_cell_iff k cells
          ∙ ap (λ n. if n == 0 then 0 else 1) in_cell,
    )

-- How often a tag stands in the live and revealed messages.
abbrev pub uses : ℕ → String → List MessageRow → ℕ
uses now tag [] = 0
uses now tag (m ∷ ms) =
    (if is_live now m.expires_at && is_revealed now m.scheduled_at
      then tally (str_eq tag) m.hashtags
      else 0)
    + uses now tag ms

tally-live_tags :
    (now : ℕ) (tag : String) (ms : List MessageRow)
    → tally (str_eq tag) (live_tags now ms) ≡ uses now tag ms
unfolding live_tags
tally-live_tags now tag [] = refl
tally-live_tags now tag (m ∷ ms) =
    ground
      (arith, tally-live_tags now tag ms, tally-append (str_eq tag) m.hashtags (live_tags now ms))

-- The popular hashtags, before the limit, give each tag the number of its uses in the messages that
-- are live and revealed.
count_of-popular :
    (now : ℕ) (tag : String) (ms : List MessageRow)
    → count_of str_eq tag (popular now ms) ≡ uses now tag ms
unfolding popular
count_of-popular now tag ms =
    count_of-by_count str_eq tag (groups str_eq (live_tags now ms))
    ∙ count_of-groups str_eq eq_iff tag (live_tags now ms)
    ∙ tally-live_tags now tag ms
