-- ===== src/Repository/Gamification/Zones.antt =====
-- The subselect of `RecordPost`: how many cells of 0.01 degrees hold a message of the user.
use geo_note.Common.{
  ℕ, ◌+◌, ◌/◌, String, Bool, List, [], ◌∷◌, ◌&&◌, str_eq, select, exists, length, map,
  if◌then◌else◌, ◌==◌, suc,
}
use geo_note.Common.Int.{ℤ, pos, negsuc}
use geo_note.Model.{MessageRow}

-- ROUND(x::numeric, 2), in hundredths: halves go away from zero.
pub hundredths : ℤ → ℕ × ℕ
hundredths (pos n) = ((n + 50000) / 100000, 0)
hundredths (negsuc n) = (0, (suc n + 50000) / 100000)

abbrev Cell : Type 0
Cell = (ℕ × ℕ) × (ℕ × ℕ)

abbrev same_cell : Cell → Cell → Bool
same_cell ((a, b), (c, d)) ((e, f), (g, h)) = a == e && b == f && c == g && d == h

cell : MessageRow → Cell
unfolding hundredths
cell m = (hundredths m.latitude, hundredths m.longitude)

pub distinct : List Cell → List Cell
distinct [] = []
distinct (c ∷ cs) = let rest = distinct cs in if exists (same_cell c) rest then rest else c ∷ rest

pub total_zones : String → List MessageRow → ℕ
unfolding cell distinct
total_zones user_id messages =
    length (distinct (map cell (select (λ m. str_eq m.user_id user_id) messages)))
