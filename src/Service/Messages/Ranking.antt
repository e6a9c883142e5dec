-- ===== src/Service/Messages/Ranking.antt =====
-- `rankScore` of backend/internal/service/message_service.go, over the floating-point numbers.
use geo_note.Common.{ℕ, Option, none, some, ltb, if◌then◌else◌}
use geo_note.Floats.{Floats}
use geo_note.Model.{Message}

module _ (f : Floats) where
  -- The distance that counts: 1000 metres where there is none, or where it is 0.
  counted_distance : Option ℕ → f.Float
  counted_distance none = f.decimal 1000 0
  counted_distance (some d) = if ltb 0 d then f.metres d else f.decimal 1000 0

  -- `rankScore`
  pub rank_score : Message → ℕ → f.Float
  unfolding counted_distance
  rank_score m now =
      let dist_score =
        f.sub (f.decimal 1 0)
          (f.div (f.min (counted_distance m.distance) (f.decimal 1000 0)) (f.decimal 1000 0)) in
      let likes_score = f.div (f.log1p (f.of_int m.likes_count)) (f.decimal 5 0) in
      let recency_score = f.exp (f.div (f.neg (f.hours now m.created_at)) (f.decimal 866 2)) in
      f.add (f.add (f.mul dist_score (f.decimal 4 1)) (f.mul likes_score (f.decimal 3 1)))
        (f.mul recency_score (f.decimal 3 1))
