-- ===== src/Geo.antt =====
-- backend/internal/geo/haversine.go: the distance of two points, over the floating-point numbers.
use geo_note.Common.{◌≡◌, refl, ap, ◌∙◌, ◌⊎◌, inl, inr}
use geo_note.Floats.{Floats, Signs}

module _ (f : Floats) where
  abbrev radians : f.Float → f.Float
  radians degrees = f.div (f.mul degrees f.pi) (f.decimal 180 0)

  -- `math.Sin(d/2)`
  abbrev half_sine : f.Float → f.Float
  half_sine d = f.sin (f.div d (f.decimal 2 0))

  -- The `a` of the formula.
  haversine : f.Float → f.Float → f.Float → f.Float → f.Float
  haversine lat1 lng1 lat2 lng2 =
      let d_lat = radians (f.sub lat2 lat1) in
      let d_lng = radians (f.sub lng2 lng1) in
      f.add (f.mul (half_sine d_lat) (half_sine d_lat)) (
        f.mul (f.mul (f.mul (f.cos (radians lat1)) (f.cos (radians lat2))) (half_sine d_lng))
          (half_sine d_lng))

  -- `DistanceMeters`
  pub distance_meters : f.Float → f.Float → f.Float → f.Float → f.Float
  unfolding haversine
  distance_meters lat1 lng1 lat2 lng2 =
      let a = haversine lat1 lng1 lat2 lng2 in
      let c = f.mul (f.decimal 2 0) (f.atan2 (f.sqrt a) (f.sqrt (f.sub (f.decimal 1 0) a))) in
      f.mul (f.decimal 6371000 0) c

  module _ (s : Signs f) where
    -- The half sine of the difference the other way round.
    flipped :
        (a b : f.Float)
        → (half_sine (radians (f.sub b a)) ≡ half_sine (radians (f.sub a b)))
          ⊎ (half_sine (radians (f.sub b a)) ≡ f.neg (half_sine (radians (f.sub a b))))
    flipped a b = elim (s.sub_flip a b) [
      | inl e ↦ inl (rw e refl)
      | inr e ↦
          let d = f.sub a b in
          let two = f.decimal 2 0 in
          inr (
            ap (λ t. half_sine (radians t)) e
            ∙ ap (λ t. f.sin (f.div (f.div t (f.decimal 180 0)) two)) (s.neg_mul d f.pi)
            ∙ ap (λ t. f.sin (f.div t two)) (s.neg_div (f.mul d f.pi) (f.decimal 180 0))
            ∙ ap f.sin (s.neg_div (radians d) two)
            ∙ s.sin_odd (f.div (radians d) two))
    ]

    -- A factor that comes twice may change its sign.
    twice : (k x y : f.Float) → (x ≡ y) ⊎ (x ≡ f.neg y) → f.mul (f.mul k x) x ≡ f.mul (f.mul k y) y
    twice k x y (inl e) = rw e refl
    twice k x y (inr e) =
        rw (e, s.mul_neg k y, s.neg_mul (f.mul k y) (f.neg y), s.mul_neg (f.mul k y) y)
          (s.neg_neg (f.mul (f.mul k y) y))

    square : (x y : f.Float) → (x ≡ y) ⊎ (x ≡ f.neg y) → f.mul x x ≡ f.mul y y
    square x y (inl e) = rw e refl
    square x y (inr e) = rw (e, s.neg_mul y (f.neg y), s.mul_neg y y) (s.neg_neg (f.mul y y))

    haversine_comm :
        (lat1 lng1 lat2 lng2 : f.Float)
        → haversine lat1 lng1 lat2 lng2 ≡ haversine lat2 lng2 lat1 lng1
    unfolding haversine
    haversine_comm lat1 lng1 lat2 lng2 =
        let x = half_sine (radians (f.sub lat2 lat1)) in
        let x' = half_sine (radians (f.sub lat1 lat2)) in
        let y = half_sine (radians (f.sub lng2 lng1)) in
        let y' = half_sine (radians (f.sub lng1 lng2)) in
        let k = f.mul (f.cos (radians lat1)) (f.cos (radians lat2)) in
        let k' = f.mul (f.cos (radians lat2)) (f.cos (radians lat1)) in
        ap (λ t. f.add t (f.mul (f.mul k y) y)) (square x x' (flipped lat1 lat2))
        ∙ ap (λ t. f.add (f.mul x' x') (f.mul (f.mul t y) y))
            (s.mul_comm (f.cos (radians lat1)) (f.cos (radians lat2)))
        ∙ ap (f.add (f.mul x' x')) (twice k' y y' (flipped lng1 lng2))

    -- `DistanceMeters` does not depend on the order of the two points: to the last bit, over numbers
    -- whose products commute and whose operations treat the sign as IEEE 754 does.
    pub distance_meters_comm :
        (lat1 lng1 lat2 lng2 : f.Float)
        → distance_meters lat1 lng1 lat2 lng2 ≡ distance_meters lat2 lng2 lat1 lng1
    unfolding distance_meters
    distance_meters_comm lat1 lng1 lat2 lng2 =
        ap
          (λ a.
            f.mul (f.decimal 6371000 0)
              (f.mul (f.decimal 2 0) (f.atan2 (f.sqrt a) (f.sqrt (f.sub (f.decimal 1 0) a)))))
          (haversine_comm lat1 lng1 lat2 lng2)
