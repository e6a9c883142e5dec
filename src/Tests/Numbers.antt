-- ===== src/Tests/Numbers.antt =====
-- Numbers that are simple enough to run the formulas on: signs.
use geo_note.Common.{◌≡◌, ◌⊎◌, inl, inr, refl}
use geo_note.Floats.{Floats, Signs}
use geo_note.Geo.{distance_meters, distance_meters_comm}

data Sign : Type 0 where
  minus zero plus : Sign

abbrev opposite : Sign → Sign
opposite minus = plus
opposite zero = zero
opposite plus = minus

abbrev times : Sign → Sign → Sign
times minus b = opposite b
times zero b = zero
times plus b = b

-- The sign of a difference of representatives.
abbrev minus_sign : Sign → Sign → Sign
minus_sign minus minus = zero
minus_sign minus zero = minus
minus_sign minus plus = minus
minus_sign zero b = opposite b
minus_sign plus minus = plus
minus_sign plus zero = plus
minus_sign plus plus = zero

abbrev plus_sign : Sign → Sign → Sign
plus_sign a b = minus_sign a (opposite b)

abbrev signs : Floats
signs = record {
  Float = Sign;
  decimal = λ n d. plus;
  add = plus_sign;
  sub = minus_sign;
  mul = times;
  div = times;
  neg = opposite;
  min = λ a b. a;
  pi = plus;
  sin = λ a. a;
  cos = λ a. plus;
  sqrt = λ a. a;
  atan2 = λ a b. a;
  exp = λ a. plus;
  log1p = λ a. a;
  of_int = λ n. plus;
  metres = λ n. plus;
  hours = λ now t. plus;
}

opposite-opposite : (a : Sign) → opposite (opposite a) ≡ a
opposite-opposite minus = refl
opposite-opposite zero = refl
opposite-opposite plus = refl

times_comm : (a b : Sign) → times a b ≡ times b a
times_comm minus minus = refl
times_comm minus zero = refl
times_comm minus plus = refl
times_comm zero minus = refl
times_comm zero zero = refl
times_comm zero plus = refl
times_comm plus minus = refl
times_comm plus zero = refl
times_comm plus plus = refl

opposite-times : (a b : Sign) → times (opposite a) b ≡ opposite (times a b)
opposite-times minus minus = refl
opposite-times minus zero = refl
opposite-times minus plus = refl
opposite-times zero b = refl
opposite-times plus minus = refl
opposite-times plus zero = refl
opposite-times plus plus = refl

times-opposite : (a b : Sign) → times a (opposite b) ≡ opposite (times a b)
times-opposite minus minus = refl
times-opposite minus zero = refl
times-opposite minus plus = refl
times-opposite zero b = refl
times-opposite plus minus = refl
times-opposite plus zero = refl
times-opposite plus plus = refl

flip_difference : (a b : Sign) → (a ≡ b) ⊎ (minus_sign b a ≡ opposite (minus_sign a b))
flip_difference minus minus = inl refl
flip_difference minus zero = inr refl
flip_difference minus plus = inr refl
flip_difference zero minus = inr refl
flip_difference zero zero = inl refl
flip_difference zero plus = inr refl
flip_difference plus minus = inr refl
flip_difference plus zero = inr refl
flip_difference plus plus = inl refl

signs-Signs : Signs signs
signs-Signs = record {
  mul_comm = times_comm;
  neg_neg = opposite-opposite;
  neg_mul = opposite-times;
  mul_neg = times-opposite;
  neg_div = opposite-times;
  sub_flip = flip_difference;
  sin_odd = λ a. refl;
}

distance_meters_comm_example :
    distance_meters signs plus minus zero plus ≡ distance_meters signs zero plus plus minus
distance_meters_comm_example = distance_meters_comm signs signs-Signs plus minus zero plus
