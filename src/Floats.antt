-- ===== src/Floats.antt =====
-- The float64 numbers of Go and its package math, which are not part of the repository: operations as
-- parameters, with the laws of IEEE 754 that the code relies on.
use geo_note.Common.{ℕ, ◌≡◌, ◌⊎◌}
use geo_note.Common.Int.{ℤ}

pub record Floats : Type 1 where
  pub Float : Type 0
  -- `decimal n d` is the literal n / 10^d.
  pub decimal : ℕ → ℕ → Float
  pub add : Float → Float → Float
  pub sub : Float → Float → Float
  pub mul : Float → Float → Float
  pub div : Float → Float → Float
  pub neg : Float → Float
  pub min : Float → Float → Float
  pub pi : Float
  pub sin : Float → Float
  pub cos : Float → Float
  pub sqrt : Float → Float
  pub atan2 : Float → Float → Float
  pub exp : Float → Float
  pub log1p : Float → Float
  -- A conversion of an int, and a distance in millimetres as a float64 in metres.
  pub of_int : ℤ → Float
  pub metres : ℕ → Float
  -- `now.Sub(t).Hours()`
  pub hours : ℕ → ℕ → Float

module _ (f : Floats) where
  -- How operations treat the sign; a difference of unequal numbers changes its sign with its order.
  pub record Signs : Type 0 where
    pub mul_comm : (a b : f.Float) → f.mul a b ≡ f.mul b a
    pub neg_neg : (a : f.Float) → f.neg (f.neg a) ≡ a
    pub neg_mul : (a b : f.Float) → f.mul (f.neg a) b ≡ f.neg (f.mul a b)
    pub mul_neg : (a b : f.Float) → f.mul a (f.neg b) ≡ f.neg (f.mul a b)
    pub neg_div : (a b : f.Float) → f.div (f.neg a) b ≡ f.neg (f.div a b)
    pub sub_flip : (a b : f.Float) → (a ≡ b) ⊎ (f.sub b a ≡ f.neg (f.sub a b))
    pub sin_odd : (a : f.Float) → f.sin (f.neg a) ≡ f.neg (f.sin a)
