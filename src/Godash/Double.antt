-- ===== src/Godash/Double.antt =====
-- The `float64` of godash/algorithms: an interface with the operations that the algorithms use. A
-- conversion to an index or a throughput gives 0 for what is negative, since no bandwidth is below a
-- throughput that is 0 or less.
use rlnc_streaming.Base.{ℕ, ◌+◌, ◌/◌, ◌<◌, ◌^◌, ◌≡◌, Bool}

pub record Doubles (D : Type 0) : Type 0 where
  -- `float64(n)` and `float64(a - b)`
  pub of_int : ℕ → D
  pub of_difference : ℕ → ℕ → D
  -- The constant a / b
  pub literal : ℕ → ℕ → D
  pub plus : D → D → D
  pub minus : D → D → D
  pub times : D → D → D
  pub over : D → D → D
  -- `math.Pow`, `math.Exp` and `math.Ceil`
  pub power : D → D → D
  pub exp : D → D
  pub ceil : D → D
  pub below : D → D → Bool
  pub at_most : D → D → Bool
  -- `int(x)`
  pub to_int : D → ℕ

-- What IEEE 754 states of integers below 2^53: they are added exactly, and a quotient of two of them is
-- cut to the quotient of the integers.
pub record IsExact {D : Type 0} (d : Doubles D) : Type 0 where
  pub plus_int : (a b : ℕ) → a + b < 2 ^ 53 → d.plus (d.of_int a) (d.of_int b) ≡ d.of_int (a + b)
  pub over_int :
      (a b : ℕ)
      → a < 2 ^ 53
      → 0 < b
      → b < 2 ^ 53
      → d.to_int (d.over (d.of_int a) (d.of_int b)) ≡ a / b
