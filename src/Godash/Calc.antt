-- ===== src/Godash/Calc.antt =====
-- godash/utils/calcFunctions.go, and `FloatMin` of godash/algorithms/helperFunctions.go.
use rlnc_streaming.Base.{ℕ, ltb, if◌then◌else◌}
use rlnc_streaming.Godash.Double.{Doubles}

-- `Max`
abbrev pub max_int : ℕ → ℕ → ℕ
max_int x y = if ltb x y then y else x

-- `Min`
abbrev pub min_int : ℕ → ℕ → ℕ
min_int x y = if ltb y x then y else x

-- `FloatMin`
abbrev pub float_min : {D : Type 0} → Doubles D → D → D → D
float_min d a b = if d.below a b then a else b

-- `MaxFloat`
abbrev pub max_float : {D : Type 0} → Doubles D → D → D → D
max_float d x y = if d.below x y then y else x
