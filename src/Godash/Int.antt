-- ===== src/Godash/Int.antt =====
-- Go's `int`, where a value of godash may be negative.
use rlnc_streaming.Base.{ℕ, suc, ◌+◌, ◌-◌, ◌*◌, ◌/◌, Bool, true, false, leb, if◌then◌else◌}

pub data ℤ : Type 0 where
  pos negsuc : ℕ → ℤ

-- `a - b`
abbrev pub difference : ℕ → ℕ → ℤ
difference a b = if leb b a then pos (a - b) else negsuc (b - a - 1)

infixl 6 ◌+ℤ◌
abbrev pub ◌+ℤ◌ : ℤ → ℤ → ℤ
pos a +ℤ pos b = pos (a + b)
pos a +ℤ negsuc b = difference a (b + 1)
negsuc a +ℤ pos b = difference b (a + 1)
negsuc a +ℤ negsuc b = negsuc (a + b + 1)

-- `x > 0`
abbrev pub is_positive : ℤ → Bool
is_positive (pos (suc n)) = true
is_positive _ = false

-- `k * x` for a constant k
abbrev pub times : ℕ → ℤ → ℤ
times k (pos n) = pos (k * n)
times k (negsuc n) = difference 0 (k * (n + 1))

-- `x / d` for a positive `d`, cut towards zero
abbrev pub quotient : ℤ → ℕ → ℤ
quotient (pos n) d = pos (n / d)
quotient (negsuc n) d = difference 0 ((n + 1) / d)

-- `x - 1`
abbrev pub before : ℤ → ℤ
before (pos n) = difference n 1
before (negsuc n) = negsuc (n + 1)

-- `-x`
abbrev pub opposite : ℤ → ℤ
opposite (pos n) = difference 0 n
opposite (negsuc n) = pos (n + 1)
