-- ===== src/Python/Double.antt =====
-- Python's `float` as its IEEE-754 bit pattern, a number below 2 ^ 64. The code tests floats, packs
-- them and compares magnitudes with a constant; the model does no arithmetic on them.
use haetae.Prelude.{ℕ, ◌/◌, ◌%◌, ◌^◌, Bool, not, ltb, ◌==◌}

-- `math.isfinite`: the exponent is not all ones.
unfoldable pub is_finite : ℕ → Bool
is_finite bits = not (bits / 2 ^ 52 % 2048 == 2047)

-- `x == 0.0`, which holds of both zeros.
unfoldable pub is_zero : ℕ → Bool
is_zero bits = bits % 2 ^ 63 == 0

-- `abs(x) < y` for finite `x` and a positive `y`: without the sign, bit patterns are in order.
unfoldable pub abs_lt : ℕ → ℕ → Bool
abs_lt bits bound = ltb (bits % 2 ^ 63) bound
