-- ===== src/Scaled.antt =====
-- include/scaled.h at the instances the matcher uses: `scaled<unsigned long, 65535>` for the
-- quotient and `scaled<unsigned short, 65535>` for the score. A value is its scaled integer.
use undervest.Prelude.{ℕ, ◌*◌, ◌/◌, ◌%◌, ◌^◌, Bool, leb}

-- the constructor from an integer: `value(val * S)` in `unsigned long`
unfoldable pub of_ulong : ℕ → ℕ
of_ulong v = v * 65535 % 2 ^ 64

-- `operator/=` by an integer
unfoldable pub div_assign : ℕ → ℕ → ℕ
div_assign value y = value / y

-- the constructor from another `scaled`: `value(T((long long) val.value * S / Ss))`, for values
-- whose product with 65535 fits a `long long`
unfoldable pub narrow : ℕ → ℕ
narrow value = value * 65535 / 65535 % 2 ^ 16

-- `operator>=(const Ty& y)` at a `double`: `y` stands for the integer part of `y * 65535`, and the
-- conversion to `unsigned short` keeps its low 16 bits, as gcc does it on x86-64.
unfoldable pub at_least : ℕ → ℕ → Bool
at_least value y = leb (y % 2 ^ 16) value
