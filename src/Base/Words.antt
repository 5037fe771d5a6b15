-- ===== src/Base/Words.antt =====
-- The 32-bit shifts of JavaScript on numbers that are not negative.
use Prim.Native.Nat.{ℕ, ◌*◌, ◌/◌, ◌%◌, ◌^◌}

-- `x >>> k`: the number is cut to 32 bits, and the shift to 5.
infixl 75 ◌>>>◌
abbrev pub ◌>>>◌ : ℕ → ℕ → ℕ
x >>> k = x % 2 ^ 32 / 2 ^ (k % 32)

-- `x << k`, of numbers whose result is below 2 ^ 31.
infixl 75 ◌<<◌
abbrev pub ◌<<◌ : ℕ → ℕ → ℕ
x << k = x * 2 ^ k
