-- ===== src/Base/Xor.antt =====
-- `^` on numbers that are not negative: its laws go digit by digit.
use Prim.Native.Nat.{ℕ, zero, suc, ◌+◌, ◌*◌, ◌/◌, ◌%◌, ◌≤◌, ◌<◌}
use Prim.Native.Nat.{bit_xor, differ, digits, bit_xor-bitwise}
use mathlib.Core.Path.{◌≡◌, refl, sym, ap, ◌∙◌}
use native.Mathlib.Nat.{le_refl}
use native.Mathlib.Omega.{arith}

abbrev xor_digits : ℕ → ℕ → ℕ → ℕ
xor_digits fuel a b = digits (λ b. b) differ fuel a b

xor_digits_fuel : (f g a b : ℕ) → a ≤ f → a ≤ g → xor_digits f a b ≡ xor_digits g a b
xor_digits_fuel zero zero a b p q = refl
xor_digits_fuel zero (suc g) zero b p q = refl
xor_digits_fuel zero (suc g) (suc a) b p q = absurd (omega arith)
xor_digits_fuel (suc f) zero zero b p q = refl
xor_digits_fuel (suc f) zero (suc a) b p q = absurd (omega arith)
xor_digits_fuel (suc f) (suc g) zero b p q = refl
xor_digits_fuel (suc f) (suc g) (suc a) b p q =
    rw (xor_digits_fuel f g (suc a / 2) (b / 2) (omega arith) (omega arith))

differ_bits : (x y : ℕ) → x < 2 → y < 2 → differ x y ≡ (x + y) % 2
differ_bits zero y p q = omega arith
differ_bits (suc zero) zero p q = refl
differ_bits (suc zero) (suc zero) p q = refl
differ_bits (suc zero) (suc (suc y)) p q = absurd (omega arith)
differ_bits (suc (suc x)) y p q = absurd (omega arith)

differ-digit : (a b : ℕ) → bit_xor a b ≡ bit_xor (a / 2) (b / 2) * 2 + differ (a % 2) (b % 2)
differ-digit zero b = simp bit_xor-bitwise (omega arith)
differ-digit (suc a) b =
    simp bit_xor-bitwise
      (omega (arith, xor_digits_fuel a (suc a / 2) (suc a / 2) (b / 2) (omega arith) (le_refl _)))

pub bit_xor-digit : (a b : ℕ) → bit_xor a b ≡ bit_xor (a / 2) (b / 2) * 2 + (a % 2 + b % 2) % 2
bit_xor-digit a b =
    omega (arith, differ-digit a b, differ_bits (a % 2) (b % 2) (omega arith) (omega arith))

pub bit_xor-half : (a b : ℕ) → bit_xor a b / 2 ≡ bit_xor (a / 2) (b / 2)
bit_xor-half a b = omega (arith, bit_xor-digit a b)

pub bit_xor-parity : (a b : ℕ) → bit_xor a b % 2 ≡ (a % 2 + b % 2) % 2
bit_xor-parity a b = omega (arith, bit_xor-digit a b)

pub zero-bit_xor : (b : ℕ) → bit_xor 0 b ≡ b
zero-bit_xor b = simp bit_xor-bitwise refl

pub bit_xor-zero : (a : ℕ) → bit_xor a 0 ≡ a
bit_xor-zero a = on_fuel a a (le_refl a)
  where
    on_fuel : (f x : ℕ) → x ≤ f → bit_xor x 0 ≡ x
    on_fuel f zero h = refl
    on_fuel zero (suc x) h = absurd (omega arith)
    on_fuel (suc f) (suc x) h =
        omega (arith, bit_xor-digit (suc x) 0, on_fuel f (suc x / 2) (omega arith))

pub bit_xor_self : (a : ℕ) → bit_xor a a ≡ 0
bit_xor_self a = on_fuel a a (le_refl a)
  where
    on_fuel : (f x : ℕ) → x ≤ f → bit_xor x x ≡ 0
    on_fuel f zero h = refl
    on_fuel zero (suc x) h = absurd (omega arith)
    on_fuel (suc f) (suc x) h =
        omega (arith, bit_xor-digit (suc x) (suc x), on_fuel f (suc x / 2) (omega arith))

pub bit_xor_comm : (a b : ℕ) → bit_xor a b ≡ bit_xor b a
bit_xor_comm a b = on_fuel a a b (le_refl a)
  where
    on_fuel : (f x y : ℕ) → x ≤ f → bit_xor x y ≡ bit_xor y x
    on_fuel f zero y h = zero-bit_xor y ∙ sym (bit_xor-zero y)
    on_fuel zero (suc x) y h = absurd (omega arith)
    on_fuel (suc f) (suc x) y h = omega (
      arith,
      bit_xor-digit (suc x) y,
      bit_xor-digit y (suc x),
      on_fuel f (suc x / 2) (y / 2) (omega arith),
    )

left_digit :
    (a b c : ℕ)
    → bit_xor (bit_xor a b) c
      ≡ bit_xor (bit_xor (a / 2) (b / 2)) (c / 2) * 2 + (a % 2 + b % 2 + c % 2) % 2
left_digit a b c = omega (
  arith,
  bit_xor-digit (bit_xor a b) c,
  bit_xor-parity a b,
  ap (λ (t : ℕ). bit_xor t (c / 2)) (bit_xor-half a b),
)

right_digit :
    (a b c : ℕ)
    → bit_xor a (bit_xor b c)
      ≡ bit_xor (a / 2) (bit_xor (b / 2) (c / 2)) * 2 + (a % 2 + b % 2 + c % 2) % 2
right_digit a b c = omega (
  arith,
  bit_xor-digit a (bit_xor b c),
  bit_xor-parity b c,
  ap (λ (t : ℕ). bit_xor (a / 2) t) (bit_xor-half b c),
)

pub bit_xor_assoc : (a b c : ℕ) → bit_xor (bit_xor a b) c ≡ bit_xor a (bit_xor b c)
bit_xor_assoc a b c = on_fuel a a b c (le_refl a)
  where
    on_fuel : (f x y z : ℕ) → x ≤ f → bit_xor (bit_xor x y) z ≡ bit_xor x (bit_xor y z)
    on_fuel f zero y z h =
        ap (λ (t : ℕ). bit_xor t z) (zero-bit_xor y) ∙ sym (zero-bit_xor (bit_xor y z))
    on_fuel zero (suc x) y z h = absurd (omega arith)
    on_fuel (suc f) (suc x) y z h = omega (
      arith,
      left_digit (suc x) y z,
      right_digit (suc x) y z,
      on_fuel f (suc x / 2) (y / 2) (z / 2) (omega arith),
    )

-- Two sums, term by term.
pub bit_xor_swap :
    (a b c d : ℕ) → bit_xor (bit_xor a b) (bit_xor c d) ≡ bit_xor (bit_xor a c) (bit_xor b d)
bit_xor_swap a b c d =
    bit_xor_assoc a b (bit_xor c d)
    ∙ ap (bit_xor a) (
        sym (bit_xor_assoc b c d)
        ∙ ap (λ (t : ℕ). bit_xor t d) (bit_xor_comm b c)
        ∙ bit_xor_assoc c b d)
    ∙ sym (bit_xor_assoc a c (bit_xor b d))
