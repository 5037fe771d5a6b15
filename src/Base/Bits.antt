-- ===== src/Base/Bits.antt =====
-- `&` with a mask, and shifts, as division and remainder: the laws go digit by digit.
use Prim.Native.Nat.{ℕ, zero, suc, ◌+◌, ◌-◌, ◌*◌, ◌/◌, ◌%◌, ◌^◌, ◌≤◌, min}
use Prim.Native.Nat.{bit_and, digits, bit_and-bitwise}
use mathlib.Core.Path.{◌≡◌, refl, ap}
use native.Mathlib.Nat.{pow-suc, le_refl, one-le-pow, div-div-eq-div-mul}
use native.Mathlib.Omega.{arith}

-- The digits of `a & b`, on fuel: the fuel does not matter where it reaches `a`.
abbrev and_digits : ℕ → ℕ → ℕ → ℕ
and_digits fuel a b = digits (λ _. zero) min fuel a b

and_digits_fuel : (f g a b : ℕ) → a ≤ f → a ≤ g → and_digits f a b ≡ and_digits g a b
and_digits_fuel zero zero a b p q = refl
and_digits_fuel zero (suc g) zero b p q = refl
and_digits_fuel zero (suc g) (suc a) b p q = absurd (omega arith)
and_digits_fuel (suc f) zero zero b p q = refl
and_digits_fuel (suc f) zero (suc a) b p q = absurd (omega arith)
and_digits_fuel (suc f) (suc g) zero b p q = refl
and_digits_fuel (suc f) (suc g) (suc a) b p q =
    rw (and_digits_fuel f g (suc a / 2) (b / 2) (omega arith) (omega arith))

pub bit_and-digit : (a b : ℕ) → bit_and a b ≡ bit_and (a / 2) (b / 2) * 2 + min (a % 2) (b % 2)
bit_and-digit zero b = simp bit_and-bitwise (omega arith)
bit_and-digit (suc a) b =
    simp bit_and-bitwise
      (omega (arith, and_digits_fuel a (suc a / 2) (suc a / 2) (b / 2) (omega arith) (le_refl _)))

div-two-pow-suc : (a k : ℕ) → a / 2 ^ suc k ≡ a / 2 / 2 ^ k
div-two-pow-suc a k =
    rw (div-div-eq-div-mul a 2 (2 ^ k)) (ap (λ (t : ℕ). a / t) (omega (arith, pow-suc 2 k)))

div-one : (a : ℕ) → a / 2 ^ 0 ≡ a
div-one a = omega arith

mod-two-pow-suc : (a k : ℕ) → a % 2 ^ suc k ≡ 2 * (a / 2 % 2 ^ k) + a % 2
mod-two-pow-suc a k = omega (
  arith,
  div-two-pow-suc a k,
  ap (λ (t : ℕ). t * (a / 2 / 2 ^ k)) (pow-suc 2 k),
  ap (λ (t : ℕ). 2 ^ suc k * t) (div-two-pow-suc a k),
)

bit_and-half : (a b : ℕ) → bit_and a b / 2 ≡ bit_and (a / 2) (b / 2)
bit_and-half a b = omega (arith, bit_and-digit a b)

-- `(a & b) >>> k`.
pub bit_and-shift : (k a b : ℕ) → bit_and a b / 2 ^ k ≡ bit_and (a / 2 ^ k) (b / 2 ^ k)
bit_and-shift zero a b = rw (div-one (bit_and a b), div-one a, div-one b) refl
bit_and-shift (suc k) a b =
    rw
      (
        div-two-pow-suc (bit_and a b) k,
        bit_and-half a b,
        bit_and-shift k (a / 2) (b / 2),
        div-two-pow-suc a k,
        div-two-pow-suc b k,
      )
      refl

pub bit_and-zero : (a : ℕ) → bit_and a 0 ≡ 0
bit_and-zero a = on_fuel a a (le_refl a)
  where
    on_fuel : (f x : ℕ) → x ≤ f → bit_and x 0 ≡ 0
    on_fuel f zero h = refl
    on_fuel zero (suc x) h = absurd (omega arith)
    on_fuel (suc f) (suc x) h =
        omega (arith, bit_and-digit (suc x) 0, on_fuel f (suc x / 2) (omega arith))

-- `a & (2 ^ k - 1)`.
pub bit_and_mask : (k a : ℕ) → bit_and a (2 ^ k - 1) ≡ a % 2 ^ k
bit_and_mask zero a = rw (bit_and-zero a) (omega arith)
bit_and_mask (suc k) a =
    let ones : (2 ^ suc k - 1) / 2 ≡ 2 ^ k - 1 = omega (arith, pow-suc 2 k, one-le-pow k 2) in
    omega (
      arith,
      bit_and-digit a (2 ^ suc k - 1),
      ap (λ (t : ℕ). bit_and (a / 2) t) ones,
      bit_and_mask k (a / 2),
      mod-two-pow-suc a k,
      pow-suc 2 k,
      one-le-pow k 2 (omega arith),
    )

pub bit_and-le_left : (a b : ℕ) → bit_and a b ≤ a
bit_and-le_left a b = on_fuel a a b (le_refl a)
  where
    on_fuel : (f x y : ℕ) → x ≤ f → bit_and x y ≤ x
    on_fuel f zero y h = omega (arith, bit_and-bitwise 0 y)
    on_fuel zero (suc x) y h = absurd (omega arith)
    on_fuel (suc f) (suc x) y h =
        omega (arith, bit_and-digit (suc x) y, on_fuel f (suc x / 2) (y / 2) (omega arith))

-- `(a & (2 ^ w - 1 << k)) >>> k` is the field of `w` bits from bit `k` on.
pub bit_and_field : (k w a b : ℕ) → b / 2 ^ k ≡ 2 ^ w - 1 → bit_and a b / 2 ^ k ≡ a / 2 ^ k % 2 ^ w
bit_and_field k w a b e = rw (bit_and-shift k a b, e) (bit_and_mask w (a / 2 ^ k))
