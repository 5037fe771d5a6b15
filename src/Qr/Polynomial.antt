-- ===== src/Qr/Polynomial.antt =====
-- QRPolynomial and QRUtil.getErrorCorrectPolynomial: polynomials over the field of QRMath.
pub mod Generator
pub mod Subtract
pub mod Reduce
pub mod Modulo
pub mod Value
pub mod Combine
pub mod Remainder
use study_tech.Base.{
  ℕ, zero, suc, ◌+◌, ◌-◌, bit_xor, List, [], ◌∷◌, ◌++◌, Option, none, some, length, get_or, set,
  ltb, if◌then◌else◌, true, false,
}
use study_tech.Base.Int.{ℤ, pos, ◌+ℤ◌, sub_ℕ}
use study_tech.Qr.Result.{Result, ok, err, ◌>>=◌}
use study_tech.Qr.Field.{octet, glog, gexp, sum}

-- `num`, the coefficient of the highest power first; `none` is `undefined`.
abbrev pub Polynomial : Type 0
Polynomial = List (Option ℕ)

abbrev pub holes : ℕ → Polynomial
holes zero = []
holes (suc n) = none ∷ holes n

-- while (offset < num.length && num[offset] == 0) offset++, where `undefined == 0` is false.
unfoldable pub strip : Polynomial → Polynomial
strip [] = []
strip (none ∷ num) = none ∷ num
strip (some zero ∷ num) = strip num
strip (some (suc n) ∷ num) = some (suc n) ∷ num

-- The constructor: `shift` elements are left `undefined` behind.
unfoldable pub new_polynomial : Polynomial → ℕ → Polynomial
unfolding strip
new_polynomial num shift = strip num ++ holes shift

-- num[i] ^= value
unfoldable pub xor_at : Polynomial → ℕ → Option ℕ → Polynomial
unfolding octet
xor_at num i value = set num i (some (bit_xor (octet (get_or num i none)) (octet value)))

-- QRMath.gexp(QRMath.glog(x) + QRMath.glog(e))
unfoldable pub term : Option ℕ → Option ℕ → Result (Option ℕ)
unfolding glog gexp sum
term x e = glog x >>= λ a. glog e >>= λ b. ok (gexp (sum a b))

-- The loop over `j`, where `i` is i + j.
unfoldable pub multiply_row : Option ℕ → Polynomial → ℕ → Polynomial → Result Polynomial
unfolding term xor_at
multiply_row x [] i num = ok num
multiply_row x (e ∷ es) i num = term x e >>= λ v. multiply_row x es (i + 1) (xor_at num i v)

unfoldable pub multiply_rows : Polynomial → Polynomial → ℕ → Polynomial → Result Polynomial
unfolding multiply_row
multiply_rows [] es i num = ok num
multiply_rows (x ∷ xs) es i num = multiply_row x es i num >>= multiply_rows xs es (i + 1)

unfoldable pub multiply : Polynomial → Polynomial → Result Polynomial
unfolding multiply_rows new_polynomial
multiply a e =
    multiply_rows a e 0 (holes (length a + length e - 1)) >>= λ num. ok (new_polynomial num 0)

-- A difference of numbers, and a sum, where `none` is `undefined` or NaN.
unfoldable pub difference : Option ℕ → Option ℕ → Option ℤ
difference (some x) (some y) = some (sub_ℕ x y)
difference _ _ = none

unfoldable pub shifted : Option ℕ → Option ℤ → Option ℤ
unfolding ◌+ℤ◌
shifted (some x) (some y) = some (pos x +ℤ y)
shifted _ _ = none

-- for (i = 0; i < e.getLength(); i++) num[i] ^= QRMath.gexp(QRMath.glog(e.get(i)) + ratio)
unfoldable pub subtract : Option ℤ → Polynomial → ℕ → Polynomial → Result Polynomial
unfolding xor_at shifted glog gexp
subtract ratio [] i num = ok num
subtract ratio (e ∷ es) i num =
    glog e >>= λ a. subtract ratio es (i + 1) (xor_at num i (gexp (shifted a ratio)))

-- One call of `mod` that does not return at once.
unfoldable pub reduce : Polynomial → Polynomial → Result Polynomial
unfolding difference subtract new_polynomial glog
reduce a e = glog (get_or a 0 none) >>= λ x. glog (get_or e 0 none) >>= λ y.
    subtract (difference x y) e 0 a >>= λ num. ok (new_polynomial num 0)

-- `mod`, which calls itself; `none` stands for calls that do not end.
unfoldable pub modulo_from : ℕ → Polynomial → Polynomial → Result (Option Polynomial)
unfolding reduce
modulo_from zero a e = ok none
modulo_from (suc fuel) a e =
    let rest = reduce a e >>= λ num. modulo_from fuel num e in
    if ltb (length a) (length e) then ok (some a) else rest

-- A call takes at least the first coefficient away.
unfoldable pub modulo : Polynomial → Polynomial → Result (Option Polynomial)
unfolding modulo_from
modulo a e = modulo_from (length a + 1) a e

-- The loop of getErrorCorrectPolynomial from `i` on, with `left` rounds to go.
unfoldable pub error_correct_from : ℕ → ℕ → Polynomial → Result Polynomial
unfolding multiply new_polynomial gexp
error_correct_from zero i a = ok a
error_correct_from (suc left) i a =
    multiply a (new_polynomial (some 1 ∷ gexp (some (pos i)) ∷ []) 0)
    >>= error_correct_from left (i + 1)

unfoldable pub get_error_correct_polynomial : ℕ → Result Polynomial
unfolding error_correct_from
get_error_correct_polynomial n = error_correct_from n 0 (new_polynomial (some 1 ∷ []) 0)
