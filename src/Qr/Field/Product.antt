-- ===== src/Qr/Field/Product.antt =====
-- Products by logarithms against products of polynomials over two elements.
use study_tech.Base.{
  ℕ, zero, suc, ◌*◌, ◌/◌, ◌%◌, ◌≤◌, ◌<◌, bit_xor, ◌≡◌, refl, arith, ◌==◌, Bool, true, false,
  if◌then◌else◌, ltb, all_below, all_below-at, Option, none, some, ==_iff, ap,
}
use study_tech.Qr.Result.{Result, ok, err, ◌>>=◌}
use study_tech.Qr.Field.{glog, gexp, sum}

-- Times x, modulo x ^ 8 + x ^ 4 + x ^ 3 + x ^ 2 + 1.
abbrev pub times_x : ℕ → ℕ
times_x a = if ltb a 128 then a * 2 else bit_xor (a * 2) 0x11D

abbrev pub product_from : ℕ → ℕ → ℕ → ℕ
product_from zero a b = 0
product_from (suc bits) a b =
    let rest = times_x (product_from bits a (b / 2)) in if b % 2 == 1 then bit_xor a rest else rest

unfoldable pub product : ℕ → ℕ → ℕ
product a b = product_from 8 a b

unfoldable pub by_logs : ℕ → ℕ → Result (Option ℕ)
by_logs a b = glog (some a) >>= λ x. glog (some b) >>= λ y. ok (gexp (sum x y))

agrees : ℕ → Result (Option ℕ) → Bool
agrees n (ok (some m)) = m == n
agrees n (ok none) = false
agrees n (err e) = false

row : ℕ → ℕ → Bool
unfolding product agrees by_logs gexp glog sum
row a b = agrees (product (suc a) (suc b)) (by_logs (suc a) (suc b))

table : all_below 255 (λ a. all_below 255 (row a)) ≡ true
unfolding all_below row
table = refl

agrees_sound : (n : ℕ) (r : Result (Option ℕ)) → agrees n r ≡ true → r ≡ ok (some n)
unfolding agrees
agrees_sound n (ok (some m)) h = ap (λ (t : ℕ). ok (some t)) ((==_iff m n).0 h)
agrees_sound n (ok none) h = cc
agrees_sound n (err e) h = cc

-- The product of two bytes that are not 0 by logarithms, the power of the sum of their logarithms, is their
-- product as polynomials modulo x ^ 8 + x ^ 4 + x ^ 3 + x ^ 2 + 1.
pub by_logs-eq-product :
    (a b : ℕ) → 1 ≤ a → a < 256 → 1 ≤ b → b < 256 → by_logs a b ≡ ok (some (product a b))
unfolding row
by_logs-eq-product zero b a1 ah b1 bh = absurd (omega arith)
by_logs-eq-product (suc a) zero a1 ah b1 bh = absurd (omega arith)
by_logs-eq-product (suc a) (suc b) a1 ah b1 bh =
    agrees_sound _ _
      (all_below-at 255 (row a) b (all_below-at 255 _ a table (omega arith)) (omega arith))
