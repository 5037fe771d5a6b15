-- ===== src/Qr/Field.antt =====
-- QRMath (static/lib/qrcode/qrcode.js): the field of 256 elements by powers and logarithms.
pub mod Table
pub mod Product
pub mod Laws
use study_tech.Base.{
  ℕ, zero, suc, ◌+◌, ◌-◌, ◌/◌, Option, none, some, get_or, leb, if◌then◌else◌, true, false, ltb,
}
use study_tech.Base.Int.{ℤ, pos, negsuc, ◌+ℤ◌}
use study_tech.Qr.Result.{Result, ok, err, bad_glog}
use study_tech.Qr.Field.Table.{exp_table, log_table}

-- A bit operation reads an element of an array that is `undefined` as 0.
unfoldable pub octet : Option ℕ → ℕ
octet none = 0
octet (some n) = n

-- An element of an array, where `none` is `undefined`. `undefined < 1` is false, and a table has
-- nothing at `undefined`.
unfoldable pub glog : Option ℕ → Result (Option ℕ)
glog none = ok none
glog (some n) = if ltb n 1 then err (bad_glog n) else ok (get_or log_table n none)

-- while (n < 0) n += 255
unfoldable pub raise : ℕ → ℤ → ℤ
unfolding ◌+ℤ◌
raise zero n = n
raise (suc fuel) (pos n) = pos n
raise (suc fuel) (negsuc n) = raise fuel (negsuc n +ℤ pos 255)

-- while (n >= 256) n -= 255
unfoldable pub lower : ℕ → ℕ → ℕ
lower zero n = n
lower (suc fuel) n = let rest = lower fuel (n - 255) in if leb 256 n then rest else n

unfoldable pub gexp_pos : ℤ → Option ℕ
unfolding lower
gexp_pos (pos n) = some (get_or exp_table (lower (n / 255) n) 0)
gexp_pos (negsuc n) = none

-- `none` is NaN, a sum with `undefined`: both loops end at once, and EXP_TABLE has nothing there.
unfoldable pub gexp : Option ℤ → Option ℕ
unfolding raise lower gexp_pos
gexp none = none
gexp (some (pos n)) = gexp_pos (pos n)
gexp (some (negsuc n)) = gexp_pos (raise (n / 255 + 1) (negsuc n))

-- A sum of numbers, where `none` is `undefined` or NaN.
unfoldable pub sum : Option ℕ → Option ℕ → Option ℤ
sum (some x) (some y) = some (pos (x + y))
sum _ _ = none
