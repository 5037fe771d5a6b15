-- ===== src/Qr/Bch.antt =====
-- QRUtil.getBCHDigit, getBCHTypeInfo and getBCHTypeNumber: the check bits of the format and version.
pub mod Distance
use study_tech.Base.{
  ℕ, zero, suc, ◌-◌, bit_or, bit_xor, leb, if◌then◌else◌, true, false, ◌>>>◌, ◌<<◌,
}

-- 1 << 10 | 1 << 8 | 1 << 5 | 1 << 4 | 1 << 2 | 1 << 1 | 1 << 0
abbrev pub g15 : ℕ
g15 = 0x537

-- 1 << 12 | 1 << 11 | 1 << 10 | 1 << 9 | 1 << 8 | 1 << 5 | 1 << 2 | 1 << 0
abbrev pub g18 : ℕ
g18 = 0x1F25

-- 1 << 14 | 1 << 12 | 1 << 10 | 1 << 4 | 1 << 1
abbrev pub g15_mask : ℕ
g15_mask = 0x5412

-- while (data != 0) { digit++; data >>>= 1 }
unfoldable pub digit_loop : ℕ → ℕ → ℕ
digit_loop fuel zero = 0
digit_loop zero (suc n) = 0
digit_loop (suc fuel) (suc n) = suc (digit_loop fuel (suc n >>> 1))

-- A number of 32 bits is 0 after 32 rounds.
unfoldable pub get_bch_digit : ℕ → ℕ
unfolding digit_loop
get_bch_digit dat = digit_loop 32 dat

-- while (getBCHDigit(d) - getBCHDigit(g) >= 0) d ^= g << getBCHDigit(d) - getBCHDigit(g)
unfoldable pub bch_loop : ℕ → ℕ → ℕ → ℕ
bch_loop zero g d = d
bch_loop (suc fuel) g d =
    let shift = get_bch_digit d - get_bch_digit g in
    let rest = bch_loop fuel g (bit_xor d (g << shift)) in
    if leb (get_bch_digit g) (get_bch_digit d) then rest else d

-- A round takes the highest bit of `d` away, and there are at most 32.
unfoldable pub get_bch_type_info : ℕ → ℕ
unfolding get_bch_digit bch_loop
get_bch_type_info dat = bit_xor (bit_or (dat << 10) (bch_loop 32 g15 (dat << 10))) g15_mask

unfoldable pub get_bch_type_number : ℕ → ℕ
unfolding get_bch_digit bch_loop
get_bch_type_number dat = bit_or (dat << 12) (bch_loop 32 g18 (dat << 12))
