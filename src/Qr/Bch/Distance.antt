-- ===== src/Qr/Bch/Distance.antt =====
-- How far apart the words of the format and of the version are.
use study_tech.Base.{
  ℕ, zero, suc, ◌+◌, ◌/◌, ◌%◌, ◌≤◌, ◌<◌, ◌≡◌, ◌≢◌, refl, arith, bit_xor, leb, ◌==◌, ◌&&◌, ◌||◌,
  Bool, true, all_below, all_below-at, leb→le, ==_iff, &&-eq-true,
}
use study_tech.Qr.Bch.{get_bch_type_info, get_bch_type_number, g15_mask}

-- The ones among the lowest `bits` bits.
abbrev ones : ℕ → ℕ → ℕ
ones zero n = 0
ones (suc bits) n = n % 2 + ones bits (n / 2)

-- The bits in which two numbers of 18 bits differ.
unfoldable pub distance : ℕ → ℕ → ℕ
distance a b = ones 18 (bit_xor a b)

info_pair : ℕ → ℕ → Bool
unfolding get_bch_type_info distance
info_pair a b =
    (bit_xor (get_bch_type_info a) g15_mask / 1024 == a)
    && ((a == b) || leb 7 (distance (get_bch_type_info a) (get_bch_type_info b)))

number_pair : ℕ → ℕ → Bool
unfolding get_bch_type_number distance
number_pair a b =
    (get_bch_type_number a / 4096 == a)
    && ((a == b) || leb 8 (distance (get_bch_type_number a) (get_bch_type_number b)))

info_table : all_below 32 (λ a. all_below 32 (info_pair a)) ≡ true
unfolding all_below info_pair
info_table = refl

number_table : all_below 41 (λ a. all_below 41 (number_pair a)) ≡ true
unfolding all_below number_pair
number_table = refl

or_else : (a b : ℕ) (p : Bool) → a ≢ b → ((a == b) || p) ≡ true → p ≡ true
or_else a b p ne h = ground arith

-- Any two format words differ in at least 7 of their bits, and each has its data as the upper five
-- bits below the mask.
pub get_bch_type_info-distance :
    (a b : ℕ)
    → a < 32
    → b < 32
    → a ≢ b
    → (bit_xor (get_bch_type_info a) g15_mask / 1024 ≡ a)
      × (7 ≤ distance (get_bch_type_info a) (get_bch_type_info b))
unfolding info_pair
get_bch_type_info-distance a b ah bh ne =
    let pair = all_below-at 32 (info_pair a) b (all_below-at 32 _ a info_table ah) bh in
    let (here, far) = &&-eq-true _ _ pair in
    ((==_iff _ a).0 here, leb→le 7 _ (or_else a b _ ne far))

-- Any two version words of numbers up to 40 differ in at least 8 of their bits, and each has its
-- number as the upper six bits.
pub get_bch_type_number-distance :
    (a b : ℕ)
    → a ≤ 40
    → b ≤ 40
    → a ≢ b
    → (get_bch_type_number a / 4096 ≡ a)
      × (8 ≤ distance (get_bch_type_number a) (get_bch_type_number b))
unfolding number_pair
get_bch_type_number-distance a b ah bh ne =
    let pair =
      all_below-at 41 (number_pair a) b (all_below-at 41 _ a number_table (omega arith))
        (omega arith) in
    let (here, far) = &&-eq-true _ _ pair in
    ((==_iff _ a).0 here, leb→le 8 _ (or_else a b _ ne far))
