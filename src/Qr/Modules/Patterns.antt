-- ===== src/Qr/Modules/Patterns.antt =====
-- The function patterns: finders, alignment patterns, timing lines, format and version areas.
pub mod Set
use study_tech.Base.{
  ℕ, ◌+◌, ◌-◌, ◌/◌, ◌%◌, Bool, not, ◌==◌, ◌&&◌, ◌||◌, leb, ltb, if◌then◌else◌, true, false, List,
  bit_and, bit_or, ◌>>>◌, ◌<<◌,
}
use study_tech.Qr.Modules.{Modules, set_module, is_unset, for_below, for_each}
use study_tech.Qr.Bch.{get_bch_type_info, get_bch_type_number}

-- 0 <= r && r <= 6 && (c == 0 || c == 6) || …, with `r` and `c` one higher: they start from -1.
unfoldable pub probe_dark : ℕ → ℕ → Bool
probe_dark r c =
    (leb 1 r && leb r 7 && ((c == 1) || (c == 7)))
    || (leb 1 c && leb c 7 && ((r == 1) || (r == 7)))
    || (leb 3 r && leb r 5 && leb 3 c && leb c 5)

-- row + r <= -1 || moduleCount <= row + r
unfoldable pub outside : ℕ → ℕ → Bool
outside module_count x = (x == 0) || leb module_count (x - 1)

unfoldable pub probe_cell : ℕ → ℕ → ℕ → ℕ → ℕ → Modules → Modules
unfolding probe_dark outside
probe_cell module_count row col r c m =
    if outside module_count (col + c)
    then m
    else set_module (row + r - 1) (col + c - 1) (probe_dark r c) m

unfoldable pub probe_row : ℕ → ℕ → ℕ → ℕ → Modules → Modules
unfolding outside probe_cell for_below
probe_row module_count row col r m =
    if outside module_count (row + r) then m else for_below 9 (probe_cell module_count row col r) m

unfoldable pub setup_position_probe_pattern : ℕ → ℕ → ℕ → Modules → Modules
unfolding probe_row for_below
setup_position_probe_pattern module_count row col = for_below 9 (probe_row module_count row col)

unfoldable pub timing_cell : ℕ → ℕ → Bool → Modules → Modules
timing_cell row col dark m = if is_unset (m row col) then set_module row col dark m else m

-- The loops run from 8 to moduleCount - 9.
unfoldable pub setup_timing_pattern : ℕ → Modules → Modules
unfolding timing_cell for_below
setup_timing_pattern module_count m =
    for_below (module_count - 16) (λ k. timing_cell 6 (k + 8) ((k + 8) % 2 == 0))
      (for_below (module_count - 16) (λ k. timing_cell (k + 8) 6 ((k + 8) % 2 == 0)) m)

-- `r` and `c` are two higher: they start from -2.
unfoldable pub adjust_cell : ℕ → ℕ → ℕ → ℕ → Modules → Modules
adjust_cell row col r c =
    set_module (row + r - 2) (col + c - 2)
      ((r == 0) || (r == 4) || (c == 0) || (c == 4) || ((r == 2) && (c == 2)))

unfoldable pub adjust_at : ℕ → ℕ → Modules → Modules
unfolding adjust_cell for_below
adjust_at row col m =
    if is_unset (m row col) then for_below 5 (λ r. for_below 5 (adjust_cell row col r)) m else m

unfoldable pub setup_position_adjust_pattern : List ℕ → Modules → Modules
unfolding adjust_at for_each
setup_position_adjust_pattern pos = for_each pos (λ row. for_each pos (adjust_at row))

-- !test && ((bits >> i) & 1) == 1
unfoldable pub info_bit : Bool → ℕ → ℕ → Bool
info_bit test bits i = not test && (bit_and (bits >>> i) 1 == 1)

unfoldable pub setup_type_number : ℕ → ℕ → Bool → Modules → Modules
unfolding get_bch_type_number info_bit
setup_type_number module_count type_number test m =
    let bits = get_bch_type_number type_number in
    for_below 18 (λ i. set_module (i % 3 + module_count - 8 - 3) (i / 3) (info_bit test bits i))
      (for_below 18 (λ i. set_module (i / 3) (i % 3 + module_count - 8 - 3) (info_bit test bits i))
        m)

unfoldable pub info_vertical : ℕ → Bool → ℕ → ℕ → Modules → Modules
unfolding info_bit
info_vertical module_count test bits i =
    if ltb i 6
    then set_module i 8 (info_bit test bits i)
    else if ltb i 8
    then set_module (i + 1) 8 (info_bit test bits i)
    else set_module (module_count - 15 + i) 8 (info_bit test bits i)

unfoldable pub info_horizontal : ℕ → Bool → ℕ → ℕ → Modules → Modules
unfolding info_bit
info_horizontal module_count test bits i =
    if ltb i 8
    then set_module 8 (module_count - i - 1) (info_bit test bits i)
    else if ltb i 9
    then set_module 8 (15 - i - 1 + 1) (info_bit test bits i)
    else set_module 8 (15 - i - 1) (info_bit test bits i)

unfoldable pub setup_type_info : ℕ → ℕ → Bool → ℕ → Modules → Modules
unfolding get_bch_type_info info_vertical info_horizontal for_below
setup_type_info module_count level test mask_pattern m =
    let bits = get_bch_type_info (bit_or (level << 3) mask_pattern) in
    set_module (module_count - 8) 8 (not test) (
      for_below 15 (info_horizontal module_count test bits)
        (for_below 15 (info_vertical module_count test bits) m))
