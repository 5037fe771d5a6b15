-- ===== src/Qr/MapData.antt =====
-- QRUtil.getMask, and QRCodeModel.mapData: the codewords on the modules that are free.
pub mod Round
pub mod Sweep
pub mod Full
use study_tech.Base.{
  ℕ, zero, suc, ◌+◌, ◌-◌, ◌*◌, ◌/◌, ◌%◌, Bool, true, false, not, ◌&&◌, ◌||◌, ◌==◌, leb, ltb,
  if◌then◌else◌, List, Option, none, some, length, get_or, bit_and, ◌>>>◌,
}
use study_tech.Qr.Result.{Result, ok, err, bad_mask_pattern}
use study_tech.Qr.Field.{octet}
use study_tech.Qr.Modules.{Modules, set_module, is_unset}

-- The `switch` of getMask, as a function of `i` and `j`; the patterns are QRMaskPattern's.
unfoldable pub get_mask : ℕ → Result (ℕ → ℕ → Bool)
get_mask pattern =
    if pattern == 0
    then ok (λ i j. (i + j) % 2 == 0)
    else if pattern == 1
    then ok (λ i j. i % 2 == 0)
    else if pattern == 2
    then ok (λ i j. j % 3 == 0)
    else if pattern == 3
    then ok (λ i j. (i + j) % 3 == 0)
    else if pattern == 4
    then ok (λ i j. (i / 2 + j / 3) % 2 == 0)
    else if pattern == 5
    then ok (λ i j. i * j % 2 + i * j % 3 == 0)
    else if pattern == 6
    then ok (λ i j. (i * j % 2 + i * j % 3) % 2 == 0)
    else if pattern == 7
    then ok (λ i j. (i * j % 3 + (i + j) % 2) % 2 == 0)
    else err (bad_mask_pattern pattern)

-- The variables of mapData; `up` is inc == -1.
pub record Walk : Type 0 where
  pub modules : Modules
  pub row : ℕ
  pub up : Bool
  pub bit_index : ℕ
  pub byte_index : ℕ

-- The codewords, the mask, and the number of rows and columns.
module _ (codewords : List (Option ℕ)) (mask : ℕ → ℕ → Bool) (module_count : ℕ) where
  unfoldable pub dark_at : ℕ → ℕ → Bool
  unfolding octet
  dark_at byte_index bit_index =
      ltb byte_index (length codewords)
      && (bit_and (octet (get_or codewords byte_index none) >>> bit_index) 1 == 1)

  -- bitIndex--; if (bitIndex == -1) { byteIndex++; bitIndex = 7 }
  unfoldable pub next_bit : Walk → Walk
  next_bit w =
      if w.bit_index == 0
      then record {
        modules = w.modules;
        row = w.row;
        up = w.up;
        bit_index = 7;
        byte_index = w.byte_index + 1;
      }
      else record {
        modules = w.modules;
        row = w.row;
        up = w.up;
        bit_index = w.bit_index - 1;
        byte_index = w.byte_index;
      }

  unfoldable pub put_module : ℕ → Walk → Walk
  unfolding dark_at set_module
  put_module col w =
      let dark = dark_at w.byte_index w.bit_index in
      record {
        modules = set_module w.row col (if mask w.row col then not dark else dark) w.modules;
        row = w.row;
        up = w.up;
        bit_index = w.bit_index;
        byte_index = w.byte_index;
      }

  -- The body of the loop over `c`.
  unfoldable pub map_cell : ℕ → Walk → Walk
  unfolding next_bit put_module
  map_cell col w = if is_unset (w.modules w.row col) then next_bit (put_module col w) else w

  -- row += inc
  unfoldable pub move : Walk → Walk
  move w = record {
    modules = w.modules;
    row = if w.up then w.row - 1 else w.row + 1;
    up = w.up;
    bit_index = w.bit_index;
    byte_index = w.byte_index;
  }

  -- row -= inc; inc = -inc, after the move that left the square.
  unfoldable pub turn : Walk → Walk
  turn w = record {
    modules = w.modules;
    row = w.row;
    up = not w.up;
    bit_index = w.bit_index;
    byte_index = w.byte_index;
  }

  -- row + inc < 0 || moduleCount <= row + inc
  unfoldable pub leaves : Walk → Bool
  leaves w = if w.up then w.row == 0 else leb module_count (w.row + 1)

  -- while (true) { … }
  unfoldable pub sweep : ℕ → ℕ → Walk → Walk
  unfolding map_cell move turn leaves
  sweep zero col w = w
  sweep (suc fuel) col w =
      let both = map_cell (col - 1) (map_cell col w) in
      let rest = sweep fuel col (move both) in if leaves both then turn both else rest

  -- if (col == 6) col--
  unfoldable pub skip_timing : ℕ → ℕ
  skip_timing col = if col == 6 then 5 else col

  -- for (col = …; col > 0; col -= 2)
  unfoldable pub columns : ℕ → ℕ → Walk → Walk
  unfolding sweep skip_timing
  columns zero col w = w
  columns (suc fuel) zero w = w
  columns (suc fuel) (suc c) w =
      let col = skip_timing (suc c) in columns fuel (col - 2) (sweep module_count col w)

  unfoldable pub start : Modules → Walk
  start m = record { modules = m; row = module_count - 1; up = true; bit_index = 7; byte_index = 0 }

  -- A sweep has a round for each row, and `col` gets less.
  unfoldable pub map_data : Modules → Modules
  unfolding columns start
  map_data m = (columns module_count (module_count - 1) (start m)).modules
