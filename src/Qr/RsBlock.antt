-- ===== src/Qr/RsBlock.antt =====
-- QRRSBlock, and QRErrorCorrectLevel: how a type number and a level split the codewords in blocks.
pub mod Table
pub mod Capacity
use study_tech.Base.{
  ℕ, zero, suc, ◌+◌, ◌-◌, ◌*◌, List, [], ◌∷◌, ◌++◌, Option, none, some, get_elem?, ◌==◌,
  if◌then◌else◌, true, false,
}
use study_tech.Qr.Result.{Error, bad_rs_block, Result, ok, err}
use study_tech.Qr.RsBlock.Table.{rs_block_table}

-- QRErrorCorrectLevel
abbrev pub level_l : ℕ
level_l = 1

abbrev pub level_m : ℕ
level_m = 0

abbrev pub level_q : ℕ
level_q = 3

abbrev pub level_h : ℕ
level_h = 2

pub record RsBlock : Type 0 where
  pub total_count : ℕ
  pub data_count : ℕ

-- `RS_BLOCK_TABLE[(typeNumber - 1) * 4 + k]`; at type 0 the index is negative.
pub row_at : ℕ → ℕ → Option (List ℕ)
row_at zero k = none
row_at (suc n) k = get_elem? rs_block_table (n * 4 + k)

pub get_rs_block_table : ℕ → ℕ → Option (List ℕ)
unfolding row_at
get_rs_block_table type_number level =
    if level == level_l
    then row_at type_number 0
    else if level == level_m
    then row_at type_number 1
    else if level == level_q
    then row_at type_number 2
    else if level == level_h
    then row_at type_number 3
    else none

-- `count` pushes of the same block, in front of `list`.
unfoldable pub push_blocks : ℕ → RsBlock → List RsBlock → List RsBlock
push_blocks zero b list = list
push_blocks (suc n) b list = b ∷ push_blocks n b list

-- The loop over the triples of a row; every row of the table is a sequence of triples.
pub expand : List ℕ → List RsBlock
unfolding push_blocks
expand (count ∷ total ∷ dat ∷ rest) =
    push_blocks count (record { total_count = total; data_count = dat }) (expand rest)
expand _ = []

unfoldable pub get_rs_blocks : ℕ → ℕ → Result (List RsBlock)
unfolding get_rs_block_table expand
get_rs_blocks type_number level = elim (get_rs_block_table type_number level) [
  | none ↦ err (bad_rs_block type_number level)
  | some row ↦ ok (expand row)
]
