-- ===== src/Qr/SymbolTests.antt =====
-- Runs of the code that makes the symbol, and its theorems at concrete inputs.
use study_tech.Base.{
  ℕ, zero, suc, ◌+◌, ◌/◌, ◌≤◌, List, [], ◌∷◌, All, ◌≡◌, refl, inl, arith, Bool, true, false, Option,
  some, bit_xor, map,
}
use study_tech.Qr.BitBuffer.{BitBuffer}
use study_tech.Qr.Result.{Result, ok}
use study_tech.Qr.RsBlock.{RsBlock, level_h, level_m}
use study_tech.Qr.RsBlock.Capacity.{total_of}
use study_tech.Qr.TypeNumber.{
  replaced_length, type_of_length, type_loop, get_utf8_length, get_type_number,
}
use study_tech.Qr.MakeCode.{encode_text, make_code}
use study_tech.Qr.MakeCode.Whole.{IsCode, make_code-IsCode}
use study_tech.Qr.Field.Product.{product, by_logs, by_logs-eq-product}
use study_tech.Qr.Bch.{get_bch_type_info, get_bch_type_number, g15_mask}
use study_tech.Qr.Bch.Distance.{distance, get_bch_type_info-distance}
use study_tech.Qr.Polynomial.{Polynomial, get_error_correct_polynomial}
use study_tech.Qr.Polynomial.Generator.{IsGenerator, get_error_correct_polynomial-IsGenerator}
use study_tech.Qr.Field.{octet}
use study_tech.Qr.Polynomial.Subtract.{IsByte}
use study_tech.Qr.CreateBytes.Words.{AreWords}
use study_tech.Qr.CreateBytes.Placed.{ArePlaced, create_bytes-ArePlaced}
use study_tech.Qr.CreateBytes.{Block, block_of, create_bytes}
use study_tech.Qr.CreateBytes.Codeword.{IsCodeword, block_of-IsCodeword}
use study_tech.Qr.CreateBytes.Laid.{AreCodewords, create_bytes-AreCodewords}
use study_tech.Qr.Modules.{Modules, blank, set_module, for_below}
use study_tech.Qr.MakeImpl.{QrCodeModel, cached, make_impl, make}
use study_tech.Qr.MakeImpl.Made.{IsMade, make-IsMade}

abbrev no_number : List ℕ → ℕ → Bool
no_number text n = false

-- "h", "é" and "世"
abbrev letters : List ℕ
letters = 0x68 ∷ 0xE9 ∷ 0x4E16 ∷ []

letters_type : get_type_number no_number letters level_h ≡ ok 2
unfolding get_type_number get_utf8_length replaced_length type_of_length type_loop
letters_type = refl

make_code-IsCode_example :
    IsCode 2 level_h letters
      (encode_text no_number letters level_h)
      (make_code no_number letters level_h)
make_code-IsCode_example =
    make_code-IsCode no_number letters level_h 2 (omega arith) (omega arith) letters_type
      (λ e. omega arith) (inl refl)

by_logs-eq-product_example : by_logs 0x53 0xCA ≡ ok (some (product 0x53 0xCA))
by_logs-eq-product_example =
    by_logs-eq-product 0x53 0xCA (omega arith) (omega arith) (omega arith) (omega arith)

get_bch_type_info-distance_example :
    (bit_xor (get_bch_type_info 12) g15_mask / 1024 ≡ 12)
    × (7 ≤ distance (get_bch_type_info 12) (get_bch_type_info 13))
get_bch_type_info-distance_example =
    get_bch_type_info-distance 12 13 (omega arith) (omega arith) (λ e. omega arith)

-- The format of level L with mask 4, and the version of type 7.
format_l4 : get_bch_type_info 12 ≡ 0x662F
unfolding get_bch_type_info
format_l4 = refl

version_7 : get_bch_type_number 7 ≡ 0x07C94
unfolding get_bch_type_number
version_7 = refl

get_error_correct_polynomial-IsGenerator_example :
    (g : Polynomial) × (get_error_correct_polynomial 10 ≡ ok g) × IsGenerator 10 g
get_error_correct_polynomial-IsGenerator_example =
    get_error_correct_polynomial-IsGenerator 10 (omega arith)

abbrev one_block : List RsBlock
one_block = record { total_count = 26; data_count = 16 } ∷ []

-- "HELLO WORLD" at type 1 and level M
abbrev hello : BitBuffer
hello = record {
  buffer =
      32 ∷ 91 ∷ 11 ∷ 120 ∷ 209 ∷ 114 ∷ 220 ∷ 77 ∷ 67 ∷ 64 ∷ 236 ∷ 17 ∷ 236 ∷ 17 ∷ 236 ∷ 17 ∷ [];
  length = 128;
}

abbrev hello_codewords : Polynomial
hello_codewords = map some (
    32 ∷ 91 ∷ 11 ∷ 120 ∷ 209 ∷ 114 ∷ 220 ∷ 77 ∷ 67 ∷ 64 ∷ 236 ∷ 17 ∷ 236 ∷ 17 ∷ 236 ∷ 17 ∷ 196 ∷ 35
    ∷ 39 ∷ 119 ∷ 235 ∷ 215 ∷ 231 ∷ 226 ∷ 93 ∷ 23 ∷ [])

hello_bytes : create_bytes hello one_block ≡ ok (some hello_codewords)
unfolding create_bytes total_of
hello_bytes = refl

create_bytes-AreCodewords_example :
    (codewords : Polynomial) × (create_bytes hello one_block ≡ ok (some codewords))
    × AreCodewords (total_of one_block) codewords
create_bytes-AreCodewords_example =
    create_bytes-AreCodewords hello one_block ((omega arith, omega arith), tt)

create_bytes-ArePlaced_example :
    (bs : List Block) × (codewords : Polynomial) × AreWords hello.buffer 0 one_block bs
    × (create_bytes hello one_block ≡ ok (some codewords))
    × ArePlaced bs codewords
create_bytes-ArePlaced_example =
    create_bytes-ArePlaced hello one_block ((omega arith, omega arith), tt)

abbrev hello_model : QrCodeModel
hello_model = record {
  type_number = 1;
  error_correct_level = level_m;
  modules = blank;
  module_count = 0;
  data_cache = some hello_codewords;
  data_list = [];
}

hello_cached : cached hello_model hello_model.data_cache ≡ ok (some hello_codewords)
unfolding cached
hello_cached = refl

make-IsMade_example : IsMade hello_codewords hello_model (make hello_model)
make-IsMade_example =
    make-IsMade hello_model hello_codewords (omega arith) (omega arith) hello_cached

abbrev zero_led : Polynomial
zero_led = map some (0 ∷ 0 ∷ 7 ∷ [])

zero_led-IsByte : All IsByte zero_led
unfolding octet
zero_led-IsByte = (omega arith, (omega arith, (omega arith, tt)))

block_of-IsCodeword_example :
    (b : Block) × (block_of zero_led 7 ≡ ok (some b)) × IsCodeword zero_led 7 b
block_of-IsCodeword_example = block_of-IsCodeword zero_led 7 (omega arith) zero_led-IsByte

-- A row of the symbol, as makeImpl leaves it.
abbrev row_from : ℕ → ℕ → ℕ → Modules → List (Option Bool)
row_from zero row col m = []
row_from (suc left) row col m = m row col ∷ row_from left row (col + 1) m

abbrev modules_of : Result (Option QrCodeModel) → Modules
modules_of (ok (some q)) = q.modules
modules_of _ = blank

abbrev hello_modules : Modules
hello_modules = modules_of (make_impl false 0 hello_model)

row_0 :
    row_from 21 0 0 hello_modules
    ≡ map some (
        true ∷ true ∷ true ∷ true ∷ true ∷ true ∷ true ∷ false ∷ false ∷ false ∷ true ∷ false ∷ true
        ∷ false ∷ true ∷ true ∷ true ∷ true ∷ true ∷ true ∷ true ∷ [])
unfolding make_impl set_module for_below
row_0 = refl

row_8 :
    row_from 21 8 0 hello_modules
    ≡ map some (
        true ∷ false ∷ true ∷ false ∷ true ∷ false ∷ true ∷ false ∷ false ∷ true ∷ false ∷ false
        ∷ true ∷ false ∷ false ∷ false ∷ true ∷ false ∷ false ∷ true ∷ false ∷ [])
unfolding make_impl set_module for_below
row_8 = refl

row_12 :
    row_from 21 12 0 hello_modules
    ≡ map some (
        false ∷ true ∷ false ∷ false ∷ true ∷ true ∷ true ∷ true ∷ false ∷ true ∷ false ∷ true
        ∷ false ∷ false ∷ true ∷ true ∷ true ∷ false ∷ true ∷ false ∷ true ∷ [])
unfolding make_impl set_module for_below
row_12 = refl
