-- ===== src/Qr/TypeNumber.antt =====
-- _getTypeNumber, _getUTF8Length and QRUtil.getLengthInBits: the smallest type that holds a text.
pub mod Table
pub mod Limits
pub mod Text
use study_tech.Base.{
  ℕ, zero, suc, ◌+◌, ◌-◌, List, [], ◌∷◌, Option, none, some, get_or, ltb, leb, ◌==◌, ◌&&◌, ◌||◌,
  if◌then◌else◌, true, false, Bool,
}
use study_tech.Qr.Result.{
  Error, bad_mode, bad_type, too_long_data, type_error, uri_error, Result, ok, err, ◌>>=◌,
}
use study_tech.Qr.RsBlock.{level_l, level_m, level_q, level_h}
use study_tech.Qr.TypeNumber.Table.{limit_length}

-- QRMode
abbrev pub mode_number : ℕ
mode_number = 1

abbrev pub mode_alpha_num : ℕ
mode_alpha_num = 2

abbrev pub mode_8bit_byte : ℕ
mode_8bit_byte = 4

abbrev pub mode_kanji : ℕ
mode_kanji = 8

-- The `switch` on the mode, with the number of bits of each.
pub by_mode : ℕ → ℕ → ℕ → ℕ → ℕ → Result ℕ
by_mode mode number alpha_num byte kanji =
    if mode == mode_number
    then ok number
    else if mode == mode_alpha_num
    then ok alpha_num
    else if mode == mode_8bit_byte
    then ok byte
    else if mode == mode_kanji
    then ok kanji
    else err (bad_mode mode)

unfoldable pub get_length_in_bits : ℕ → ℕ → Result ℕ
unfolding by_mode
get_length_in_bits mode type =
    if leb 1 type && ltb type 10
    then by_mode mode 10 9 8 8
    else if ltb type 27
    then by_mode mode 12 11 16 10
    else if ltb type 41
    then by_mode mode 14 13 16 12
    else err (bad_type type)

pub is_high : ℕ → Bool
is_high u = leb 0xD800 u && ltb u 0xDC00

pub is_low : ℕ → Bool
is_low u = leb 0xDC00 u && ltb u 0xE000

-- The UTF-8 bytes of a unit that is no surrogate.
unfoldable pub width : ℕ → ℕ
width u = if ltb u 0x80 then 1 else if ltb u 0x800 then 2 else 3

abbrev more : ℕ → Result ℕ → Result ℕ
more n r = r >>= λ m. ok (n + m)

-- `encodeURI(sText).toString().replace(/\%[0-9a-fA-F]{2}/g, 'a').length`: a character that is not
-- escaped counts once, and one that is counts once for each of its UTF-8 bytes. `encodeURI` throws
-- at a surrogate that is not one of a pair.
unfoldable pub replaced_length : List ℕ → Result ℕ
unfolding is_high is_low width
replaced_length [] = ok 0
replaced_length (u ∷ []) = if is_high u || is_low u then err uri_error else ok (width u)
replaced_length (u ∷ v ∷ r) =
    let pair = more 4 (replaced_length r) in
    let single = more (width u) (replaced_length (v ∷ r)) in
    if is_high u
    then if is_low v then pair else err uri_error
    else if is_low u
    then err uri_error
    else single

-- `replacedText.length != sText` compares a number with a text, which JavaScript reads as a number:
-- `reads_as s n` says that the text `s` reads as the number `n`.
module _ (reads_as : List ℕ → ℕ → Bool) where
  unfoldable pub get_utf8_length : List ℕ → Result ℕ
  get_utf8_length text = replaced_length text >>= λ n. ok (n + (if reads_as text n then 0 else 3))

-- `nLimit` at one row; it stays 0 at a level that is none of the four.
pub limit : List ℕ → ℕ → ℕ
limit row level =
    if level == level_l
    then get_or row 0 0
    else if level == level_m
    then get_or row 1 0
    else if level == level_q
    then get_or row 2 0
    else if level == level_h
    then get_or row 3 0
    else 0

abbrev is_level : ℕ → Bool
is_level level = ltb level 4

-- The loop over `i`, which goes one index past the table: there a level reads a property of
-- `undefined`, and no level leaves `nLimit` at 0.
unfoldable pub type_loop : ℕ → ℕ → List (List ℕ) → ℕ → Result ℕ
unfolding limit
type_loop level len [] n_type =
    if is_level level then err type_error else if leb len 0 then ok n_type else ok (n_type + 1)
type_loop level len (row ∷ rows) n_type =
    let rest = type_loop level len rows (n_type + 1) in
    if leb len (limit row level) then ok n_type else rest

unfoldable pub type_of_length : ℕ → ℕ → Result ℕ
type_of_length level len = type_loop level len limit_length 1 >>= λ n_type.
    if ltb 40 n_type then err too_long_data else ok n_type

module _ (reads_as : List ℕ → ℕ → Bool) where
  unfoldable pub get_type_number : List ℕ → ℕ → Result ℕ
  get_type_number text level = get_utf8_length reads_as text >>= type_of_length level
