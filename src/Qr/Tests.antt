-- ===== src/Qr/Tests.antt =====
-- Runs of the QR code model, and its theorems at concrete inputs.
use study_tech.Base.{
  ℕ, zero, suc, ◌*◌, ◌≤◌, ◌<◌, List, [], ◌∷◌, ◌≡◌, ◌≢◌, refl, ◌↔◌, ◌⊎◌, inl, arith, Bool, true,
  false, none, some, if◌then◌else◌,
}
use study_tech.Qr.BitBuffer.{BitBuffer, new, get, put_bit, put}
use study_tech.Qr.BitBuffer.Laws.{new-IsValid, get-put_bit}
use study_tech.Qr.BitBuffer.Put.{Adds, put-Adds}
use study_tech.Qr.EightBitByte.{char_bytes, payload, parsed_data}
use study_tech.Qr.EightBitByte.Encode.{is_surrogate, utf8, char_bytes-eq-utf8_iff}
use study_tech.Qr.EightBitByte.Decode.{
  decode, utf8_text, strip_mark, decode_from, emit, no_surrogate, decode-parsed_data,
}
use study_tech.Qr.Result.{ok, err, type_error, code_length_overflow}
use study_tech.Qr.RsBlock.{RsBlock, level_l, level_h, get_rs_blocks}
use study_tech.Qr.RsBlock.Capacity.{data_of, IsFull, get_rs_blocks-IsFull}
use study_tech.Qr.TypeNumber.{
  get_length_in_bits, mode_8bit_byte, type_of_length, type_loop, replaced_length, get_utf8_length,
  get_type_number,
}
use study_tech.Qr.TypeNumber.Limits.{
  limit_at, IsSmallest, type_of_length_lem, byte_capacity, limit_at-eq-byte_capacity,
}
use study_tech.Qr.CreateData.{fill, data_bits}
use study_tech.Qr.CreateData.Padding.{IsFilled, fill-IsFilled}
use study_tech.Qr.CreateData.Encoding.{
  bytes_segment, IsEncoded, data_bits-IsEncoded, data_bits_overflow,
}
use study_tech.Qr.MakeCode.{encode_text}
use study_tech.Qr.MakeCode.Fits.{IsEncodedAt, encode_text-IsEncodedAt}
use study_tech.Qr.MakeCode.Overflow.{encode_text_overflow}

-- A text that reads as no number.
abbrev never : List ℕ → ℕ → Bool
never text n = false

-- "h", "é" and "世"
abbrev text : List ℕ
text = 0x68 ∷ 0xE9 ∷ 0x4E16 ∷ []

parsed_text : parsed_data text ≡ 239 ∷ 187 ∷ 191 ∷ 0x68 ∷ 0xC3 ∷ 0xA9 ∷ 0xE4 ∷ 0xB8 ∷ 0x96 ∷ []
unfolding parsed_data payload char_bytes
parsed_text = refl

short_text : get_type_number never text level_h ≡ ok 2
unfolding get_type_number get_utf8_length replaced_length type_of_length type_loop
short_text = refl

get-put_bit_example : get (put_bit new true) 0 ≡ true
get-put_bit_example = get-put_bit new-IsValid true 0

put-Adds_example : Adds new 0x2A5 10 (put new 0x2A5 10)
put-Adds_example = put-Adds 10 0x2A5 (omega arith) (omega arith) new-IsValid

char_bytes-eq-utf8_iff_example :
    (utf8 0x800 ≡ some (char_bytes 0x800))
    ↔ ((is_surrogate 0x800 ≡ false) × (◌≢◌ {A = ℕ} 0x800 0x80) × (◌≢◌ {A = ℕ} 0x800 0x800))
char_bytes-eq-utf8_iff_example = char_bytes-eq-utf8_iff 0x800 (omega arith)

decode-parsed_data_example :
    (utf8_text text ≡ (if no_surrogate text then some (strip_mark (parsed_data text)) else none))
    × (decode (parsed_data text) ≡ (if no_surrogate text then some text else none))
decode-parsed_data_example = decode-parsed_data text (omega arith)

-- The pair of units of U+1F600 has six bytes, in which a reader of UTF-8 finds no text.
decode_pair : decode (parsed_data (0xD83D ∷ 0xDE00 ∷ [])) ≡ none
unfolding decode strip_mark decode_from emit is_surrogate parsed_data payload char_bytes
decode_pair = refl

get_rs_blocks-IsFull_example : (bs : List RsBlock) × (get_rs_blocks 7 level_h ≡ ok bs) × IsFull 7 bs
get_rs_blocks-IsFull_example =
    get_rs_blocks-IsFull 7 level_h (omega arith) (omega arith) (omega arith) (λ e. omega arith)

type_of_length_lem_example :
    ((t : ℕ) × (type_of_length level_h 20 ≡ ok t) × IsSmallest level_h 20 t)
    ⊎ ((type_of_length level_h 20 ≡ err type_error)
        × ((t : ℕ) → 1 ≤ t → t ≤ 40 → limit_at t level_h < 20))
type_of_length_lem_example = type_of_length_lem level_h 20 (omega arith)

limit_at-eq-byte_capacity_example :
    (bits : ℕ) × (bs : List RsBlock) × (get_length_in_bits mode_8bit_byte 12 ≡ ok bits)
    × (get_rs_blocks 12 level_l ≡ ok bs)
    × (limit_at 12 level_l ≡ byte_capacity bs bits)
limit_at-eq-byte_capacity_example =
    limit_at-eq-byte_capacity 12 level_l (omega arith) (omega arith) (omega arith)
      (λ e. omega arith)

fill-IsFilled_example : (c : BitBuffer) × (fill 32 new ≡ some c) × IsFilled new 32 c
fill-IsFilled_example = fill-IsFilled 32 refl (omega arith) new-IsValid

abbrev blocks_1 : List RsBlock
blocks_1 = record { total_count = 26; data_count = 9 } ∷ []

table_1 : get_rs_blocks 1 level_h ≡ ok blocks_1
unfolding get_rs_blocks
table_1 = refl

field_1 : get_length_in_bits mode_8bit_byte 1 ≡ ok 8
unfolding get_length_in_bits
field_1 = refl

data_9 : data_of blocks_1 ≡ 9
unfolding data_of
data_9 = refl

data_bits-IsEncoded_example :
    (c : BitBuffer) × (data_bits 1 level_h (bytes_segment (1 ∷ 2 ∷ []) ∷ []) ≡ ok (some c))
    × IsEncoded 8 (1 ∷ 2 ∷ []) (data_of blocks_1 * 8) c
data_bits-IsEncoded_example =
    data_bits-IsEncoded 1 level_h (1 ∷ 2 ∷ []) table_1 field_1 (omega arith) (omega arith)
      (omega arith) (omega arith) (omega (arith, data_9))

abbrev ten : List ℕ
ten = 0 ∷ 1 ∷ 2 ∷ 3 ∷ 4 ∷ 5 ∷ 6 ∷ 7 ∷ 8 ∷ 9 ∷ []

data_bits_overflow_example :
    data_bits 1 level_h (bytes_segment ten ∷ [])
    ≡ err (code_length_overflow 92 (data_of blocks_1 * 8))
data_bits_overflow_example =
    data_bits_overflow 1 level_h ten table_1 field_1 (omega arith) (omega arith) (omega arith)
      (omega arith) (omega (arith, data_9))

encode_text-IsEncodedAt_example : IsEncodedAt 2 level_h text (encode_text never text level_h)
encode_text-IsEncodedAt_example =
    encode_text-IsEncodedAt never text level_h 2 (omega arith) (omega arith) short_text
      (λ e. omega arith) (inl refl)

abbrev letters : ℕ → List ℕ
letters = elim [ zero ↦ [] | suc (n → ih) ↦ 0x61 ∷ ih ]

encode_text_overflow_example :
    (get_type_number never (letters 200) level_h ≡ ok 15)
    × (encode_text never (letters 200) level_h ≡ err (code_length_overflow 1620 1056))
encode_text_overflow_example =
    encode_text_overflow never (letters 200) (omega arith) (omega arith) (omega arith) refl
