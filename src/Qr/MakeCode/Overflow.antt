-- ===== src/Qr/MakeCode/Overflow.antt =====
-- Type 15 at level H: the limit table promises 220 bytes, and the block table has room for 129.
use study_tech.Base.{
  ℕ, ◌+◌, ◌*◌, ◌≤◌, ◌<◌, List, [], ◌∷◌, ◌≡◌, refl, ◌∙◌, arith, All, ◌⊎◌, Bool, true, false, inl,
  inr, leb, ltb, length, all_below, all_below-at, leb→le, ltb→lt, Bool-cases,
}
use study_tech.Qr.Result.{ok, err, type_error, code_length_overflow}
use study_tech.Qr.EightBitByte.{parsed_data}
use study_tech.Qr.EightBitByte.Decode.{all_short, parsed_data_lem}
use study_tech.Qr.EightBitByte.Range.{widths, AreBytes}
use study_tech.Qr.RsBlock.{RsBlock, level_h, get_rs_blocks}
use study_tech.Qr.RsBlock.Capacity.{data_of}
use study_tech.Qr.TypeNumber.{
  get_type_number, get_utf8_length, type_of_length, get_length_in_bits, mode_8bit_byte,
}
use study_tech.Qr.TypeNumber.Text.{IsBasic, basic-AreUnits}
use study_tech.Qr.TypeNumber.Limits.{limit_at, IsSmallest, type_of_length_lem}
use study_tech.Qr.CreateData.{data_bits}
use study_tech.Qr.CreateData.Encoding.{bytes_segment, data_bits_overflow}
use study_tech.Qr.MakeCode.{encode_text}
use study_tech.Qr.MakeCode.Fits.{utf8_length_lem}

abbrev pub AreAscii : List ℕ → Type 0
AreAscii text = All (λ u. u < 0x80) text

-- An ASCII text is its own UTF-8 form and its own `parsedData`.
record IsPlainText (text : List ℕ) : Type 0 where
  basic : All IsBasic text
  bytes : AreBytes text
  same : widths text ≡ length text
  short : all_short text ≡ true

ascii-IsPlainText : (text : List ℕ) → AreAscii text → IsPlainText text
unfolding widths all_short
ascii-IsPlainText [] h = record { basic = tt; bytes = tt; same = refl; short = refl }
ascii-IsPlainText (u ∷ us) (lt, h) =
    let rest = ascii-IsPlainText us h in
    record {
      basic = ((omega arith, inl (omega arith)), rest.basic);
      bytes = (omega arith, rest.bytes);
      same = ground (arith, rest.same);
      short = ground (arith, rest.short);
    }

below_15 : all_below 15 (λ t. leb (limit_at t level_h) 194) ≡ true
unfolding all_below limit_at
below_15 = refl

at_15 : limit_at 15 level_h ≡ 220
unfolding limit_at
at_15 = refl

type_15 : (len : ℕ) → 194 < len → len ≤ 220 → type_of_length level_h len ≡ ok 15
type_15 len lo hi = chosen (type_of_length_lem level_h len (omega arith))
  where
    chosen :
        ((t : ℕ) × (type_of_length level_h len ≡ ok t) × IsSmallest level_h len t)
          ⊎ ((type_of_length level_h len ≡ err type_error)
              × ((t : ℕ) → 1 ≤ t → t ≤ 40 → limit_at t level_h < len))
        → type_of_length level_h len ≡ ok 15
    chosen (inl (t, e, s)) = elim (Bool-cases (ltb t 15)) [
      | inl low ↦
          let small =
            all_below-at 15 (λ k. leb (limit_at k level_h) 194) t below_15 (ltb→lt _ _ low) in
          absurd (omega (arith, leb→le _ _ small, s.holds))
      | inr high ↦ elim (Bool-cases (ltb 15 t)) [
        | inl over ↦ absurd (omega (arith, s.least 15 (omega arith) (ltb→lt _ _ over), at_15))
        | inr exact ↦ let same : t ≡ 15 = ground arith in rw same at e
      ]
    ]
    chosen (inr (e, f)) = absurd (omega (arith, f 15 (omega arith) (omega arith), at_15))

abbrev block_15 : RsBlock
block_15 = record { total_count = 36; data_count = 12 }

abbrev blocks_15 : List RsBlock
blocks_15 =
    block_15 ∷ block_15 ∷ block_15 ∷ block_15 ∷ block_15 ∷ block_15 ∷ block_15 ∷ block_15 ∷ block_15
    ∷ block_15 ∷ block_15 ∷ []

data_132 : data_of blocks_15 ≡ 132
unfolding data_of
data_132 = refl

table_15 : get_rs_blocks 15 level_h ≡ ok blocks_15
unfolding get_rs_blocks
table_15 = refl

field_15 : get_length_in_bits mode_8bit_byte 15 ≡ ok 16
unfolding get_length_in_bits
field_15 = refl

-- Every ASCII text of 192 to 217 characters at level H, the level that the blog's pages use, ends
-- in the overflow error, though _getTypeNumber finds it a type; the texts that read as the number
-- of their own bytes are left out.
pub encode_text_overflow :
    (reads_as : List ℕ → ℕ → Bool) (text : List ℕ)
    → AreAscii text
    → 192 ≤ length text
    → length text ≤ 217
    → reads_as text (length text) ≡ false
    → (get_type_number reads_as text level_h ≡ ok 15)
      × (encode_text reads_as text level_h ≡ err (code_length_overflow (20 + 8 * length text) 1056))
unfolding encode_text get_type_number
encode_text_overflow reads_as text ascii lo hi not_number = (found, rw found thrown)
  where
    plain : IsPlainText text
    plain = ascii-IsPlainText text ascii

    utf8_length : get_utf8_length reads_as text ≡ ok (length text + 3)
    utf8_length = utf8_length_lem reads_as text plain.basic ∙ (rw (plain.same, not_number) refl)

    same_text : parsed_data text ≡ text
    same_text = parsed_data_lem text (basic-AreUnits text plain.basic) ∙ (rw plain.short refl)

    thrown :
        data_bits 15 level_h (bytes_segment (parsed_data text) ∷ [])
        ≡ err (code_length_overflow (20 + 8 * length text) 1056)
    thrown = rw same_text (
        data_bits_overflow 15 level_h text {bits = 16} {bs = blocks_15} table_15 field_15
          (omega arith) plain.bytes (omega arith) (omega arith) (rw data_132 (omega arith))
        ∙ (rw data_132 refl))

    found : get_type_number reads_as text level_h ≡ ok 15
    found = rw utf8_length (type_15 (length text + 3) (omega arith) (omega arith))
