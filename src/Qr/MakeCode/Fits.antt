-- ===== src/Qr/MakeCode/Fits.antt =====
-- A text whose type number is found is encoded, whatever the level.
use study_tech.Base.{
  ℕ, zero, suc, ◌+◌, ◌*◌, ◌^◌, ◌≤◌, ◌<◌, List, [], ◌∷◌, ◌≡◌, refl, arith, All, ◌⊎◌, Bool, true,
  false, inl, inr, leb, ltb, ◌&&◌, if◌then◌else◌, length, Option, some, all_below, all_below-at,
  &&-eq-true, leb→le, ltb→lt,
}
use study_tech.Qr.BitBuffer.{BitBuffer}
use study_tech.Qr.Result.{Result, ok, err, type_error, ◌>>=◌}
use study_tech.Qr.EightBitByte.{parsed_data}
use study_tech.Qr.EightBitByte.Decode.{all_short}
use study_tech.Qr.EightBitByte.Range.{widths, length-parsed_data, parsed_data-AreBytes}
use study_tech.Qr.RsBlock.{RsBlock, level_h, get_rs_blocks}
use study_tech.Qr.RsBlock.Capacity.{data_of}
use study_tech.Qr.TypeNumber.{
  get_type_number, get_utf8_length, type_of_length, get_length_in_bits, mode_8bit_byte,
}
use study_tech.Qr.TypeNumber.Text.{IsBasic, replaced_length_lem, basic-AreUnits}
use study_tech.Qr.TypeNumber.Limits.{
  limit_at, IsSmallest, type_of_length_lem, byte_capacity, capacity_bits, limit_at-eq-byte_capacity,
}
use study_tech.Qr.CreateData.{data_bits}
use study_tech.Qr.CreateData.Encoding.{bytes_segment, IsEncoded, data_bits-IsEncoded}
use study_tech.Qr.MakeCode.{encode_text}

-- The length field of a type has 8 or 16 bits, and counts every length up to the limit.
countable : ℕ → ℕ → Result ℕ → Bool
countable t level (ok bits) =
    leb bits 16
    && (ltb (limit_at t level) (2 ^ bits)
        && (leb 1 (limit_at t level) && ltb (limit_at t level) 0x10000))
countable t level (err _) = false

table :
    all_below 40 (λ t.
      all_below 4 (λ level. countable (suc t) level (get_length_in_bits mode_8bit_byte (suc t))))
    ≡ true
unfolding all_below countable limit_at get_length_in_bits
table = refl

count_lem :
    (t level : ℕ) {bits : ℕ}
    → 1 ≤ t
    → t ≤ 40
    → level < 4
    → get_length_in_bits mode_8bit_byte t ≡ ok bits
    → (bits ≤ 16)
      × (limit_at t level < 2 ^ bits)
      × (1 ≤ limit_at t level)
      × (limit_at t level < 0x10000)
unfolding countable
count_lem zero level lo hi l e = absurd (omega arith)
count_lem (suc t) level lo hi l e =
    let (small, below) =
      &&-eq-true _ _
        (rw (e, countable) at (all_below-at 4 _ level (all_below-at 40 _ t table hi) l)) in
    let (counts, rest) = &&-eq-true _ _ below in
    let (some_byte, word) = &&-eq-true _ _ rest in
    (leb→le _ _ small, ltb→lt _ _ counts, leb→le _ _ some_byte, ltb→lt _ _ word)

-- What the text takes is at most what _getUTF8Length says.
module _ (reads_as : List ℕ → ℕ → Bool) (text : List ℕ) (basic : All IsBasic text) where
  -- The text does not read as the number of its own bytes, or all its units are below 0x81.
  abbrev NotCounted : Type 0
  NotCounted = (reads_as text (widths text) ≡ false) ⊎ (all_short text ≡ true)

  pub utf8_length_lem :
      get_utf8_length reads_as text
      ≡ ok (widths text + (if reads_as text (widths text) then 0 else 3))
  unfolding get_utf8_length
  utf8_length_lem = rw (replaced_length_lem text basic) refl

  parsed-le :
      NotCounted
      → length (parsed_data text) ≤ widths text + (if reads_as text (widths text) then 0 else 3)
  parsed-le nc = ground (arith, length-parsed_data text (basic-AreUnits text basic))

  -- The type that _getTypeNumber finds is the smallest that holds the length.
  pub type_number-IsSmallest :
      (level t : ℕ)
      → level < 4
      → get_type_number reads_as text level ≡ ok t
      → IsSmallest level (widths text + (if reads_as text (widths text) then 0 else 3)) t
  unfolding get_type_number
  type_number-IsSmallest level t l e = chosen (type_of_length_lem level len l)
    where
      len : ℕ
      len = widths text + (if reads_as text (widths text) then 0 else 3)

      e' : type_of_length level len ≡ ok t
      e' = rw utf8_length_lem at e

      chosen :
          ((u : ℕ) × (type_of_length level len ≡ ok u) × IsSmallest level len u)
            ⊎ ((type_of_length level len ≡ err type_error)
                × ((u : ℕ) → 1 ≤ u → u ≤ 40 → limit_at u level < len))
          → IsSmallest level len t
      chosen (inl (u, eu, s)) = let same : u ≡ t = cc e' in rw same at s
      chosen (inr (eu, _)) = cc e'

-- The bits of the text at the type `t`, in `bs`, with its length in `bits` bits.
pub record IsEncodedAt (t level : ℕ) (text : List ℕ) (r : Result (Option BitBuffer)) : Type 0 where
  pub bits : ℕ
  pub blocks : List RsBlock
  pub buffer : BitBuffer
  pub field : get_length_in_bits mode_8bit_byte t ≡ ok bits
  pub table : get_rs_blocks t level ≡ ok blocks
  pub returns : r ≡ ok (some buffer)
  pub encoded : IsEncoded bits (parsed_data text) (data_of blocks * 8) buffer

-- A text without surrogates whose type number is found is encoded whole and never overflows, if the
-- type is not 15 at level H, and the text does not read as the number of its bytes or is short.
pub encode_text-IsEncodedAt :
    (reads_as : List ℕ → ℕ → Bool) (text : List ℕ) (level t : ℕ)
    → All IsBasic text
    → level < 4
    → get_type_number reads_as text level ≡ ok t
    → ¬ ((t ≡ 15) × (level ≡ level_h))
    → (reads_as text (widths text) ≡ false) ⊎ (all_short text ≡ true)
    → IsEncodedAt t level text (encode_text reads_as text level)
unfolding encode_text
encode_text-IsEncodedAt reads_as text level t basic l found ne nc =
    let s = type_number-IsSmallest reads_as text basic level t l found in
    encoded s (limit_at-eq-byte_capacity t level s.low s.high l ne)
  where
    encoded :
        IsSmallest level (widths text + (if reads_as text (widths text) then 0 else 3)) t
        → (bits : ℕ) × (bs : List RsBlock) × (get_length_in_bits mode_8bit_byte t ≡ ok bits)
          × (get_rs_blocks t level ≡ ok bs)
          × (limit_at t level ≡ byte_capacity bs bits)
        → IsEncodedAt t level text (
            get_type_number reads_as text level >>= λ t.
            data_bits t level (bytes_segment (parsed_data text) ∷ []))
    encoded s (bits, bs, field, table, cap) =
        let (small, counts, pos, word) = count_lem t level s.low s.high l field in
        let short : length (parsed_data text) ≤ limit_at t level =
          omega (arith, parsed-le reads_as text basic nc, s.holds) in
        let (c, e, is) =
          data_bits-IsEncoded t level (parsed_data text) table field (omega arith)
            (parsed_data-AreBytes text (basic-AreUnits text basic)) (omega arith) (omega arith)
            (capacity_bits bs bits (length (parsed_data text)) (rw cap at pos) (rw cap at short)) in
        record {
          bits = bits;
          blocks = bs;
          buffer = c;
          field = field;
          table = table;
          returns = rw found e;
          encoded = is;
        }
