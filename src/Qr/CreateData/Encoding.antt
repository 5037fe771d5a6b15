-- ===== src/Qr/CreateData/Encoding.antt =====
-- What createData's bits say for one segment of bytes, on each of its branches.
use mathlib.Core.Path.{subst}
use native.Mathlib.Nat.{mod-eq_of_lt}
use study_tech.Base.{
  ℕ, ◌+◌, ◌-◌, ◌*◌, ◌/◌, ◌%◌, ◌^◌, ◌≤◌, ◌<◌, List, [], ◌∷◌, ◌≡◌, ◌∙◌, arith, length, All, some, ltb,
  true, false,
}
use study_tech.Qr.BitBuffer.{BitBuffer, new, get, put}
use study_tech.Qr.BitBuffer.Laws.{IsValid, new-IsValid}
use study_tech.Qr.BitBuffer.Put.{read, Extends, Extends-trans, read-Extends, Adds, put-Adds}
use study_tech.Qr.Result.{ok, err, code_length_overflow}
use study_tech.Qr.RsBlock.{RsBlock, get_rs_blocks}
use study_tech.Qr.RsBlock.Capacity.{data_of}
use study_tech.Qr.TypeNumber.{get_length_in_bits, mode_8bit_byte}
use study_tech.Qr.CreateData.{Segment, write, add_all, data_bits}
use study_tech.Qr.CreateData.Bytes.{Holds, Holds-Extends, AddsBytes, write-AddsBytes}
use study_tech.Qr.CreateData.Padding.{pads, IsFilled, fill-IsFilled}

-- The segment of a QR8bitByte.
abbrev pub bytes_segment : List ℕ → Segment
bytes_segment xs = record { mode = mode_8bit_byte; parsed = xs }

-- The bits of `c` are the mode, a length of `bits` bits, the bytes `xs`, zero bits up to a byte, and
-- PAD0 and PAD1 in turn, `capacity` bits in all.
pub record IsEncoded (bits : ℕ) (xs : List ℕ) (capacity : ℕ) (c : BitBuffer) : Type 0 where
  pub valid : IsValid c
  pub full : c.length ≡ capacity
  pub mode : read c 0 4 ≡ mode_8bit_byte
  pub count : read c 4 bits ≡ length xs
  pub held : Holds c (4 + bits) xs
  pub first : ℕ
  pub below :
      (4 + bits + 8 * length xs ≤ first)
      × (first ≤ capacity)
      × (first < 4 + bits + 8 * length xs + 12)
      × (first % 8 ≡ 0)
  pub zeros : (i : ℕ) → 4 + bits + 8 * length xs ≤ i → i < first → get c i ≡ false
  pub padded : Holds c first (pads ((capacity - first) / 8))

abbrev header : List ℕ → ℕ → BitBuffer
header xs bits = put (put new mode_8bit_byte 4) (length xs) bits

module _ (xs : List ℕ) (bits : ℕ) (small : bits ≤ 32) (bytes : All (λ x. x < 256) xs)
    (countable : length xs < 2 ^ bits) (word : length xs < 2 ^ 32) where
  mode_lem : Adds new mode_8bit_byte 4 (put new mode_8bit_byte 4)
  mode_lem = put-Adds 4 mode_8bit_byte (omega arith) (omega arith) new-IsValid

  count_lem : Adds (put new mode_8bit_byte 4) (length xs) bits (header xs bits)
  count_lem = put-Adds bits (length xs) word small mode_lem.extends.valid

  body_lem : AddsBytes (header xs bits) xs (write xs (header xs bits))
  body_lem = write-AddsBytes xs bytes count_lem.extends.valid

  length-body : (write xs (header xs bits)).length ≡ 4 + bits + 8 * length xs
  length-body = omega (arith, body_lem.added, count_lem.added, mode_lem.added)

  IsEncoded-filled :
      {capacity : ℕ} {c : BitBuffer}
      → IsFilled (write xs (header xs bits)) capacity c
      → IsEncoded bits xs capacity c
  IsEncoded-filled {capacity} {c} f = record {
    valid = f.extends.valid;
    full = f.full;
    mode =
        read-Extends (Extends-trans count_lem.extends to_end) 0 4 (omega (arith, mode_lem.added))
        ∙ mode_lem.number;
    count =
        read-Extends to_end 4 bits (omega (arith, count_lem.added, mode_lem.added))
        ∙ subst (λ k. read (header xs bits) k bits ≡ length xs % 2 ^ bits) mode_lem.added
            count_lem.number
        ∙ mod-eq_of_lt countable;
    held = rw (← header_end) (
        Holds-Extends f.extends (header xs bits).length xs (omega (arith, body_lem.added))
          body_lem.held);
    first = f.first;
    below = omega (arith, f.below, length-body);
    zeros = λ i lo hi. f.zeros i (omega (arith, length-body)) hi;
    padded = f.padded;
  }
    where
      to_end : Extends (header xs bits) c
      to_end = Extends-trans body_lem.extends f.extends

      header_end : (header xs bits).length ≡ 4 + bits
      header_end = omega (arith, count_lem.added, mode_lem.added)

-- At a type and level whose blocks hold the segment, its bits fill the data codewords and encode it.
pub data_bits-IsEncoded :
    (type level : ℕ) (xs : List ℕ) {bits : ℕ} {bs : List RsBlock}
    → get_rs_blocks type level ≡ ok bs
    → get_length_in_bits mode_8bit_byte type ≡ ok bits
    → bits ≤ 32
    → All (λ x. x < 256) xs
    → length xs < 2 ^ bits
    → length xs < 2 ^ 32
    → 4 + bits + 8 * length xs ≤ data_of bs * 8
    → (c : BitBuffer) × (data_bits type level (bytes_segment xs ∷ []) ≡ ok (some c))
      × IsEncoded bits xs (data_of bs * 8) c
unfolding data_bits add_all
data_bits-IsEncoded type level xs {bits} {bs} table field small bytes countable word fits =
    let len = length-body xs bits small bytes countable word in
    let room : ltb (data_of bs * 8) (write xs (header xs bits)).length ≡ false =
      ground (arith, len) in
    let (c, e, filled) =
      fill-IsFilled (data_of bs * 8) {b = write xs (header xs bits)} (omega arith)
        (omega (arith, len)) (body_lem xs bits small bytes countable word).extends.valid in
    (c, rw (table, field, room, e), IsEncoded-filled xs bits small bytes countable word filled)

-- Where the segment does not fit, the overflow is thrown with both lengths.
pub data_bits_overflow :
    (type level : ℕ) (xs : List ℕ) {bits : ℕ} {bs : List RsBlock}
    → get_rs_blocks type level ≡ ok bs
    → get_length_in_bits mode_8bit_byte type ≡ ok bits
    → bits ≤ 32
    → All (λ x. x < 256) xs
    → length xs < 2 ^ bits
    → length xs < 2 ^ 32
    → data_of bs * 8 < 4 + bits + 8 * length xs
    → data_bits type level (bytes_segment xs ∷ [])
      ≡ err (code_length_overflow (4 + bits + 8 * length xs) (data_of bs * 8))
unfolding data_bits add_all
data_bits_overflow type level xs {bits} {bs} table field small bytes countable word over =
    let len = length-body xs bits small bytes countable word in
    let full : ltb (data_of bs * 8) (write xs (header xs bits)).length ≡ true =
      ground (arith, len) in
    rw (table, field, full, len)
