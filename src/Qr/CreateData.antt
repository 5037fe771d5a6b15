-- ===== src/Qr/CreateData.antt =====
-- QRCodeModel.createData up to its call of createBytes: the bits of the data, padded to fill the
-- data codewords.
pub mod Bytes
pub mod Padding
pub mod Encoding
use study_tech.Base.{
  ℕ, zero, suc, ◌+◌, ◌*◌, ◌%◌, List, [], ◌∷◌, Option, none, some, length, ltb, leb, ◌==◌,
  if◌then◌else◌, true, false,
}
use study_tech.Qr.BitBuffer.{BitBuffer, new, put_bit, put}
use study_tech.Qr.Result.{Result, ok, err, code_length_overflow, type_error, ◌>>=◌}
use study_tech.Qr.RsBlock.{RsBlock, get_rs_blocks}
use study_tech.Qr.RsBlock.Capacity.{data_of}
use study_tech.Qr.TypeNumber.{get_length_in_bits}

-- A QR8bitByte, as `createData` reads it.
pub record Segment : Type 0 where
  pub mode : ℕ
  pub parsed : List ℕ

-- QR8bitByte.write
pub write : List ℕ → BitBuffer → BitBuffer
write [] b = b
write (x ∷ xs) b = write xs (put b x 8)

-- The loop over `dataList`.
pub add_all : ℕ → List Segment → BitBuffer → Result BitBuffer
unfolding write
add_all type [] b = ok b
add_all type (s ∷ rest) b = get_length_in_bits s.mode type >>= λ bits.
    add_all type rest (write s.parsed (put (put b s.mode 4) (length s.parsed) bits))

-- while (buffer.getLengthInBits() % 8 != 0) buffer.putBit(false)
pub align : ℕ → BitBuffer → Option BitBuffer
align zero b = none
align (suc fuel) b =
    let rest = align fuel (put_bit b false) in if b.length % 8 == 0 then some b else rest

-- while (true) { … }, which puts PAD0 and PAD1 in turn until `capacity` bits are there.
pub pad : ℕ → ℕ → BitBuffer → Option BitBuffer
pad zero capacity b = none
pad (suc fuel) capacity b =
    let once = put b 0xEC 8 in
    let rest = pad fuel capacity (put once 0x11 8) in
    if leb capacity b.length then some b else if leb capacity once.length then some once else rest

-- The terminator, if it fits.
pub terminate : ℕ → BitBuffer → BitBuffer
terminate capacity b = if leb (b.length + 4) capacity then put b 0 4 else b

pub pad_aligned : ℕ → Option BitBuffer → Option BitBuffer
pad_aligned capacity none = none
pad_aligned capacity (some aligned) = pad (capacity + 1) capacity aligned

-- The terminator and the two loops; the fuel is above the number of rounds.
pub fill : ℕ → BitBuffer → Option BitBuffer
fill capacity b = pad_aligned capacity (align 8 (terminate capacity b))

-- `none` stands for loops that do not end.
pub data_bits : ℕ → ℕ → List Segment → Result (Option BitBuffer)
data_bits type level list = get_rs_blocks type level >>= λ blocks. add_all type list new >>= λ b.
    let capacity = data_of blocks * 8 in
    if ltb capacity b.length
    then err (code_length_overflow b.length capacity)
    else ok (fill capacity b)
