-- ===== src/Qr/BitBuffer.antt =====
-- QRBitBuffer (static/lib/qrcode/qrcode.js): bits packed into bytes, the highest bit first.
pub mod Byte
pub mod Laws
pub mod Put
use study_tech.Base.{
  ℕ, zero, suc, ◌+◌, ◌-◌, ◌/◌, ◌%◌, ◌^◌, bit_and, bit_or, Bool, false, true, List, [], ◌∷◌, ◌++◌,
  get_or, set, leb, ◌==◌, if◌then◌else◌, ◌>>>◌,
}
use study_tech.Base.Lists

-- `this.length` counts bits, and `this.buffer` holds bytes.
pub record BitBuffer : Type 0 where
  pub buffer : List ℕ
  pub length : ℕ

abbrev pub new : BitBuffer
new = record { buffer = []; length = 0 }

-- An element that is not there is `undefined`, which `>>>` reads as 0.
pub get : BitBuffer → ℕ → Bool
get b index = bit_and (get_or b.buffer (index / 8) 0 >>> (7 - index % 8)) 1 == 1

pub grow : List ℕ → ℕ → List ℕ
grow buffer buf_index = if leb (Lists.length buffer) buf_index then buffer ++ 0 ∷ [] else buffer

pub put_bit : BitBuffer → Bool → BitBuffer
unfolding grow
put_bit b bit =
    let buf_index = b.length / 8 in
    let grown = grow b.buffer buf_index in
    let buffer =
      if bit
      then set grown buf_index (bit_or (get_or grown buf_index 0) (0x80 >>> (b.length % 8)))
      else grown in
    record { buffer = buffer; length = b.length + 1 }

-- The loop of `put` with `left` rounds to go: `length - i - 1` is `left - 1`.
pub put : BitBuffer → ℕ → ℕ → BitBuffer
put b num zero = b
put b num (suc left) = put (put_bit b (bit_and (num >>> left) 1 == 1)) num left
