-- ===== src/Qr/EightBitByte.antt =====
-- QR8bitByte: the UTF-16 units of a text as the bytes of a QR code.
pub mod Encode
pub mod Decode
pub mod Range
use study_tech.Base.{
  ℕ, bit_and, bit_or, List, [], ◌∷◌, ◌++◌, length, ltb, ◌==◌, if◌then◌else◌, ◌>>>◌, false, true,
}

-- The bytes of one unit, `code = data.charCodeAt(i)`.
unfoldable pub char_bytes : ℕ → List ℕ
char_bytes code =
    if ltb 0x10000 code
    then bit_or 0xF0 (bit_and code 0x1C0000 >>> 18)
      ∷ bit_or 0x80 (bit_and code 0x3F000 >>> 12)
      ∷ bit_or 0x80 (bit_and code 0xFC0 >>> 6)
      ∷ bit_or 0x80 (bit_and code 0x3F)
      ∷ []
    else if ltb 0x800 code
    then bit_or 0xE0 (bit_and code 0xF000 >>> 12)
      ∷ bit_or 0x80 (bit_and code 0xFC0 >>> 6)
      ∷ bit_or 0x80 (bit_and code 0x3F)
      ∷ []
    else if ltb 0x80 code
    then bit_or 0xC0 (bit_and code 0x7C0 >>> 6) ∷ bit_or 0x80 (bit_and code 0x3F) ∷ []
    else code ∷ []

-- The loop, and `concat`.
unfoldable pub payload : List ℕ → List ℕ
payload [] = []
payload (code ∷ codes) = char_bytes code ++ payload codes

-- The constructor's `parsedData`: three bytes are put in front where the lengths differ.
unfoldable pub parsed_data : List ℕ → List ℕ
parsed_data codes =
    let parsed = payload codes in
    if length parsed == length codes then parsed else 239 ∷ 187 ∷ 191 ∷ parsed
