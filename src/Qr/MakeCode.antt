-- ===== src/Qr/MakeCode.antt =====
-- QRCode.prototype.makeCode up to the drawing: the type number of the text, its segment, the symbol.
pub mod Fits
pub mod Overflow
pub mod Whole
use study_tech.Base.{ℕ, List, [], ◌∷◌, Option, Bool}
use study_tech.Qr.BitBuffer.{BitBuffer}
use study_tech.Qr.Result.{Result, ◌>>=◌}
use study_tech.Qr.EightBitByte.{parsed_data}
use study_tech.Qr.TypeNumber.{get_type_number}
use study_tech.Qr.CreateData.{data_bits}
use study_tech.Qr.CreateData.Encoding.{bytes_segment}
use study_tech.Qr.MakeImpl.{QrCodeModel, new_model, make}

-- `reads_as` is the comparison of a text with a number, as in TypeNumber.
unfoldable pub encode_text : (List ℕ → ℕ → Bool) → List ℕ → ℕ → Result (Option BitBuffer)
encode_text reads_as text level = get_type_number reads_as text level >>= λ t.
    data_bits t level (bytes_segment (parsed_data text) ∷ [])

-- The model that makeCode draws.
unfoldable pub make_code : (List ℕ → ℕ → Bool) → List ℕ → ℕ → Result (Option QrCodeModel)
unfolding make
make_code reads_as text level = get_type_number reads_as text level >>= λ t.
    make (new_model t level (bytes_segment (parsed_data text) ∷ []))
