-- ===== src/Qr/MakeCode/Whole.antt =====
-- A text whose type number is found becomes a symbol.
use study_tech.Base.{
  ℕ, ◌≤◌, ◌<◌, List, [], ◌∷◌, ◌≡◌, refl, sym, ◌∙◌, All, ◌⊎◌, Bool, true, false, Option, some,
}
use study_tech.Qr.BitBuffer.{BitBuffer}
use study_tech.Qr.Result.{Result, ok, >>=_ok}
use study_tech.Qr.EightBitByte.{parsed_data}
use study_tech.Qr.EightBitByte.Decode.{all_short}
use study_tech.Qr.EightBitByte.Range.{widths}
use study_tech.Qr.RsBlock.{RsBlock, level_h, get_rs_blocks}
use study_tech.Qr.RsBlock.Capacity.{raw_codewords, total_of, get_rs_blocks-IsFull}
use study_tech.Qr.TypeNumber.{get_type_number}
use study_tech.Qr.TypeNumber.Text.{IsBasic}
use study_tech.Qr.CreateData.{data_bits}
use study_tech.Qr.CreateData.Encoding.{bytes_segment}
use study_tech.Qr.Polynomial.{Polynomial}
use study_tech.Qr.CreateBytes.{create_bytes}
use study_tech.Qr.CreateBytes.Laid.{AreCodewords, create_bytes-AreCodewords}
use study_tech.Qr.CreateBytes.Table.{get_rs_blocks-Splits}
use study_tech.Qr.MakeImpl.{QrCodeModel, new_model, create_data, cached, with_bytes}
use study_tech.Qr.MakeImpl.Made.{IsMade, make-IsMade}
use study_tech.Qr.MakeCode.{encode_text, make_code}
use study_tech.Qr.MakeCode.Fits.{IsEncodedAt, encode_text-IsEncodedAt, type_number-IsSmallest}

-- The model of a text before `make`.
unfoldable pub model_of : ℕ → ℕ → List ℕ → QrCodeModel
model_of t level text = new_model t level (bytes_segment (parsed_data text) ∷ [])

-- The symbol of a text of type `t`: its bits, its codewords, and the modules that `make` leaves.
pub record IsCode (t level : ℕ) (text : List ℕ) (bits : Result (Option BitBuffer))
    (r : Result (Option QrCodeModel)) : Type 0 where
  pub encoded : IsEncodedAt t level text bits
  pub codewords : Polynomial
  pub full : AreCodewords (raw_codewords t) codewords
  pub laid : create_bytes encoded.buffer encoded.blocks ≡ ok (some codewords)
  pub made : IsMade codewords (model_of t level text) r

same_total :
    (t level : ℕ) (rs : List RsBlock)
    → 1 ≤ t
    → t ≤ 40
    → level < 4
    → ¬ ((t ≡ 15) × (level ≡ level_h))
    → get_rs_blocks t level ≡ ok rs
    → total_of rs ≡ raw_codewords t
same_total t level rs lo hi l ne e =
    let (qs, d, full) = get_rs_blocks-IsFull t level lo hi l ne in
    let same : qs ≡ rs = ok_eq (sym d ∙ e) in rw⁻¹ same full.total
  where
    ok_eq : {a b : List RsBlock} → ok a ≡ ok b → a ≡ b
    ok_eq e = cc

cached_lem :
    (t level : ℕ) (text : List ℕ) {buffer : BitBuffer} {rs : List RsBlock} {codewords : Polynomial}
    → data_bits t level (bytes_segment (parsed_data text) ∷ []) ≡ ok (some buffer)
    → get_rs_blocks t level ≡ ok rs
    → create_bytes buffer rs ≡ ok (some codewords)
    → cached (model_of t level text) (model_of t level text).data_cache ≡ ok (some codewords)
unfolding cached create_data with_bytes model_of
cached_lem t level text bits table laid = rw (bits, table) laid

-- A text without surrogates whose type number is found gives a symbol, if the type is not 15 at level
-- H, and the text does not read as the number of its bytes or has only units below 0x81: makeCode
-- throws nothing, all its loops end, the codewords of its encoded bits fill the type, each of them a
-- byte or `undefined`, which reads as 0, and each module is set, with the first pattern whose trial
-- has the fewest lost points.
pub make_code-IsCode :
    (reads_as : List ℕ → ℕ → Bool) (text : List ℕ) (level t : ℕ)
    → All IsBasic text
    → level < 4
    → get_type_number reads_as text level ≡ ok t
    → ¬ ((t ≡ 15) × (level ≡ level_h))
    → (reads_as text (widths text) ≡ false) ⊎ (all_short text ≡ true)
    → IsCode t level text (encode_text reads_as text level) (make_code reads_as text level)
unfolding make_code encode_text model_of
make_code-IsCode reads_as text level t basic l found ne nc =
    let s = type_number-IsSmallest reads_as text basic level t l found in
    let enc = encode_text-IsEncodedAt reads_as text level t basic l found ne nc in
    let (codewords, laid, full) =
      create_bytes-AreCodewords enc.buffer enc.blocks
        (get_rs_blocks-Splits t level enc.blocks s.low s.high l enc.table) in
    let bits : data_bits t level (bytes_segment (parsed_data text) ∷ []) ≡ ok (some enc.buffer) =
      sym (>>=_ok _ found refl) ∙ enc.returns in
    record {
      encoded = enc;
      codewords = codewords;
      full = rw⁻¹ (same_total t level enc.blocks s.low s.high l ne enc.table) full;
      laid = laid;
      made = rw found (
          make-IsMade (model_of t level text) codewords s.low s.high
            (cached_lem t level text bits enc.table laid));
    }
