-- ===== src/Qr/CreateBytes.antt =====
-- QRCodeModel.createBytes: the data codewords with their error correction codewords, interleaved.
pub mod Blocks
pub mod Laid
pub mod Interleaved
pub mod Words
pub mod Placed
pub mod Codeword
pub mod Table
use study_tech.Base.{
  ℕ, zero, suc, ◌+◌, ◌-◌, max, bit_and, List, [], ◌∷◌, ◌++◌, Option, none, some, length, get_or,
  ltb, leb, if◌then◌else◌, true, false, map,
}
use study_tech.Qr.BitBuffer.{BitBuffer}
use study_tech.Qr.Result.{Result, ok, err, ◌>>=◌}
use study_tech.Qr.RsBlock.{RsBlock}
use study_tech.Qr.RsBlock.Capacity.{total_of}
use study_tech.Qr.Polynomial.{
  Polynomial, holes, new_polynomial, modulo, get_error_correct_polynomial,
}

-- dcdata[r][i] = 0xff & buffer.buffer[i + offset], for `count` elements.
unfoldable pub data_codewords : List ℕ → ℕ → ℕ → Polynomial
data_codewords bytes offset zero = []
data_codewords bytes offset (suc count) =
    some (bit_and 0xFF (get_or bytes offset 0)) ∷ data_codewords bytes (offset + 1) count

-- ecdata[r][i] = modIndex >= 0 ? modPoly.get(modIndex) : 0, with modIndex = i + modPoly.getLength() -
-- ecdata[r].length, for `left` elements from `i` on.
unfoldable pub error_codewords : Polynomial → ℕ → ℕ → ℕ → Polynomial
error_codewords mod_poly len i zero = []
error_codewords mod_poly len i (suc left) =
    (if leb len (i + length mod_poly)
      then get_or mod_poly (i + length mod_poly - len) none
      else some 0)
    ∷ error_codewords mod_poly len (i + 1) left

-- dcdata[r] and ecdata[r]
pub record Block : Type 0 where
  pub dcdata : Polynomial
  pub ecdata : Polynomial

-- The body of the loop over `r`. `none` stands for a `mod` that does not end.
unfoldable pub with_remainder : Polynomial → ℕ → Option Polynomial → Option Block
unfolding error_codewords
with_remainder dcdata len none = none
with_remainder dcdata len (some mod_poly) =
    some (record { dcdata = dcdata; ecdata = error_codewords mod_poly len 0 len })

unfoldable pub block_of : Polynomial → ℕ → Result (Option Block)
unfolding with_remainder get_error_correct_polynomial modulo new_polynomial
block_of dcdata ec_count = get_error_correct_polynomial ec_count >>= λ rs_poly.
    let len = length rs_poly - 1 in
    modulo (new_polynomial dcdata len) rs_poly >>= λ mod_poly.
    ok (with_remainder dcdata len mod_poly)

unfoldable pub push : Option Block → Option (List Block) → Option (List Block)
push (some b) (some bs) = some (b ∷ bs)
push _ _ = none

unfoldable pub blocks_of : List ℕ → ℕ → List RsBlock → Result (Option (List Block))
unfolding data_codewords block_of push
blocks_of bytes offset [] = ok (some [])
blocks_of bytes offset (r ∷ rs) =
    block_of (data_codewords bytes offset r.data_count) (r.total_count - r.data_count) >>= λ b.
    blocks_of bytes (offset + r.data_count) rs >>= λ bs. ok (push b bs)

-- for (r = 0; …) if (i < row.length) data[index++] = row[i]
unfoldable pub column : ℕ → List Polynomial → Polynomial
column i [] = []
column i (row ∷ rows) =
    if ltb i (length row) then get_or row i none ∷ column i rows else column i rows

-- for (i = 0; …), with `left` rounds to go.
unfoldable pub interleave : ℕ → ℕ → List Polynomial → Polynomial
unfolding column
interleave zero i rows = []
interleave (suc left) i rows = column i rows ++ interleave left (i + 1) rows

unfoldable pub max_of : (RsBlock → ℕ) → List RsBlock → ℕ
max_of f [] = 0
max_of f (r ∷ rs) = max (f r) (max_of f rs)

-- data = new Array(totalCodeCount), of which the two loops fill the beginning.
unfoldable pub laid_out : List RsBlock → List Block → Polynomial
unfolding interleave max_of total_of
laid_out rs bs =
    let filled =
      interleave (max_of (λ r. r.data_count) rs) 0 (map (λ b. b.dcdata) bs)
      ++ interleave (max_of (λ r. r.total_count - r.data_count) rs) 0 (map (λ b. b.ecdata) bs) in
    filled ++ holes (total_of rs - length filled)

unfoldable pub finish : List RsBlock → Option (List Block) → Option Polynomial
unfolding laid_out
finish rs none = none
finish rs (some bs) = some (laid_out rs bs)

unfoldable pub create_bytes : BitBuffer → List RsBlock → Result (Option Polynomial)
unfolding blocks_of finish
create_bytes buffer rs = blocks_of buffer.buffer 0 rs >>= λ bs. ok (finish rs bs)
