-- ===== src/Qr/CreateBytes/Placed.antt =====
-- The codewords of every block, at their places in what createBytes returns.
use study_tech.Base.{
  ℕ, zero, suc, ◌+◌, ◌-◌, ◌≤◌, ◌<◌, ◌≡◌, refl, sym, ap, ◌∙◌, arith, List, [], ◌∷◌, ◌++◌, none, some,
  All, length, length-append, get_or, get_or-append_left, map,
}
use study_tech.Qr.BitBuffer.{BitBuffer}
use study_tech.Qr.Result.{ok}
use study_tech.Qr.RsBlock.{RsBlock}
use study_tech.Qr.RsBlock.Capacity.{total_of}
use study_tech.Qr.Polynomial.{Polynomial, holes}
use study_tech.Qr.CreateBytes.{Block, interleave, max_of, laid_out, finish, create_bytes}
use study_tech.Qr.CreateBytes.Blocks.{Matches, Splits, blocks_of-Matches}
use study_tech.Qr.CreateBytes.Words.{AreWords, blocks_of-AreWords}
use study_tech.Qr.CreateBytes.Laid.{Within, left_from, length-interleave, data-Within, error-Within}
use study_tech.Qr.CreateBytes.Interleaved.{above, skipped, interleave-above, get_or-append_right}

abbrev pub data_rows : List Block → List Polynomial
data_rows bs = map (λ b. b.dcdata) bs

abbrev pub error_rows : List Block → List Polynomial
error_rows bs = map (λ b. b.ecdata) bs

-- Codeword `i` of block `r` stands behind all codewords below `i` of the blocks, and codeword `i` of
-- the blocks before `r`; the error correction codewords stand behind all the data codewords.
pub record ArePlaced (bs : List Block) (codewords : Polynomial) : Type 0 where
  pub data_placed :
      (r i : ℕ)
      → r < length (data_rows bs)
      → i < length (get_or (data_rows bs) r [])
      → get_or codewords (skipped 0 i (data_rows bs) + above i r (data_rows bs)) none
        ≡ get_or (get_or (data_rows bs) r []) i none
  pub error_placed :
      (r i : ℕ)
      → r < length (error_rows bs)
      → i < length (get_or (error_rows bs) r [])
      → get_or codewords
          (left_from 0 (data_rows bs) + (skipped 0 i (error_rows bs) + above i r (error_rows bs)))
          none
        ≡ get_or (get_or (error_rows bs) r []) i none

Within-get_or :
    (n r : ℕ) (rows : List Polynomial)
    → All (Within n) rows
    → r < length rows
    → length (get_or rows r []) ≤ n
Within-get_or n r [] h k = absurd (omega arith)
Within-get_or n zero (row ∷ rows) (h, hs) k = h
Within-get_or n (suc r) (row ∷ rows) (h, hs) k = Within-get_or n r rows hs (omega arith)

laid_out-ArePlaced :
    (rs : List RsBlock) (bs : List Block) → Matches rs bs → ArePlaced bs (laid_out rs bs)
unfolding laid_out
laid_out-ArePlaced rs bs m =
    let dm = max_of (λ r. r.data_count) rs in
    let em = max_of (λ r. r.total_count - r.data_count) rs in
    let dw = data-Within dm rs bs m (omega arith) in
    let ew = error-Within em rs bs m (omega arith) in
    let ds = interleave dm 0 (data_rows bs) in
    let es = interleave em 0 (error_rows bs) in
    let pad = holes (total_of rs - length (ds ++ es)) in
    record {
      data_placed = λ r i h k.
          let (inside, is) =
            interleave-above dm 0 i r (data_rows bs) (omega arith)
              (omega (arith, Within-get_or dm r (data_rows bs) dw h)) h k in
          get_or-append_left (ds ++ es) pad _ none (omega (arith, length-append ds es))
          ∙ get_or-append_left ds es _ none inside
          ∙ is;
      error_placed = λ r i h k.
          let at = skipped 0 i (error_rows bs) + above i r (error_rows bs) in
          let (inside, is) =
            interleave-above em 0 i r (error_rows bs) (omega arith)
              (omega (arith, Within-get_or em r (error_rows bs) ew h)) h k in
          let count : length ds ≡ left_from 0 (data_rows bs) =
            length-interleave dm 0 dm (data_rows bs) (omega arith) dw in
          get_or-append_left (ds ++ es) pad _ none (omega (arith, length-append ds es, count))
          ∙ ap (λ (t : ℕ). get_or (ds ++ es) (t + at) none) (sym count)
          ∙ get_or-append_right ds es at
          ∙ is;
    }

same_blocks : {a b : List Block} → ok (some a) ≡ ok (some b) → a ≡ b
same_blocks e = cc

-- Where blocks have at most 30 error correction codewords each, and no more data codewords than
-- codewords, createBytes makes blocks, whose data are the bytes of the buffer in turn and which are
-- words of the Reed-Solomon code, and puts every codeword at its place: codeword `i` of block `r`
-- stands behind all codewords below `i` of the blocks, and codeword `i` of the blocks before `r`,
-- first the data codewords, and behind them in the same way the error correction codewords.
pub create_bytes-ArePlaced :
    (buffer : BitBuffer) (rs : List RsBlock)
    → All Splits rs
    → (bs : List Block) × (codewords : Polynomial) × AreWords buffer.buffer 0 rs bs
      × (create_bytes buffer rs ≡ ok (some codewords))
      × ArePlaced bs codewords
unfolding create_bytes finish
create_bytes-ArePlaced buffer rs s =
    let (bs, are, m) = blocks_of-Matches buffer.buffer 0 rs s in
    let (ws, have, words) = blocks_of-AreWords buffer.buffer 0 rs s in
    let same : ws ≡ bs = same_blocks (sym have ∙ are) in
    (bs, laid_out rs bs, rw same at words, rw are refl, laid_out-ArePlaced rs bs m)
