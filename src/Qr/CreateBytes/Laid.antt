-- ===== src/Qr/CreateBytes/Laid.antt =====
-- The codewords of createBytes: as many as the symbol holds, each a byte or
-- `undefined`.
use study_tech.Base.{
  ℕ, zero, suc, ◌+◌, ◌-◌, ◌≤◌, ◌≡◌, refl, arith, sym, ltb, List, [], ◌∷◌, ◌++◌, some, All, length,
  length-append, Bool-cases, inl, inr, map,
}
use study_tech.Qr.BitBuffer.{BitBuffer}
use study_tech.Qr.Result.{ok}
use study_tech.Qr.RsBlock.{RsBlock}
use study_tech.Qr.RsBlock.Capacity.{total_of}
use study_tech.Qr.Polynomial.{Polynomial, holes}
use study_tech.Qr.Polynomial.Subtract.{IsByte, get_or-IsByte}
use study_tech.Qr.Polynomial.Reduce.{append-IsByte}
use study_tech.Qr.CreateBytes.{Block, column, interleave, max_of, laid_out, finish, create_bytes}
use study_tech.Qr.CreateBytes.Blocks.{Matches, Splits, blocks_of-Matches}

-- The elements of the rows from column `i` on.
unfoldable pub left_from : ℕ → List Polynomial → ℕ
left_from i [] = 0
left_from i (row ∷ rows) = length row - i + left_from i rows

abbrev pub Within : ℕ → Polynomial → Type 0
Within n row = length row ≤ n

length-column :
    (i : ℕ) (rows : List Polynomial)
    → length (column i rows) + left_from (i + 1) rows ≡ left_from i rows
unfolding column left_from
length-column i [] = refl
length-column i (row ∷ rows) = elim (Bool-cases (ltb i (length row))) [
  | inl e ↦ rw e (let ih = length-column i rows in ground arith)
  | inr e ↦ rw e (let ih = length-column i rows in ground arith)
]

none_left : (i n : ℕ) (rows : List Polynomial) → n ≤ i → All (Within n) rows → left_from i rows ≡ 0
unfolding left_from
none_left i n [] le h = refl
none_left i n (row ∷ rows) le (h, hs) = omega (arith, none_left i n rows le hs)

pub length-interleave :
    (left i n : ℕ) (rows : List Polynomial)
    → i + left ≡ n
    → All (Within n) rows
    → length (interleave left i rows) ≡ left_from i rows
unfolding interleave
length-interleave zero i n rows e h = sym (none_left i n rows (omega arith) h)
length-interleave (suc left) i n rows e h = omega (
  arith,
  length-append (column i rows) (interleave left (i + 1) rows),
  length-interleave left (i + 1) n rows (omega arith) h,
  length-column i rows,
)

column-IsByte :
    (i : ℕ) (rows : List Polynomial) → All (All IsByte) rows → All IsByte (column i rows)
unfolding column
column-IsByte i [] h = tt
column-IsByte i (row ∷ rows) (h, hs) = elim (Bool-cases (ltb i (length row))) [
  | inl e ↦ rw e (get_or-IsByte row i h, column-IsByte i rows hs)
  | inr e ↦ rw e (column-IsByte i rows hs)
]

interleave-IsByte :
    (left i : ℕ) (rows : List Polynomial)
    → All (All IsByte) rows
    → All IsByte (interleave left i rows)
unfolding interleave
interleave-IsByte zero i rows h = tt
interleave-IsByte (suc left) i rows h =
    append-IsByte (column i rows) _ (column-IsByte i rows h) (interleave-IsByte left (i + 1) rows h)

pub data-Within :
    (n : ℕ) (rs : List RsBlock) (bs : List Block)
    → Matches rs bs
    → max_of (λ r. r.data_count) rs ≤ n
    → All (Within n) (map (λ b. b.dcdata) bs)
unfolding max_of
data-Within n [] [] m h = tt
data-Within n [] (b ∷ bs) m h = absurd m
data-Within n (r ∷ rs) [] m h = absurd m
data-Within n (r ∷ rs) (b ∷ bs) (ok_b, ok_bs) h =
    (omega (arith, ok_b.data_length), data-Within n rs bs ok_bs (omega arith))

pub error-Within :
    (n : ℕ) (rs : List RsBlock) (bs : List Block)
    → Matches rs bs
    → max_of (λ r. r.total_count - r.data_count) rs ≤ n
    → All (Within n) (map (λ b. b.ecdata) bs)
unfolding max_of
error-Within n [] [] m h = tt
error-Within n [] (b ∷ bs) m h = absurd m
error-Within n (r ∷ rs) [] m h = absurd m
error-Within n (r ∷ rs) (b ∷ bs) (ok_b, ok_bs) h =
    (omega (arith, ok_b.error_length), error-Within n rs bs ok_bs (omega arith))

sums :
    (rs : List RsBlock) (bs : List Block)
    → All Splits rs
    → Matches rs bs
    → left_from 0 (map (λ b. b.dcdata) bs) + left_from 0 (map (λ b. b.ecdata) bs) ≡ total_of rs
unfolding left_from total_of
sums [] [] s m = refl
sums [] (b ∷ bs) s m = absurd m
sums (r ∷ rs) [] s m = absurd m
sums (r ∷ rs) (b ∷ bs) ((lo, hi), ss) (ok_b, ok_bs) =
    omega (arith, ok_b.data_length, ok_b.error_length, sums rs bs ss ok_bs)

data_bytes :
    (rs : List RsBlock) (bs : List Block)
    → Matches rs bs
    → All (All IsByte) (map (λ b. b.dcdata) bs)
data_bytes [] [] m = tt
data_bytes [] (b ∷ bs) m = absurd m
data_bytes (r ∷ rs) [] m = absurd m
data_bytes (r ∷ rs) (b ∷ bs) (ok_b, ok_bs) = (ok_b.data_bytes, data_bytes rs bs ok_bs)

error_bytes :
    (rs : List RsBlock) (bs : List Block)
    → Matches rs bs
    → All (All IsByte) (map (λ b. b.ecdata) bs)
error_bytes [] [] m = tt
error_bytes [] (b ∷ bs) m = absurd m
error_bytes (r ∷ rs) [] m = absurd m
error_bytes (r ∷ rs) (b ∷ bs) (ok_b, ok_bs) = (ok_b.error_bytes, error_bytes rs bs ok_bs)

-- `total` codewords, each a byte or `undefined`, which reads as 0.
pub record AreCodewords (total : ℕ) (codewords : Polynomial) : Type 0 where
  pub count : length codewords ≡ total
  pub bytes : All IsByte codewords

no_holes :
    (a : Polynomial) (n : ℕ)
    → length a ≡ n
    → All IsByte a
    → AreCodewords n (a ++ holes (n - length a))
no_holes a n e h =
    let none_missing : n - length a ≡ 0 = omega arith in
    rw none_missing
      (record { count = omega (arith, length-append a []); bytes = append-IsByte a [] h tt })

laid_out-AreCodewords :
    (rs : List RsBlock) (bs : List Block)
    → All Splits rs
    → Matches rs bs
    → AreCodewords (total_of rs) (laid_out rs bs)
unfolding laid_out
laid_out-AreCodewords rs bs s m =
    let data_max = max_of (λ r. r.data_count) rs in
    let error_max = max_of (λ r. r.total_count - r.data_count) rs in
    let data_rows = map (λ b. b.dcdata) bs in
    let error_rows = map (λ b. b.ecdata) bs in
    no_holes _ (total_of rs)
      (omega (
        arith,
        length-append (interleave data_max 0 data_rows) (interleave error_max 0 error_rows),
        length-interleave data_max 0 data_max data_rows (omega arith)
            (data-Within data_max rs bs m (omega arith)),
        length-interleave error_max 0 error_max error_rows (omega arith)
            (error-Within error_max rs bs m (omega arith)),
        sums rs bs s m,
      ))
      (append-IsByte _ _ (interleave-IsByte data_max 0 data_rows (data_bytes rs bs m))
        (interleave-IsByte error_max 0 error_rows (error_bytes rs bs m)))

-- For blocks that have at most 30 error correction codewords each, and no more data codewords than
-- codewords, createBytes ends, throws nothing, and leaves as many codewords as the blocks have, each
-- of which is a byte or `undefined`, which reads as 0.
pub create_bytes-AreCodewords :
    (buffer : BitBuffer) (rs : List RsBlock)
    → All Splits rs
    → (codewords : Polynomial) × (create_bytes buffer rs ≡ ok (some codewords))
      × AreCodewords (total_of rs) codewords
unfolding create_bytes finish
create_bytes-AreCodewords buffer rs s =
    let (bs, are, m) = blocks_of-Matches buffer.buffer 0 rs s in
    (laid_out rs bs, rw are refl, laid_out-AreCodewords rs bs s m)
