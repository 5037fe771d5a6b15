-- ===== src/Qr/CreateBytes/Blocks.antt =====
-- The blocks of createBytes: how many codewords each has, and that each is a byte or
-- `undefined`.
use study_tech.Base.{
  ℕ, zero, suc, ◌+◌, ◌-◌, ◌≤◌, ◌≡◌, refl, arith, ap, sym, Bool, true, false, leb, List, [], ◌∷◌,
  Option, some, All, length, get_or, if◌then◌else◌,
}
use study_tech.Base.Bits.{bit_and-le_left}
use study_tech.Qr.Result.{ok}
use study_tech.Qr.RsBlock.{RsBlock}
use study_tech.Qr.Field.{octet}
use study_tech.Qr.Polynomial.{Polynomial}
use study_tech.Qr.Polynomial.Generator.{get_error_correct_polynomial-IsGenerator}
use study_tech.Qr.Polynomial.Subtract.{IsByte, get_or-IsByte}
use study_tech.Qr.Polynomial.Modulo.{modulo-IsRemainder}
use study_tech.Qr.CreateBytes.{
  Block, data_codewords, error_codewords, with_remainder, block_of, push, blocks_of,
}

pub length-data_codewords :
    (bytes : List ℕ) (offset n : ℕ) → length (data_codewords bytes offset n) ≡ n
unfolding data_codewords
length-data_codewords bytes offset zero = refl
length-data_codewords bytes offset (suc n) = ap suc (length-data_codewords bytes (offset + 1) n)

pub data_codewords-IsByte :
    (bytes : List ℕ) (offset n : ℕ) → All IsByte (data_codewords bytes offset n)
unfolding data_codewords octet
data_codewords-IsByte bytes offset zero = tt
data_codewords-IsByte bytes offset (suc n) = (
  omega (arith, bit_and-le_left 0xFF (get_or bytes offset 0)),
  data_codewords-IsByte bytes (offset + 1) n,
)

pub length-error_codewords : (p : Polynomial) (len i n : ℕ) → length (error_codewords p len i n) ≡ n
unfolding error_codewords
length-error_codewords p len i zero = refl
length-error_codewords p len i (suc n) = ap suc (length-error_codewords p len (i + 1) n)

if-IsByte : (b : Bool) (x y : Option ℕ) → IsByte x → IsByte y → IsByte (if b then x else y)
if-IsByte true x y h k = h
if-IsByte false x y h k = k

zero-IsByte : IsByte (some 0)
unfolding octet
zero-IsByte = omega arith

pub error_codewords-IsByte :
    (p : Polynomial) (len i n : ℕ) → All IsByte p → All IsByte (error_codewords p len i n)
unfolding error_codewords
error_codewords-IsByte p len i zero h = tt
error_codewords-IsByte p len i (suc n) h = (
  if-IsByte (leb len (i + length p)) _ (some 0) (get_or-IsByte p (i + length p - len) h)
      zero-IsByte,
  error_codewords-IsByte p len (i + 1) n h,
)

-- A block of `dc` data codewords and `ec` error correction codewords, each a byte or `undefined`.
pub record IsBlock (dc ec : ℕ) (b : Block) : Type 0 where
  pub data_length : length b.dcdata ≡ dc
  pub error_length : length b.ecdata ≡ ec
  pub data_bytes : All IsByte b.dcdata
  pub error_bytes : All IsByte b.ecdata

IsBlock-at : {dc n ec : ℕ} (b : Block) → dc ≡ n → IsBlock dc ec b → IsBlock n ec b
IsBlock-at b e h = rw (sym e) h

pub block_of-IsBlock :
    (dcdata : Polynomial) (ec : ℕ)
    → ec ≤ 30
    → All IsByte dcdata
    → (b : Block) × (block_of dcdata ec ≡ ok (some b)) × IsBlock (length dcdata) ec b
unfolding block_of with_remainder
block_of-IsBlock dcdata ec h bytes =
    let (g, is, gen) = get_error_correct_polynomial-IsGenerator ec h in
    let len = length g - 1 in
    let r = modulo-IsRemainder dcdata len gen bytes in
    let b : Block = record { dcdata = dcdata; ecdata = error_codewords r.num len 0 len } in
    (
      b,
      rw (is, r.result) refl,
      record {
        data_length = refl;
        error_length = omega (arith, length-error_codewords r.num len 0 len, gen.degree);
        data_bytes = bytes;
        error_bytes = error_codewords-IsByte r.num len 0 len r.bytes;
      },
    )

-- The blocks of a table row, one by one.
abbrev pub Matches : List RsBlock → List Block → Type 0
Matches [] [] = Unit
Matches (r ∷ rs) (b ∷ bs) = IsBlock r.data_count (r.total_count - r.data_count) b × Matches rs bs
Matches [] (b ∷ bs) = ⊥
Matches (r ∷ rs) [] = ⊥

-- A split that leaves data codewords and at most 30 others.
abbrev pub Splits : RsBlock → Type 0
Splits r = (r.data_count ≤ r.total_count) × (r.total_count - r.data_count ≤ 30)

pub blocks_of-Matches :
    (bytes : List ℕ) (offset : ℕ) (rs : List RsBlock)
    → All Splits rs
    → (bs : List Block) × (blocks_of bytes offset rs ≡ ok (some bs)) × Matches rs bs
unfolding blocks_of push
blocks_of-Matches bytes offset [] h = ([], refl, tt)
blocks_of-Matches bytes offset (r ∷ rs) ((lo, hi), hs) =
    let dcdata = data_codewords bytes offset r.data_count in
    let (b, is, ok_b) =
      block_of-IsBlock dcdata (r.total_count - r.data_count) hi
        (data_codewords-IsByte bytes offset r.data_count) in
    let (bs, are, ok_bs) = blocks_of-Matches bytes (offset + r.data_count) rs hs in
    (
      b ∷ bs,
      rw (is, are) refl,
      (IsBlock-at b (length-data_codewords bytes offset r.data_count) ok_b, ok_bs),
    )
