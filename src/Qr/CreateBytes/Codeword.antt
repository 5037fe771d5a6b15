-- ===== src/Qr/CreateBytes/Codeword.antt =====
-- The blocks of createBytes are words of the Reed-Solomon code.
use study_tech.Base.{
  ℕ, zero, suc, ◌+◌, ◌-◌, ◌≤◌, ◌<◌, bit_xor, ◌≡◌, refl, sym, ap, ap₂, ◌∙◌, arith, [], ◌∷◌, ◌++◌,
  Option, none, some, All, length, get_or, leb, true, false,
}
use study_tech.Base.Xor.{bit_xor-zero, bit_xor_self}
use study_tech.Qr.Result.{ok}
use study_tech.Qr.Field.Table.{exp_table}
use study_tech.Qr.Polynomial.{Polynomial, holes, new_polynomial}
use study_tech.Qr.Polynomial.Generator.{value_from, get_error_correct_polynomial-IsGenerator}
use study_tech.Qr.Polynomial.Subtract.{IsByte, exp_table-small}
use study_tech.Qr.Polynomial.Modulo.{modulo-IsRemainder}
use study_tech.Qr.Polynomial.Value.{
  zeros, value_from-append, value_from-strip, value_from-small, value_from-holes, value_from-zeros,
}
use study_tech.Qr.Polynomial.Combine.{get_or-append, append_one, length-append_one}
use study_tech.Qr.Polynomial.Remainder.{modulo_value}
use study_tech.Qr.CreateBytes.{Block, error_codewords, with_remainder, block_of}
use study_tech.Qr.CreateBytes.Blocks.{length-error_codewords, error_codewords-IsByte}

-- From the first element that is one of the remainder's.
error_codewords-rest :
    (pre q : Polynomial) (len i : ℕ)
    → i + length (pre ++ q) ≡ len + length pre
    → error_codewords (pre ++ q) len i (length q) ≡ q
unfolding error_codewords
error_codewords-rest pre [] len i h = refl
error_codewords-rest pre (c ∷ q) len i h =
    let inside : leb len (i + length (pre ++ c ∷ q)) ≡ true = ground arith in
    let place : i + length (pre ++ c ∷ q) - len ≡ length pre = omega arith in
    ap₂ (λ (a : Option ℕ) (b : Polynomial). a ∷ b) (rw (inside, place) (get_or-append pre q c none))
      (ap (λ (t : Polynomial). error_codewords t len (i + 1) (length q)) (sym (append_one pre q c))
        ∙ error_codewords-rest (pre ++ c ∷ []) q len (i + 1)
            (omega (arith, h, ap length (append_one pre q c), length-append_one pre c)))

zero_add : (n : ℕ) → 0 + n ≡ n
zero_add n = omega arith

suc_add : (k n : ℕ) → suc k + n ≡ suc (k + n)
suc_add k n = omega arith

-- Zeros in front of a remainder that is short.
error_codewords-zeros :
    (k : ℕ) (p : Polynomial) (len i : ℕ)
    → i + (k + length p) ≡ len
    → error_codewords p len i (k + length p) ≡ zeros k ++ p
unfolding error_codewords
error_codewords-zeros zero p len i h =
    ap (error_codewords p len i) (zero_add (length p))
    ∙ error_codewords-rest [] p len i (omega arith)
error_codewords-zeros (suc k) p len i h =
    let before : leb len (i + length p) ≡ false = ground arith in
    ap (error_codewords p len i) (suc_add k (length p))
    ∙ ap₂ (λ (a : Option ℕ) (b : Polynomial). a ∷ b) (rw before refl)
        (error_codewords-zeros k p len (i + 1) (omega arith))

-- The first `ec` powers of 2 in the field are roots of the codewords of a block, data first.
pub record IsCodeword (dcdata : Polynomial) (ec : ℕ) (b : Block) : Type 0 where
  pub data_kept : b.dcdata ≡ dcdata
  pub error_count : length b.ecdata ≡ ec
  pub roots : (i : ℕ) → i < ec → value_from (get_or exp_table i 0) 0 (b.dcdata ++ b.ecdata) ≡ 0

module _ (x : ℕ) (xh : x < 256) where
  short_value :
      (p : Polynomial) (len : ℕ)
      → length p ≤ len
      → value_from x 0 (error_codewords p len 0 len) ≡ value_from x 0 p
  short_value p len h =
      ap (λ (t : ℕ). value_from x 0 (error_codewords p len 0 t)) (parts (length p) len h)
      ∙ ap (value_from x 0) (error_codewords-zeros (len - length p) p len 0 (omega arith))
      ∙ value_from-zeros x xh (len - length p) p
    where
      parts : (a b : ℕ) → a ≤ b → b ≡ b - a + a
      parts a b h = omega arith

  -- The data, and then as many codewords as make the value 0.
  whole_value :
      (dc ec : Polynomial)
      → All IsByte dc
      → All IsByte ec
      → value_from x 0 ec ≡ value_from x 0 (new_polynomial dc (length ec))
      → value_from x 0 (dc ++ ec) ≡ 0
  unfolding new_polynomial
  whole_value dc ec db eb same =
      let d = value_from x 0 dc in
      value_from-append x xh 0 dc ec
      ∙ ap (λ (t : ℕ). value_from x t ec) (sym (bit_xor-zero d))
      ∙ value_from-holes x xh d 0 ec (value_from-small x xh 0 dc (omega arith) db) (omega arith) eb
      ∙ ap (bit_xor (value_from x d (holes (length ec)))) (
          same
          ∙ value_from-strip x xh dc (holes (length ec))
          ∙ value_from-append x xh 0 dc (holes (length ec)))
      ∙ bit_xor_self _

-- A block of bytes with up to 30 error correction codewords is a word of the Reed-Solomon code:
-- createBytes throws nothing and ends, the data codewords stay, as many codewords as asked for
-- follow, and the block as a polynomial is 0 at each of the first `ec` powers of 2 in the field.
pub block_of-IsCodeword :
    (dcdata : Polynomial) (ec : ℕ)
    → ec ≤ 30
    → All IsByte dcdata
    → (b : Block) × (block_of dcdata ec ≡ ok (some b)) × IsCodeword dcdata ec b
unfolding block_of with_remainder
block_of-IsCodeword dcdata ec h bytes =
    let (g, is, gen) = get_error_correct_polynomial-IsGenerator ec h in
    let len = length g - 1 in
    let r = modulo-IsRemainder dcdata len gen bytes in
    let ecdata = error_codewords r.num len 0 len in
    let count = length-error_codewords r.num len 0 len in
    (
      record { dcdata = dcdata; ecdata = ecdata },
      rw (is, r.result) refl,
      record {
        data_kept = refl;
        error_count = omega (arith, count, gen.degree);
        roots = λ i lt.
            let x = get_or exp_table i 0 in
            let xh = exp_table-small i in
            whole_value x xh dcdata ecdata bytes (error_codewords-IsByte r.num len 0 len r.bytes) (
              short_value x xh r.num len (omega (arith, r.less))
              ∙ modulo_value x xh dcdata len r.num gen bytes (gen.roots i lt) r.result
              ∙ ap (λ (t : ℕ). value_from x 0 (new_polynomial dcdata t)) (sym count));
      },
    )
