-- ===== src/Qr/Polynomial/Generator.antt =====
-- The polynomials of getErrorCorrectPolynomial, for the lengths that a symbol can have.
use study_tech.Base.{
  ℕ, ◌+◌, ◌≤◌, ◌<◌, ◌≡◌, refl, arith, ap, bit_xor, Bool, true, false, ◌&&◌, ◌==◌, leb, ltb, [], ◌∷◌,
  Option, none, some, All, length, get_or, all_below, all_below-at, ==_iff, &&-eq-true, leb→le,
  ltb→lt,
}
use study_tech.Qr.Result.{Result, ok, err}
use study_tech.Qr.Field.{octet}
use study_tech.Qr.Field.Table.{exp_table}
use study_tech.Qr.Field.Product.{product}
use study_tech.Qr.Polynomial.{Polynomial, get_error_correct_polynomial}

-- The value at `x`, from the highest power on.
unfoldable pub value_from : ℕ → ℕ → Polynomial → ℕ
value_from x acc [] = acc
value_from x acc (c ∷ cs) = value_from x (bit_xor (product acc x) (octet c)) cs

abbrev nonzero : Option ℕ → Bool
nonzero none = false
nonzero (some x) = leb 1 x && ltb x 256

all_nonzero : Polynomial → Bool
all_nonzero [] = true
all_nonzero (c ∷ cs) = nonzero c && all_nonzero cs

monic : Polynomial → Bool
monic (some n ∷ cs) = n == 1
monic _ = false

vanishes : Polynomial → ℕ → Bool
unfolding value_from product
vanishes g i = value_from (get_or exp_table i 0) 0 g == 0

judge : ℕ → Result Polynomial → Bool
unfolding all_nonzero monic vanishes all_below
judge n (ok g) = (length g == n + 1) && (monic g && (all_nonzero g && all_below n (vanishes g)))
judge n (err e) = false

good : ℕ → Bool
unfolding judge get_error_correct_polynomial
good n = judge n (get_error_correct_polynomial n)

table : all_below 31 good ≡ true
unfolding all_below good
table = refl

abbrev pub Nonzero : Option ℕ → Type 0
Nonzero c = (x : ℕ) × (c ≡ some x) × (1 ≤ x) × (x < 256)

-- A generator of `n` error correction codewords: monic, of degree `n`, without a coefficient of 0, and 0 at
-- the powers below `n` of the table.
pub record IsGenerator (n : ℕ) (g : Polynomial) : Type 0 where
  pub degree : length g ≡ n + 1
  pub leads : (rest : Polynomial) × (g ≡ some 1 ∷ rest)
  pub bytes : All Nonzero g
  pub roots : (i : ℕ) → i < n → value_from (get_or exp_table i 0) 0 g ≡ 0

nonzero_sound : (c : Option ℕ) → nonzero c ≡ true → Nonzero c
nonzero_sound none h = cc
nonzero_sound (some x) h =
    let (lo, hi) = &&-eq-true _ _ h in (x, refl, leb→le 1 x lo, ltb→lt x 256 hi)

all_nonzero_sound : (g : Polynomial) → all_nonzero g ≡ true → All Nonzero g
unfolding all_nonzero
all_nonzero_sound [] h = tt
all_nonzero_sound (c ∷ cs) h =
    let (first, rest) = &&-eq-true _ _ h in (nonzero_sound c first, all_nonzero_sound cs rest)

monic_sound : (g : Polynomial) → monic g ≡ true → (rest : Polynomial) × (g ≡ some 1 ∷ rest)
unfolding monic
monic_sound [] h = cc
monic_sound (none ∷ cs) h = cc
monic_sound (some n ∷ cs) h = (cs, ap (λ (t : ℕ). some t ∷ cs) ((==_iff n 1).0 h))

judge_sound :
    (n : ℕ) (r : Result Polynomial)
    → judge n r ≡ true
    → (g : Polynomial) × (r ≡ ok g) × IsGenerator n g
unfolding judge vanishes
judge_sound n (ok g) h =
    let (degree, h1) = &&-eq-true (length g == n + 1) _ h in
    let (leads, h2) = &&-eq-true (monic g) _ h1 in
    let (bytes, roots) = &&-eq-true (all_nonzero g) _ h2 in
    (
      g,
      refl,
      record {
        degree = (==_iff _ _).0 degree;
        leads = monic_sound g leads;
        bytes = all_nonzero_sound g bytes;
        roots = λ i lt. (==_iff _ 0).0 (all_below-at n (vanishes g) i roots lt);
      },
    )
judge_sound n (err e) h = cc

-- Up to 30 error correction codewords, getErrorCorrectPolynomial does not throw, and gives the
-- polynomial of degree `n`, with coefficients from 1 to 255 and 1 as the first, whose value at
-- each of the first `n` powers of 2 in the field is 0.
pub get_error_correct_polynomial-IsGenerator :
    (n : ℕ) → n ≤ 30 → (g : Polynomial) × (get_error_correct_polynomial n ≡ ok g) × IsGenerator n g
unfolding good
get_error_correct_polynomial-IsGenerator n h =
    judge_sound n _ (all_below-at 31 good n table (omega arith))
