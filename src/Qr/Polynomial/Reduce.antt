-- ===== src/Qr/Polynomial/Reduce.antt =====
-- One call of `mod`: it takes the first coefficient away, throws nothing, and leaves bytes.
use study_tech.Base.{
  ℕ, zero, suc, ◌≤◌, ◌<◌, ◌≡◌, ◌≢◌, refl, arith, ap, ◌∙◌, Bool, true, false, [], ◌∷◌, ◌++◌,
  length-append, Option, none, some, All, length, get_or, length-append,
}
use study_tech.Base.Int.{ℤ}
use study_tech.Qr.Result.{Result, ok, ◌>>=◌}
use study_tech.Qr.Field.{octet, glog, gexp}
use study_tech.Qr.Polynomial.{
  Polynomial, holes, strip, new_polynomial, xor_at, difference, shifted, subtract, reduce,
}
use study_tech.Qr.Polynomial.Generator.{Nonzero}
use study_tech.Qr.Polynomial.Subtract.{IsByte, HasLog, has_log, subtract-IsSubtracted}

unfoldable pub leads_zero : Polynomial → Bool
leads_zero [] = false
leads_zero (none ∷ cs) = false
leads_zero (some zero ∷ cs) = true
leads_zero (some (suc x) ∷ cs) = false

strip-length : (a : Polynomial) → length (strip a) ≤ length a
unfolding strip
strip-length [] = omega arith
strip-length (none ∷ cs) = omega arith
strip-length (some zero ∷ cs) = omega (arith, strip-length cs)
strip-length (some (suc x) ∷ cs) = omega arith

strip-IsByte : (a : Polynomial) → All IsByte a → All IsByte (strip a)
unfolding strip
strip-IsByte [] h = tt
strip-IsByte (none ∷ cs) h = h
strip-IsByte (some zero ∷ cs) (h, hs) = strip-IsByte cs hs
strip-IsByte (some (suc x) ∷ cs) h = h

holes-IsByte : (n : ℕ) → All IsByte (holes n)
unfolding octet
holes-IsByte zero = tt
holes-IsByte (suc n) = (omega arith, holes-IsByte n)

length-holes : (n : ℕ) → length (holes n) ≡ n
length-holes zero = refl
length-holes (suc n) = ap suc (length-holes n)

pub append-IsByte : (a b : Polynomial) → All IsByte a → All IsByte b → All IsByte (a ++ b)
append-IsByte [] b h k = k
append-IsByte (c ∷ cs) b (h, hs) k = (h, append-IsByte cs b hs k)

pub new_polynomial-leads : (a : Polynomial) (n : ℕ) → leads_zero (new_polynomial a n) ≡ false
unfolding new_polynomial strip leads_zero
new_polynomial-leads [] zero = refl
new_polynomial-leads [] (suc n) = refl
new_polynomial-leads (none ∷ cs) n = refl
new_polynomial-leads (some zero ∷ cs) n = new_polynomial-leads cs n
new_polynomial-leads (some (suc x) ∷ cs) n = refl

pub new_polynomial-IsByte :
    (a : Polynomial) (n : ℕ) → All IsByte a → All IsByte (new_polynomial a n)
unfolding new_polynomial
new_polynomial-IsByte a n h = append-IsByte (strip a) (holes n) (strip-IsByte a h) (holes-IsByte n)

shorter :
    (num : Polynomial)
    → 1 ≤ length num
    → get_or num 0 none ≡ some 0
    → length (new_polynomial num 0) < length num
unfolding new_polynomial strip
shorter [] h e = absurd (omega arith)
shorter (none ∷ cs) h e = cc
shorter (some zero ∷ cs) h e = omega (arith, length-append (strip cs) [], strip-length cs)
shorter (some (suc x) ∷ cs) h e = absurd (suc_not_zero x e)
  where
    suc_not_zero : (x : ℕ) → some (suc x) ≢ some 0
    suc_not_zero x e = cc

-- One call of `mod` that does not return at once.
pub record IsReduced (a : Polynomial) (r : Result Polynomial) : Type 0 where
  pub num : Polynomial
  pub result : r ≡ ok num
  pub less : length num < length a
  pub bytes : All IsByte num
  pub leads : leads_zero num ≡ false

pub glog-none : glog none ≡ ok none
unfolding glog
glog-none = refl

glog_one : glog (some 1) ≡ ok (some 0)
unfolding glog
glog_one = refl

module _ (rest : Polynomial) (nonzero : All Nonzero rest) where
  from_rest :
      (ratio : Option ℤ) (c : Option ℕ) (cs : Polynomial)
      → All IsByte cs
      → IsReduced
          (c ∷ cs)
          (subtract ratio rest 1 (some 0 ∷ cs) >>= λ num. ok (new_polynomial num 0))
  unfolding octet
  from_rest ratio c cs h =
      let s = subtract-IsSubtracted ratio rest 1 (some 0 ∷ cs) nonzero (omega arith, h) in
      let first : get_or s.num 0 none ≡ some 0 = s.before 0 (omega arith) in
      record {
        num = new_polynomial s.num 0;
        result = rw s.result refl;
        less = omega (arith, shorter s.num (omega (arith, s.same_length)) first, s.same_length);
        bytes = new_polynomial-IsByte s.num 0 s.bytes;
        leads = new_polynomial-leads s.num 0;
      }

  pub reduce_ratio :
      (c : Option ℕ) (cs : Polynomial) (x : Option ℕ)
      → glog c ≡ ok x
      → reduce (c ∷ cs) (some 1 ∷ rest) ≡ (
          subtract (difference x (some 0)) (some 1 ∷ rest) 0 (c ∷ cs) >>= λ num.
          ok (new_polynomial num 0))
  unfolding reduce
  reduce_ratio c cs x e = rw e (
      ap
        (λ r. r >>= λ y.
          subtract (difference x y) (some 1 ∷ rest) 0 (c ∷ cs) >>= λ num. ok (new_polynomial num 0))
        glog_one)

  subtract_first :
      (ratio : Option ℤ) (a : Polynomial)
      → subtract ratio (some 1 ∷ rest) 0 a
        ≡ subtract ratio rest 1 (xor_at a 0 (gexp (shifted (some 0) ratio)))
  unfolding subtract
  subtract_first ratio a =
      ap (λ r. r >>= λ y. subtract ratio rest 1 (xor_at a 0 (gexp (shifted y ratio)))) glog_one

  -- The first round of the subtraction makes the first coefficient `v`.
  reduce_first :
      (c : Option ℕ) (cs : Polynomial) (x : Option ℕ) (v : ℕ)
      → glog c ≡ ok x
      → xor_at (c ∷ cs) 0 (gexp (shifted (some 0) (difference x (some 0)))) ≡ some v ∷ cs
      → reduce (c ∷ cs) (some 1 ∷ rest) ≡ (
          subtract (difference x (some 0)) rest 1 (some v ∷ cs) >>= λ num.
          ok (new_polynomial num 0))
  reduce_first c cs x v e d =
      reduce_ratio c cs x e
      ∙ ap (λ r. r >>= λ num. ok (new_polynomial num 0))
          (subtract_first (difference x (some 0)) (c ∷ cs)
            ∙ ap (subtract (difference x (some 0)) rest 1) d)

  hole_first :
      (cs : Polynomial)
      → xor_at (none ∷ cs) 0 (gexp (shifted (some 0) (difference none (some 0)))) ≡ some 0 ∷ cs
  unfolding xor_at octet gexp shifted difference
  hole_first cs = refl

  byte_first :
      (x : ℕ) (cs : Polynomial) (log : HasLog x)
      → xor_at (some x ∷ cs) 0 (gexp (shifted (some 0) (difference (some log.log) (some 0))))
        ≡ some 0 ∷ cs
  unfolding xor_at octet
  byte_first x cs log = ap (λ (t : ℕ). some t ∷ cs) log.cancel

  pub reduce-IsReduced :
      (c : Option ℕ) (cs : Polynomial)
      → leads_zero (c ∷ cs) ≡ false
      → All IsByte (c ∷ cs)
      → IsReduced (c ∷ cs) (reduce (c ∷ cs) (some 1 ∷ rest))
  unfolding leads_zero octet
  reduce-IsReduced none cs l (h, hs) =
      rw (reduce_first none cs none 0 glog-none (hole_first cs)) (from_rest _ none cs hs)
  reduce-IsReduced (some zero) cs l h = cc
  reduce-IsReduced (some (suc x)) cs l (h, hs) =
      let log = has_log (suc x) (omega arith) h in
      rw (reduce_first (some (suc x)) cs (some log.log) 0 log.is_log (byte_first (suc x) cs log))
        (from_rest _ (some (suc x)) cs hs)
