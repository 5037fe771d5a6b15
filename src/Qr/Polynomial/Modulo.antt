-- ===== src/Qr/Polynomial/Modulo.antt =====
-- `mod` ends, throws nothing, and leaves bytes, fewer than the divisor has.
use study_tech.Base.{
  ℕ, zero, suc, ◌≤◌, ◌<◌, ◌≡◌, refl, arith, sym, false, ltb, [], ◌∷◌, Option, some, All, length,
  ltb→lt, inl, inr, Bool-cases,
}
use study_tech.Qr.Result.{Result, ok, ◌>>=◌}
use study_tech.Qr.Polynomial.{Polynomial, new_polynomial, reduce, modulo_from, modulo}
use study_tech.Qr.Polynomial.Generator.{Nonzero, IsGenerator}
use study_tech.Qr.Polynomial.Subtract.{IsByte}
use study_tech.Qr.Polynomial.Reduce.{
  leads_zero, new_polynomial-leads, new_polynomial-IsByte, reduce-IsReduced,
}

-- A remainder of bytes, shorter than `len`.
pub record IsRemainder (len : ℕ) (r : Result (Option Polynomial)) : Type 0 where
  pub num : Polynomial
  pub result : r ≡ ok (some num)
  pub less : length num < len
  pub bytes : All IsByte num

module _ (rest : Polynomial) (nonzero : All Nonzero rest) where
  after_reduce :
      (a : Polynomial) (more : Polynomial → Result (Option Polynomial))
      → leads_zero a ≡ false
      → All IsByte a
      → 1 ≤ length a
      → ((num : Polynomial)
          → leads_zero num ≡ false
          → All IsByte num
          → length num < length a
          → IsRemainder (suc (length rest)) (more num))
      → IsRemainder (suc (length rest)) (reduce a (some 1 ∷ rest) >>= more)
  after_reduce [] more l h p ih = absurd (omega arith)
  after_reduce (c ∷ cs) more l h p ih =
      let r = reduce-IsReduced rest nonzero c cs l h in
      rw r.result (ih r.num r.leads r.bytes r.less)

  modulo_from-IsRemainder :
      (fuel : ℕ) (a : Polynomial)
      → leads_zero a ≡ false
      → All IsByte a
      → length a < fuel
      → IsRemainder (suc (length rest)) (modulo_from fuel a (some 1 ∷ rest))
  unfolding modulo_from
  modulo_from-IsRemainder zero a l h f = absurd (omega arith)
  modulo_from-IsRemainder (suc fuel) a l h f =
      elim (Bool-cases (ltb (length a) (suc (length rest)))) [
        | inl e ↦ rw e (record { num = a; result = refl; less = ltb→lt _ _ e; bytes = h })
        | inr e ↦ rw e (
            after_reduce a (λ num. modulo_from fuel num (some 1 ∷ rest)) l h (ground arith)
              (λ num k b less. modulo_from-IsRemainder fuel num k b (omega arith)))
      ]

rest-Nonzero : (g rest : Polynomial) → g ≡ some 1 ∷ rest → All Nonzero g → All Nonzero rest
rest-Nonzero [] rest e h = cc
rest-Nonzero (c ∷ cs) rest e (h, hs) = rw (sym (tail_eq e)) hs
  where
    tail_eq : c ∷ cs ≡ some 1 ∷ rest → cs ≡ rest
    tail_eq e = cc

-- Modulo a generator, a polynomial of bytes that the constructor made has a remainder of bytes,
-- which is shorter than the generator.
pub modulo-IsRemainder :
    {n : ℕ} {g : Polynomial} (num : Polynomial) (shift : ℕ)
    → IsGenerator n g
    → All IsByte num
    → IsRemainder (length g) (modulo (new_polynomial num shift) g)
unfolding modulo
modulo-IsRemainder {n} {g} num shift gen h =
    let (rest, e) = gen.leads in
    rw e (
      modulo_from-IsRemainder rest (rest-Nonzero g rest e gen.bytes) _ (new_polynomial num shift)
        (new_polynomial-leads num shift) (new_polynomial-IsByte num shift h) (omega arith))
