-- ===== src/Qr/Polynomial/Remainder.antt =====
-- `mod` keeps the value at a root of the divisor.
use study_tech.Base.{
  ℕ, zero, suc, ◌+◌, ◌≤◌, ◌<◌, bit_xor, ◌≡◌, refl, sym, ap, ◌∙◌, arith, [], ◌∷◌, Option, some, All,
  length, ltb, false, Bool-cases, inl, inr,
}
use study_tech.Base.Xor.{zero-bit_xor}
use study_tech.Qr.Result.{Result, ok, ◌>>=◌, >>=_ok}
use study_tech.Qr.Field.{octet}
use study_tech.Qr.Polynomial.{Polynomial, new_polynomial, reduce, modulo_from, modulo}
use study_tech.Qr.Polynomial.Generator.{Nonzero, IsGenerator, value_from}
use study_tech.Qr.Polynomial.Subtract.{IsByte}
use study_tech.Qr.Polynomial.Reduce.{
  leads_zero, new_polynomial-leads, new_polynomial-IsByte, reduce-IsReduced,
}
use study_tech.Qr.Polynomial.Value.{
  combine, zero-product, value_from-combine, value_from-strip, value_from-append,
}
use study_tech.Qr.Polynomial.Combine.{reduce-combine}

ok-injective : {A : Type 0} {a b : A} → ok a ≡ ok b → a ≡ b
ok-injective e = cc

nonzero-IsByte : (p : Polynomial) → All Nonzero p → All IsByte p
unfolding octet
nonzero-IsByte [] h = tt
nonzero-IsByte (c ∷ cs) ((x, is, lo, hi), hs) = (rw is hi, nonzero-IsByte cs hs)

module _ (x : ℕ) (xh : x < 256) where
  pub value_from-new_polynomial :
      (p : Polynomial) → value_from x 0 (new_polynomial p 0) ≡ value_from x 0 p
  unfolding new_polynomial value_from
  value_from-new_polynomial p = value_from-strip x xh p [] ∙ value_from-append x xh 0 p []

  module _ (rest : Polynomial) (nonzero : All Nonzero rest)
      (root : value_from x 0 (some 1 ∷ rest) ≡ 0) where
    reduce_value :
        (c : Option ℕ) (cs num : Polynomial)
        → leads_zero (c ∷ cs) ≡ false
        → All IsByte (c ∷ cs)
        → length rest ≤ length cs
        → reduce (c ∷ cs) (some 1 ∷ rest) ≡ ok num
        → value_from x 0 num ≡ value_from x 0 (c ∷ cs)
    unfolding octet
    reduce_value c cs num l (b, bs) h e =
        let is : new_polynomial (combine (octet c) (some 1 ∷ rest) (c ∷ cs)) 0 ≡ num =
          ok-injective (sym (reduce-combine rest nonzero c cs l b h) ∙ e) in
        ap (value_from x 0) (sym is)
        ∙ value_from-new_polynomial (combine (octet c) (some 1 ∷ rest) (c ∷ cs))
        ∙ ap (λ (t : ℕ). value_from x t (combine (octet c) (some 1 ∷ rest) (c ∷ cs)))
            (sym (ap (bit_xor 0) (zero-product (octet c) b) ∙ zero-bit_xor 0))
        ∙ value_from-combine x xh (octet c) 0 0 (some 1 ∷ rest) (c ∷ cs) b (omega arith)
            (omega arith) (omega arith, nonzero-IsByte rest nonzero) (b, bs) (omega arith) root

    KeepsValue : (Polynomial → Result (Option Polynomial)) → Polynomial → Type 0
    KeepsValue f a = (r : Polynomial) → f a ≡ ok (some r) → value_from x 0 r ≡ value_from x 0 a

    after_value :
        (a : Polynomial) (more : Polynomial → Result (Option Polynomial)) (r : Polynomial)
        → leads_zero a ≡ false
        → All IsByte a
        → suc (length rest) ≤ length a
        → ((num : Polynomial) → leads_zero num ≡ false → All IsByte num → KeepsValue more num)
        → (reduce a (some 1 ∷ rest) >>= more) ≡ ok (some r)
        → value_from x 0 r ≡ value_from x 0 a
    unfolding KeepsValue
    after_value [] more r l b h ih e = absurd (omega arith)
    after_value (c ∷ cs) more r l b h ih e =
        let d = reduce-IsReduced rest nonzero c cs l b in
        ih d.num d.leads d.bytes r (sym (>>=_ok more d.result refl) ∙ e)
        ∙ reduce_value c cs d.num l b (omega arith) d.result

    modulo_from_value :
        (fuel : ℕ) (a r : Polynomial)
        → leads_zero a ≡ false
        → All IsByte a
        → modulo_from fuel a (some 1 ∷ rest) ≡ ok (some r)
        → value_from x 0 r ≡ value_from x 0 a
    unfolding modulo_from KeepsValue
    modulo_from_value zero a r l b e = cc
    modulo_from_value (suc fuel) a r l b e =
        elim (Bool-cases (ltb (length a) (suc (length rest)))) [
          | inl d ↦ ap (value_from x 0) (same a r (rw d at e))
          | inr d ↦
              after_value a (λ num. modulo_from fuel num (some 1 ∷ rest)) r l b (ground arith)
                (λ num k c s f. modulo_from_value fuel num s k c f) (rw d at e)
        ]
      where
        same : (a r : Polynomial) → ok (some a) ≡ ok (some r) → r ≡ a
        same a r e = cc

nonzero_tail : (g rest : Polynomial) → g ≡ some 1 ∷ rest → All Nonzero g → All Nonzero rest
nonzero_tail g rest e h = (all_cons (rw e at h)).1
  where
    all_cons : All Nonzero (some 1 ∷ rest) → Nonzero (some 1) × All Nonzero rest
    all_cons h = h

-- At a root of a generator, the remainder has the value of the polynomial.
pub modulo_value :
    (x : ℕ)
    → x < 256
    → {n : ℕ} {g : Polynomial} (num : Polynomial) (shift : ℕ) (r : Polynomial) → IsGenerator n g
    → All IsByte num
    → value_from x 0 g ≡ 0
    → modulo (new_polynomial num shift) g ≡ ok (some r)
    → value_from x 0 r ≡ value_from x 0 (new_polynomial num shift)
unfolding modulo
modulo_value x xh {n} {g} num shift r gen b root e =
    let (rest, is) = gen.leads in
    modulo_from_value x xh rest (nonzero_tail g rest is gen.bytes) (rw is at root)
      (length (new_polynomial num shift) + 1) (new_polynomial num shift) r
      (new_polynomial-leads num shift) (new_polynomial-IsByte num shift b) (rw is at e)
