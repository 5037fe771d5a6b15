-- ===== src/Qr/Polynomial/Value.antt =====
-- The value of a polynomial, and of one from which a multiple of another is taken away.
use study_tech.Base.{
  ℕ, zero, suc, ◌≤◌, ◌<◌, bit_xor, ◌≡◌, refl, sym, ap, ◌∙◌, arith, [], ◌∷◌, ◌++◌, none, some, All,
  length,
}
use study_tech.Base.Xor.{bit_xor_swap, bit_xor_assoc, bit_xor-zero}
use study_tech.Qr.Field.{octet}
use study_tech.Qr.Field.Product.{product}
use study_tech.Qr.Field.Laws.{
  bit_xor-small, product-small, product_comm, product-zero, bit_xor-product, product_assoc,
}
use study_tech.Qr.Polynomial.{Polynomial, holes, strip}
use study_tech.Qr.Polynomial.Generator.{value_from}
use study_tech.Qr.Polynomial.Subtract.{IsByte}

-- `cs` and `c` times `es`, added from the highest coefficient on.
unfoldable pub combine : ℕ → Polynomial → Polynomial → Polynomial
combine c [] cs = cs
combine c (e ∷ es) [] = []
combine c (e ∷ es) (a ∷ cs) = some (bit_xor (octet a) (product (octet e) c)) ∷ combine c es cs

abbrev pub zeros : ℕ → Polynomial
zeros zero = []
zeros (suc n) = some 0 ∷ zeros n

pub zero-product : (c : ℕ) → c < 256 → product 0 c ≡ 0
zero-product c h = product_comm 0 c (omega arith) h ∙ product-zero c

module _ (x : ℕ) (xh : x < 256) where
  swap_factors : (w c : ℕ) → w < 256 → c < 256 → product (product w c) x ≡ product (product w x) c
  swap_factors w c wh ch =
      ap (λ (t : ℕ). product t x) (product_comm w c wh ch)
      ∙ product_assoc c w x ch wh
      ∙ product_comm c (product w x) ch (product-small w x wh)

  step :
      (u w c a e : ℕ)
      → u < 256
      → w < 256
      → c < 256
      → a < 256
      → e < 256
      → bit_xor (product (bit_xor u (product w c)) x) (bit_xor a (product e c))
        ≡ bit_xor (bit_xor (product u x) a) (product (bit_xor (product w x) e) c)
  step u w c a e uh wh ch ah eh =
      ap (λ (t : ℕ). bit_xor t (bit_xor a (product e c)))
        (bit_xor-product u (product w c) x uh (product-small w c wh)
          ∙ ap (bit_xor (product u x)) (swap_factors w c wh ch))
      ∙ bit_xor_swap (product u x) (product (product w x) c) a (product e c)
      ∙ ap (bit_xor (bit_xor (product u x) a))
          (sym (bit_xor-product (product w x) e c (product-small w x wh) eh))

  -- Where `es` is 0, a multiple of it does not change a value.
  pub value_from-combine :
      (c u w : ℕ) (es cs : Polynomial)
      → c < 256
      → u < 256
      → w < 256
      → All IsByte es
      → All IsByte cs
      → length es ≤ length cs
      → value_from x w es ≡ 0
      → value_from x (bit_xor u (product w c)) (combine c es cs) ≡ value_from x u cs
  unfolding value_from combine octet
  value_from-combine c u w [] cs ch uh wh eb ab h root =
      ap (λ (t : ℕ). value_from x t cs)
        (rw root (ap (bit_xor u) (zero-product c ch) ∙ bit_xor-zero u))
  value_from-combine c u w (e ∷ es) [] ch uh wh eb ab h root = absurd (omega arith)
  value_from-combine c u w (e ∷ es) (a ∷ cs) ch uh wh (eh, eb) (ah, ab) h root =
      let u2 = bit_xor (product u x) (octet a) in
      let w2 = bit_xor (product w x) (octet e) in
      ap (λ (t : ℕ). value_from x t (combine c es cs))
        (step u w c (octet a) (octet e) uh wh ch ah eh)
      ∙ value_from-combine c u2 w2 es cs ch (bit_xor-small _ _ (product-small u x uh) ah)
          (bit_xor-small _ _ (product-small w x wh) eh) eb ab (omega arith) root

  first_zero : (p : Polynomial) → value_from x 0 (some 0 ∷ p) ≡ value_from x 0 p
  unfolding value_from octet
  first_zero p = ap (λ (t : ℕ). value_from x t p) (bit_xor-zero (product 0 x) ∙ zero-product x xh)

  pub value_from-strip :
      (p q : Polynomial) → value_from x 0 (strip p ++ q) ≡ value_from x 0 (p ++ q)
  unfolding strip
  value_from-strip [] q = refl
  value_from-strip (none ∷ p) q = refl
  value_from-strip (some zero ∷ p) q = value_from-strip p q ∙ sym (first_zero (p ++ q))
  value_from-strip (some (suc n) ∷ p) q = refl

  pub value_from-append :
      (acc : ℕ) (p q : Polynomial) → value_from x acc (p ++ q) ≡ value_from x (value_from x acc p) q
  unfolding value_from
  value_from-append acc [] q = refl
  value_from-append acc (c ∷ p) q = value_from-append (bit_xor (product acc x) (octet c)) p q

  pub value_from-small :
      (acc : ℕ) (p : Polynomial) → acc < 256 → All IsByte p → value_from x acc p < 256
  unfolding value_from
  value_from-small acc [] h b = h
  value_from-small acc (c ∷ p) h (ch, b) =
      value_from-small (bit_xor (product acc x) (octet c)) p
        (bit_xor-small _ _ (product-small acc x h) ch) b

  -- Over as many `undefined` elements, and the elements by themselves.
  pub value_from-holes :
      (acc w : ℕ) (p : Polynomial)
      → acc < 256
      → w < 256
      → All IsByte p
      → value_from x (bit_xor acc w) p
        ≡ bit_xor (value_from x acc (holes (length p))) (value_from x w p)
  unfolding value_from octet
  value_from-holes acc w [] h k b = refl
  value_from-holes acc w (c ∷ p) h k (ch, b) =
      ap (λ (t : ℕ). value_from x t p)
        (ap (λ (t : ℕ). bit_xor t (octet c)) (bit_xor-product acc w x h k)
          ∙ bit_xor_assoc (product acc x) (product w x) (octet c)
          ∙ ap (λ (t : ℕ). bit_xor t (bit_xor (product w x) (octet c)))
              (sym (bit_xor-zero (product acc x))))
      ∙ value_from-holes (bit_xor (product acc x) 0) (bit_xor (product w x) (octet c)) p
          (bit_xor-small _ _ (product-small acc x h) (omega arith))
          (bit_xor-small _ _ (product-small w x k) ch) b

  pub value_from-zeros : (n : ℕ) (p : Polynomial) → value_from x 0 (zeros n ++ p) ≡ value_from x 0 p
  value_from-zeros zero p = refl
  value_from-zeros (suc n) p = first_zero (zeros n ++ p) ∙ value_from-zeros n p
