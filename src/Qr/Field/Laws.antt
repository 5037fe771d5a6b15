-- ===== src/Qr/Field/Laws.antt =====
-- The laws of the product of bytes: it is linear, commutative and associative.
use study_tech.Base.{
  ℕ, zero, suc, ◌/◌, ◌%◌, ◌<◌, bit_xor, ◌≡◌, refl, sym, ap, ◌∙◌, arith, ◌==◌, Bool, true, false,
  if◌then◌else◌, ltb, all_below, all_below-at, ==_iff, ltb→lt, Bool-cases, inl, inr,
}
use study_tech.Base.Xor.{bit_xor_self, bit_xor_swap}
use study_tech.Qr.Field.Product.{times_x, product_from, product}

bytes : (ℕ → ℕ → Bool) → Bool
bytes p = all_below 256 (λ a. all_below 256 (p a))

bytes-at : (p : ℕ → ℕ → Bool) (a b : ℕ) → bytes p ≡ true → a < 256 → b < 256 → p a b ≡ true
unfolding bytes
bytes-at p a b h ah bh = all_below-at 256 (p a) b (all_below-at 256 _ a h ah) bh

xor_small : bytes (λ a b. ltb (bit_xor a b) 256) ≡ true
unfolding bytes all_below
xor_small = refl

pub bit_xor-small : (a b : ℕ) → a < 256 → b < 256 → bit_xor a b < 256
bit_xor-small a b ah bh = ltb→lt _ 256 (bytes-at _ a b xor_small ah bh)

times_table : all_below 256 (λ a. ltb (times_x a) 256) ≡ true
unfolding all_below
times_table = refl

times_x-small : (a : ℕ) → a < 256 → times_x a < 256
times_x-small a h = ltb→lt _ 256 (all_below-at 256 _ a times_table h)

times_linear : bytes (λ a b. times_x (bit_xor a b) == bit_xor (times_x a) (times_x b)) ≡ true
unfolding bytes all_below
times_linear = refl

times_x-bit_xor :
    (a b : ℕ) → a < 256 → b < 256 → times_x (bit_xor a b) ≡ bit_xor (times_x a) (times_x b)
times_x-bit_xor a b ah bh = (==_iff _ _).0 (bytes-at _ a b times_linear ah bh)

commutes : bytes (λ a b. product a b == product b a) ≡ true
unfolding bytes all_below product
commutes = refl

pub product_comm : (a b : ℕ) → a < 256 → b < 256 → product a b ≡ product b a
product_comm a b ah bh = (==_iff _ _).0 (bytes-at _ a b commutes ah bh)

if-small : (b : Bool) (x y : ℕ) → x < 256 → y < 256 → (if b then x else y) < 256
if-small true x y h k = h
if-small false x y h k = k

product_from-small : (bits a b : ℕ) → a < 256 → product_from bits a b < 256
product_from-small zero a b h = omega arith
product_from-small (suc bits) a b h =
    let rest = times_x-small _ (product_from-small bits a (b / 2) h) in
    if-small (b % 2 == 1) _ _ (bit_xor-small a _ h rest) rest

pub product-small : (a b : ℕ) → a < 256 → product a b < 256
unfolding product
product-small a b h = product_from-small 8 a b h

product_from-zero : (bits a : ℕ) → product_from bits a 0 ≡ 0
product_from-zero zero a = refl
product_from-zero (suc bits) a = ap times_x (product_from-zero bits a)

pub product-zero : (a : ℕ) → product a 0 ≡ 0
unfolding product
product-zero a = product_from-zero 8 a

-- Linear in the first factor.
product_from-bit_xor :
    (bits a b c : ℕ)
    → a < 256
    → b < 256
    → product_from bits (bit_xor a b) c ≡ bit_xor (product_from bits a c) (product_from bits b c)
product_from-bit_xor zero a b c ah bh = sym (bit_xor_self 0)
product_from-bit_xor (suc bits) a b c ah bh =
    let rest =
      ap times_x (product_from-bit_xor bits a b (c / 2) ah bh)
      ∙ times_x-bit_xor _ _ (product_from-small bits a (c / 2) ah)
          (product_from-small bits b (c / 2) bh) in
    elim (Bool-cases (c % 2 == 1)) [
      | inl e ↦ rw e (ap (bit_xor (bit_xor a b)) rest ∙ bit_xor_swap a b _ _)
      | inr e ↦ rw e rest
    ]

pub bit_xor-product :
    (a b c : ℕ) → a < 256 → b < 256 → product (bit_xor a b) c ≡ bit_xor (product a c) (product b c)
unfolding product
bit_xor-product a b c ah bh = product_from-bit_xor 8 a b c ah bh

pub product-bit_xor :
    (c a b : ℕ)
    → c < 256
    → a < 256
    → b < 256
    → product c (bit_xor a b) ≡ bit_xor (product c a) (product c b)
product-bit_xor c a b ch ah bh =
    product_comm c (bit_xor a b) ch (bit_xor-small a b ah bh)
    ∙ bit_xor-product a b c ah bh
    ∙ rw (product_comm a c ah ch, product_comm b c bh ch) refl

times_x-product_from :
    (bits u c : ℕ) → u < 256 → product_from bits (times_x u) c ≡ times_x (product_from bits u c)
times_x-product_from zero u c h = refl
times_x-product_from (suc bits) u c h =
    let p = product_from bits u (c / 2) in
    let small = product_from-small bits u (c / 2) h in
    let rest = ap times_x (times_x-product_from bits u (c / 2) h) in
    elim (Bool-cases (c % 2 == 1)) [
      | inl e ↦ rw e (
          ap (bit_xor (times_x u)) rest
          ∙ sym (times_x-bit_xor u (times_x p) h (times_x-small p small)))
      | inr e ↦ rw e rest
    ]

product-times_x : (c u : ℕ) → c < 256 → u < 256 → product c (times_x u) ≡ times_x (product c u)
unfolding product
product-times_x c u ch uh =
    product_comm c (times_x u) ch (times_x-small u uh)
    ∙ times_x-product_from 8 u c uh
    ∙ ap times_x (product_comm u c uh ch)

product_from-product :
    (bits c a x : ℕ)
    → c < 256
    → a < 256
    → product_from bits (product c a) x ≡ product c (product_from bits a x)
product_from-product zero c a x ch ah = sym (product-zero c)
product_from-product (suc bits) c a x ch ah =
    let p = product_from bits a (x / 2) in
    let small = product_from-small bits a (x / 2) ah in
    let rest =
      ap times_x (product_from-product bits c a (x / 2) ch ah)
      ∙ sym (product-times_x c p ch small) in
    elim (Bool-cases (x % 2 == 1)) [
      | inl e ↦ rw e (
          ap (bit_xor (product c a)) rest
          ∙ sym (product-bit_xor c a (times_x p) ch ah (times_x-small p small)))
      | inr e ↦ rw e rest
    ]

pub product_assoc :
    (c a x : ℕ) → c < 256 → a < 256 → product (product c a) x ≡ product c (product a x)
unfolding product
product_assoc c a x ch ah = product_from-product 8 c a x ch ah
