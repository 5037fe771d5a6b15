-- ===== src/Qr/BitBuffer/Put.antt =====
-- Whole numbers in a buffer: `put`, and a reader that shares nothing with it but `get`.
use native.Mathlib.Nat.{pow-suc, div-div-eq-div-mul}
use study_tech.Base.{
  ℕ, zero, suc, ◌+◌, ◌*◌, ◌/◌, ◌%◌, ◌^◌, ◌≤◌, ◌<◌, bit_and, Bool, ◌≡◌, refl, sym, ap, ◌∙◌, arith,
  ◌==◌, if◌then◌else◌, ◌>>>◌,
}
use study_tech.Base.Bits.{bit_and_mask}
use study_tech.Qr.BitBuffer.{BitBuffer, get, put_bit, put}
use study_tech.Qr.BitBuffer.Laws.{IsValid, put_bit-IsValid, length-put_bit, get-put_bit}

-- The number in the `n` bits from bit `i` on, the highest first.
unfoldable pub read : BitBuffer → ℕ → ℕ → ℕ
read b i zero = 0
read b i (suc n) = (if get b i then 2 ^ n else 0) + read b (i + 1) n

-- `c` is `b` with bits added behind its own.
pub record Extends (b c : BitBuffer) : Type 0 where
  pub valid : IsValid c
  pub longer : b.length ≤ c.length
  pub keeps : (i : ℕ) → i < b.length → get c i ≡ get b i

pub Extends-refl : {b : BitBuffer} → IsValid b → Extends b b
Extends-refl v = record { valid = v; longer = omega arith; keeps = λ i h. refl }

pub Extends-trans : {b c d : BitBuffer} → Extends b c → Extends c d → Extends b d
Extends-trans e f = record {
  valid = f.valid;
  longer = omega arith;
  keeps = λ i h. f.keeps i (omega arith) ∙ e.keeps i h;
}

-- What stood in a buffer is read unchanged after bits are added.
pub read-Extends :
    {b c : BitBuffer} → Extends b c → (i n : ℕ) → i + n ≤ b.length → read c i n ≡ read b i n
unfolding read
read-Extends e i zero h = refl
read-Extends {b} {c} e i (suc n) h =
    rw (e.keeps i (omega arith), read-Extends e (i + 1) n (omega arith)) refl

pub put_bit-Extends : {b : BitBuffer} → IsValid b → (bit : Bool) → Extends b (put_bit b bit)
put_bit-Extends {b} v bit = record {
  valid = put_bit-IsValid v bit;
  longer = omega (arith, length-put_bit v bit);
  keeps = λ i h. ground (arith, get-put_bit v bit i);
}

-- `b` with the number `num` added in `n` bits.
pub record Adds (b : BitBuffer) (num n : ℕ) (c : BitBuffer) : Type 0 where
  pub extends : Extends b c
  pub added : c.length ≡ b.length + n
  pub number : read c b.length n ≡ num % 2 ^ n

digit : (num n : ℕ) → num % 2 ^ suc n ≡ num / 2 ^ n % 2 * 2 ^ n + num % 2 ^ n
digit num n = omega (
  arith,
  pow-suc 2 n,
  ap (λ (t : ℕ). t * (num / 2 ^ n / 2)) (pow-suc 2 n),
  ap (λ (t : ℕ). 2 ^ suc n * t) (half ∙ ap (λ (t : ℕ). num / t) (sym (pow-suc 2 n))),
  ap (λ (t : ℕ). 2 ^ n * t) (by_two (num / 2 ^ n)),
)
  where
    half : num / 2 ^ n / 2 ≡ num / (2 ^ n * 2)
    half = div-div-eq-div-mul num (2 ^ n) 2

    by_two : (x : ℕ) → x ≡ x / 2 * 2 + x % 2
    by_two x = omega arith

weight : (y p : ℕ) → y < 2 → (if y == 1 then p else 0) ≡ y * p
weight zero p h = omega arith
weight (suc zero) p h = omega arith
weight (suc (suc y)) p h = absurd (omega arith)

bit_of :
    (num n : ℕ)
    → num < 2 ^ 32
    → n < 32
    → (if bit_and (num >>> n) 1 == 1 then 2 ^ n else 0) ≡ num / 2 ^ n % 2 * 2 ^ n
bit_of num n h k =
    let cut : num % 2 ^ 32 ≡ num = omega arith in
    let small : n % 32 ≡ n = omega arith in
    rw (bit_and_mask 1 (num >>> n), cut, small) (weight (num / 2 ^ n % 2) (2 ^ n) (omega arith))

number_step :
    {b c : BitBuffer} (v : IsValid b) (bit : Bool) (num n : ℕ)
    → Adds (put_bit b bit) num n c
    → (if bit then 2 ^ n else 0) ≡ num / 2 ^ n % 2 * 2 ^ n
    → read c b.length (suc n) ≡ num % 2 ^ suc n
unfolding read
number_step {b} {c} v bit num n rest e =
    let first : get c b.length ≡ bit =
      rest.extends.keeps b.length (omega (arith, length-put_bit v bit))
      ∙ ground (arith, get-put_bit v bit b.length) in
    let later : read c (b.length + 1) n ≡ num % 2 ^ n = rw (length-put_bit v bit) at rest.number in
    rw (first, later, e) (sym (digit num n))

-- `put` adds the low `n` bits of a number.
pub put-Adds :
    (n num : ℕ) {b : BitBuffer} → num < 2 ^ 32 → n ≤ 32 → IsValid b → Adds b num n (put b num n)
unfolding put
put-Adds zero num {b} h k v = record {
  extends = Extends-refl v;
  added = omega arith;
  number = unfold read in omega arith;
}
put-Adds (suc n) num {b} h k v =
    let bit = bit_and (num >>> n) 1 == 1 in
    let first = put_bit-Extends v bit in
    let rest = put-Adds n num h (omega arith) (put_bit-IsValid v bit) in
    record {
      extends = Extends-trans first rest.extends;
      added = omega (arith, rest.added, length-put_bit v bit);
      number = number_step v bit num n rest (bit_of num n h (omega arith));
    }
