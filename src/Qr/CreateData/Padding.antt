-- ===== src/Qr/CreateData/Padding.antt =====
-- The padding: the terminator, the zero bits up to a byte, and PAD0 and PAD1 in turn. The loops end.
use native.Mathlib.Nat.{one-le-pow}
use study_tech.Base.{
  ℕ, zero, suc, ◌+◌, ◌-◌, ◌*◌, ◌/◌, ◌%◌, ◌≤◌, ◌<◌, List, [], ◌∷◌, ◌≡◌, refl, ◌∙◌, arith, length,
  true, false, Option, some, ltb, leb, ◌==◌, Bool-cases, inl, inr, ==_iff,
}
use study_tech.Qr.BitBuffer.{BitBuffer, get, put, put_bit}
use study_tech.Qr.BitBuffer.Laws.{IsValid, put_bit-IsValid, length-put_bit, get-put_bit}
use study_tech.Qr.BitBuffer.Put.{
  read, Extends, Extends-refl, Extends-trans, put-Adds, put_bit-Extends,
}
use study_tech.Qr.CreateData.{align, pad, pad_aligned, terminate, fill}
use study_tech.Qr.CreateData.Bytes.{Holds, put-byte, AddsBytes, AddsBytes-cons, AddsBytes-nil}

-- `c` is `b` with zero bits added up to bit `n`.
pub record AddsZeros (b : BitBuffer) (n : ℕ) (c : BitBuffer) : Type 0 where
  pub extends : Extends b c
  pub added : c.length ≡ n
  pub zeros : (i : ℕ) → b.length ≤ i → i < n → get c i ≡ false

AddsZeros-trans :
    {b c d : BitBuffer} {m n : ℕ} → AddsZeros b m c → AddsZeros c n d → AddsZeros b n d
AddsZeros-trans {b} {c} {d} {m} {n} p q = record {
  extends = Extends-trans p.extends q.extends;
  added = q.added;
  zeros = zeros;
}
  where
    zeros : (i : ℕ) → b.length ≤ i → i < n → get d i ≡ false
    zeros i lo hi = elim (Bool-cases (ltb i c.length)) [
      | inl old ↦ q.extends.keeps i (ground arith) ∙ p.zeros i lo (ground (arith, p.added))
      | inr fresh ↦ q.zeros i (ground arith) hi
    ]

AddsZeros-nil : {b : BitBuffer} → IsValid b → AddsZeros b b.length b
AddsZeros-nil v = record {
  extends = Extends-refl v;
  added = refl;
  zeros = λ i lo hi. absurd (omega arith);
}

AddsZeros-bit : {b : BitBuffer} → IsValid b → AddsZeros b (b.length + 1) (put_bit b false)
AddsZeros-bit {b} v = record {
  extends = put_bit-Extends v false;
  added = length-put_bit v false;
  zeros = λ i lo hi. ground (arith, get-put_bit v false i);
}

-- A number that reads as 0 has only zero bits.
read-zero :
    (b : BitBuffer) (i n : ℕ) → read b i n ≡ 0 → (j : ℕ) → i ≤ j → j < i + n → get b j ≡ false
unfolding read
read-zero b i zero e j lo hi = absurd (omega arith)
read-zero b i (suc n) e j lo hi = elim (Bool-cases (get b i)) [
  | inl set ↦ absurd (omega (arith, rw set at e, one-le-pow n 2 (omega arith)))
  | inr first ↦ elim (Bool-cases (j == i)) [
    | inl here ↦ rw ((==_iff j i).0 here) first
    | inr later ↦
        read-zero b (i + 1) n (omega (arith, rw first at e)) j (ground arith) (omega arith)
  ]
]

AddsZeros-put : {b : BitBuffer} → IsValid b → AddsZeros b (b.length + 4) (put b 0 4)
AddsZeros-put {b} v =
    let a = put-Adds 4 0 (omega arith) (omega arith) v in
    record {
      extends = a.extends;
      added = a.added;
      zeros = λ i lo hi. read-zero (put b 0 4) b.length 4 (a.number) i lo hi;
    }

align-AddsZeros :
    (fuel : ℕ) {b : BitBuffer}
    → (7 * b.length) % 8 < fuel
    → IsValid b
    → (c : BitBuffer) × (align fuel b ≡ some c) × AddsZeros b ((b.length + 7) / 8 * 8) c
unfolding align
align-AddsZeros zero h v = absurd (omega arith)
align-AddsZeros (suc fuel) {b} h v = elim (Bool-cases (b.length % 8 == 0)) [
  | inl done ↦
      let full : (b.length + 7) / 8 * 8 ≡ b.length = ground arith in
      (b, rw done, rw full (AddsZeros-nil v))
  | inr more ↦
      let (c, e, rest) =
        align-AddsZeros fuel {b = put_bit b false} (ground (arith, length-put_bit v false))
          (put_bit-IsValid v false) in
      let same : ((put_bit b false).length + 7) / 8 * 8 ≡ (b.length + 7) / 8 * 8 =
        ground (arith, length-put_bit v false) in
      (c, rw (more, e) refl, AddsZeros-trans (AddsZeros-bit v) (rw same at rest))
]

-- PAD0 and PAD1 in turn.
abbrev pub pads : ℕ → List ℕ
pads zero = []
pads (suc zero) = 0xEC ∷ []
pads (suc (suc n)) = 0xEC ∷ 0x11 ∷ pads n

pad-AddsBytes :
    (fuel n capacity : ℕ) {b : BitBuffer}
    → n < fuel
    → b.length + 8 * n ≡ capacity
    → IsValid b
    → (c : BitBuffer) × (pad fuel capacity b ≡ some c) × AddsBytes b (pads n) c
unfolding pad
pad-AddsBytes zero n capacity h e v = absurd (omega arith)
pad-AddsBytes (suc fuel) zero capacity {b} h e v =
    let full : leb capacity b.length ≡ true = ground arith in (b, rw full, AddsBytes-nil v)
pad-AddsBytes (suc fuel) (suc zero) capacity {b} h e v =
    let first = put-byte 0xEC (omega arith) v in
    let room : leb capacity b.length ≡ false = ground arith in
    let full : leb capacity (put b 0xEC 8).length ≡ true = ground (arith, first.added) in
    (
      put b 0xEC 8,
      rw (room, full),
      AddsBytes-cons (omega arith) first (AddsBytes-nil first.extends.valid),
    )
pad-AddsBytes (suc fuel) (suc (suc n)) capacity {b} h e v =
    let first = put-byte 0xEC (omega arith) v in
    let second = put-byte 0x11 (omega arith) first.extends.valid in
    let room : leb capacity b.length ≡ false = ground arith in
    let more : leb capacity (put b 0xEC 8).length ≡ false = ground (arith, first.added) in
    let (c, e', rest) =
      pad-AddsBytes fuel n capacity (omega arith) (omega (arith, first.added, second.added))
        second.extends.valid in
    (
      c,
      rw (room, more, e') refl,
      AddsBytes-cons (omega arith) first (AddsBytes-cons (omega arith) second rest),
    )

-- `c` is `b` with zero bits up to a byte and then PAD0 and PAD1 in turn, up to `capacity` bits.
pub record IsFilled (b : BitBuffer) (capacity : ℕ) (c : BitBuffer) : Type 0 where
  pub extends : Extends b c
  pub full : c.length ≡ capacity
  pub first : ℕ
  pub below : (b.length ≤ first) × (first ≤ capacity) × (first < b.length + 12) × (first % 8 ≡ 0)
  pub zeros : (i : ℕ) → b.length ≤ i → i < first → get c i ≡ false
  pub padded : Holds c first (pads ((capacity - first) / 8))

terminate-AddsZeros :
    {b : BitBuffer} (capacity : ℕ)
    → b.length ≤ capacity
    → IsValid b
    → (n : ℕ) × AddsZeros b n (terminate capacity b) × (n ≤ capacity) × (n ≤ b.length + 4)
unfolding terminate
terminate-AddsZeros {b} capacity h v = elim (Bool-cases (leb (b.length + 4) capacity)) [
  | inl fits ↦ rw fits (b.length + 4, AddsZeros-put v, ground arith, omega arith)
  | inr over ↦ rw over (b.length, AddsZeros-nil v, h, omega arith)
]

length-pads : (n : ℕ) → length (pads n) ≡ n
length-pads zero = refl
length-pads (suc zero) = refl
length-pads (suc (suc n)) = omega (arith, length-pads n)

module _ {b d a c : BitBuffer} {n capacity : ℕ} (whole : capacity % 8 ≡ 0) where
  IsFilled-parts :
      AddsZeros b n d
      → n ≤ capacity
      → n ≤ b.length + 4
      → AddsZeros d ((d.length + 7) / 8 * 8) a
      → AddsBytes a (pads ((capacity - a.length) / 8)) c
      → IsFilled b capacity c
  IsFilled-parts ended over near aligned padded = record {
    extends = Extends-trans both.extends padded.extends;
    full =
        omega (
          arith,
          padded.added,
          length-pads ((capacity - a.length) / 8),
          ended.added,
          aligned.added,
        );
    first = a.length;
    below = omega (arith, ended.added, aligned.added, ended.extends.longer);
    zeros = λ i lo hi. padded.extends.keeps i hi ∙ both.zeros i lo (omega (arith, aligned.added));
    padded = padded.held;
  }
    where
      both : AddsZeros b ((d.length + 7) / 8 * 8) a
      both = AddsZeros-trans ended aligned

abbrev Filled : BitBuffer → ℕ → Option BitBuffer → Type 0
Filled b capacity r = (c : BitBuffer) × (r ≡ some c) × IsFilled b capacity c

module _ {capacity : ℕ} (whole : capacity % 8 ≡ 0) {b : BitBuffer} {n : ℕ} (over : n ≤ capacity)
    (near : n ≤ b.length + 4) where
  pad-Filled :
      {d a : BitBuffer}
      → AddsZeros b n d
      → AddsZeros d ((d.length + 7) / 8 * 8) a
      → (c : BitBuffer) × (pad (capacity + 1) capacity a ≡ some c)
        × AddsBytes a (pads ((capacity - a.length) / 8)) c
      → Filled b capacity (pad (capacity + 1) capacity a)
  pad-Filled ended aligned (c, e, padded) =
      (c, e, IsFilled-parts whole ended over near aligned padded)

  align-Filled :
      {d : BitBuffer}
      → AddsZeros b n d
      → (a : BitBuffer) × (align 8 d ≡ some a) × AddsZeros d ((d.length + 7) / 8 * 8) a
      → Filled b capacity (pad_aligned capacity (align 8 d))
  unfolding pad_aligned
  align-Filled {d} ended (a, e, aligned) = rw e (
      pad-Filled ended aligned (
        pad-AddsBytes (capacity + 1) ((capacity - a.length) / 8) capacity {b = a} (omega arith)
          (omega (arith, ended.added, aligned.added)) aligned.extends.valid))

-- The loops end, and fill the buffer to its capacity in whole bytes.
pub fill-IsFilled :
    (capacity : ℕ) {b : BitBuffer}
    → capacity % 8 ≡ 0
    → b.length ≤ capacity
    → IsValid b
    → Filled b capacity (fill capacity b)
unfolding fill
fill-IsFilled capacity {b} whole h v =
    let (n, ended, over, near) = terminate-AddsZeros {b = b} capacity h v in
    align-Filled whole over near ended
      (align-AddsZeros 8 {b = terminate capacity b} (omega arith) ended.extends.valid)
