-- ===== src/Qr/BitBuffer/Laws.antt =====
-- The bits of a buffer: what `putBit` and `put` append, and what `get` reads back.
use study_tech.Base.{
  ℕ, zero, suc, ◌+◌, ◌-◌, ◌/◌, ◌%◌, ◌<◌, bit_or, Bool, true, false, List, [], ◌∷◌, ◌++◌, ◌≡◌, refl,
  ◌∙◌, inl, inr, arith, get_or, leb, ◌==◌, if◌then◌else◌, ◌>>>◌, Bool-cases, ==_iff,
}
use study_tech.Base.Lists
use study_tech.Qr.BitBuffer.{BitBuffer, new, get, grow, put_bit}
use study_tech.Qr.BitBuffer.Byte.{IsClean, stored, IsStored, stored_lem}

-- The bytes are as many as the bits need, and hold nothing behind the last bit.
pub record IsValid (b : BitBuffer) : Type 0 where
  pub fits : Lists.length b.buffer ≡ (b.length + 7) / 8
  pub bytes : (i : ℕ) → get_or b.buffer i 0 < 256
  pub clean : IsClean (get_or b.buffer (b.length / 8) 0) (b.length % 8)

pub new-IsValid : IsValid new
new-IsValid = record { fits = refl; bytes = λ i. omega arith; clean = refl }

get_or-grow : (xs : List ℕ) (n i : ℕ) → get_or (grow xs n) i 0 ≡ get_or xs i 0
unfolding grow
get_or-grow xs n i = elim (Bool-cases (leb (Lists.length xs) n)) [
  | inr full ↦ rw full
  | inl more ↦ rw more (pushed xs i)
]
  where
    pushed : (ys : List ℕ) (j : ℕ) → get_or (ys ++ 0 ∷ []) j 0 ≡ get_or ys j 0
    pushed [] zero = refl
    pushed [] (suc j) = refl
    pushed (y ∷ ys) zero = refl
    pushed (y ∷ ys) (suc j) = pushed ys j

length-grow :
    (xs : List ℕ) (n : ℕ)
    → Lists.length (grow xs n)
      ≡ (if leb (Lists.length xs) n then Lists.length xs + 1 else Lists.length xs)
unfolding grow
length-grow xs n = elim (Bool-cases (leb (Lists.length xs) n)) [
  | inr full ↦ rw full
  | inl more ↦ rw more (Lists.length-append xs (0 ∷ []))
]

module _ {b : BitBuffer} (v : IsValid b) where
  open b use {buffer}

  abbrev at : ℕ
  at = b.length / 8

  length-grown : Lists.length (grow buffer at) ≡ at + 1
  length-grown = ground (arith, length-grow buffer at, v.fits)

  -- The byte at index `i` after `putBit`.
  byte-put_bit :
      (bit : Bool) (i : ℕ)
      → get_or (put_bit b bit).buffer i 0
        ≡ (if i == at then stored (b.length % 8) (get_or buffer at 0) bit else get_or buffer i 0)
  unfolding put_bit stored
  byte-put_bit false i = ground (arith, get_or-grow buffer at i)
  byte-put_bit true i =
      let grown = grow buffer at in
      let w = bit_or (get_or grown at 0) (0x80 >>> (b.length % 8)) in
      ground (
        arith,
        length-grown,
        Lists.get_or-set_self grown at w 0,
        Lists.get_or-set_ne grown at i w 0,
        get_or-grow buffer at i,
        get_or-grow buffer at at,
      )

  buffer-put_bit : (bit : Bool) → Lists.length (put_bit b bit).buffer ≡ at + 1
  unfolding put_bit
  buffer-put_bit false = length-grown
  buffer-put_bit true = Lists.length-set _ _ _ ∙ length-grown

  IsStored-here : (bit : Bool) (j : ℕ) → j < 8 → IsStored bit (b.length % 8) (get_or buffer at 0) j
  IsStored-here bit j h =
      stored_lem bit (b.length % 8) (get_or buffer at 0) j (omega arith) (v.bytes at) h v.clean

  bytes-put_bit : (bit : Bool) (i : ℕ) → get_or (put_bit b bit).buffer i 0 < 256
  bytes-put_bit bit i = ground (arith, byte-put_bit bit i, IsStored-here bit 0, v.bytes i)

  IsClean-put_bit :
      (bit : Bool)
      → IsClean (get_or (put_bit b bit).buffer ((b.length + 1) / 8) 0) ((b.length + 1) % 8)
  IsClean-put_bit bit = elim (Bool-cases (b.length % 8 == 7)) [
    | inl full ↦
        let next : (b.length + 1) / 8 ≡ at + 1 = ground arith in
        let place : (b.length + 1) % 8 ≡ 0 = ground arith in
        rw (
          next,
          place,
          Lists.get_or_out (put_bit b bit).buffer (at + 1) 0 (omega (arith, buffer-put_bit bit)),
        )
    | inr room ↦
        let k = b.length % 8 in
        let next : (b.length + 1) / 8 ≡ at = ground arith in
        let place : 8 - (b.length + 1) % 8 ≡ 7 - k = ground arith in
        rw (next, place, byte-put_bit bit at, (==_iff at at).1 refl)
          (IsStored-here bit 0 (omega arith)).clean
  ]

  pub length-put_bit : (bit : Bool) → (put_bit b bit).length ≡ b.length + 1
  unfolding put_bit
  length-put_bit bit = refl

  pub put_bit-IsValid : (bit : Bool) → IsValid (put_bit b bit)
  put_bit-IsValid bit = record {
    fits = omega (arith, buffer-put_bit bit, length-put_bit bit);
    bytes = bytes-put_bit bit;
    clean = rw (length-put_bit bit) (IsClean-put_bit bit);
  }

  -- The new bit stands behind the old ones.
  pub get-put_bit :
      (bit : Bool) (i : ℕ) → get (put_bit b bit) i ≡ (if i == b.length then bit else get b i)
  unfolding get
  get-put_bit bit i = elim (Bool-cases (i / 8 == at)) [
    | inl same ↦ ground (arith, byte-put_bit bit (i / 8), IsStored-here bit (i % 8))
    | inr other ↦ ground (arith, byte-put_bit bit (i / 8))
  ]
