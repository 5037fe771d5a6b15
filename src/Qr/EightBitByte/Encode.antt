-- ===== src/Qr/EightBitByte/Encode.antt =====
-- The bytes of one unit against the UTF-8 form of its number.
use study_tech.Base.{
  ℕ, ◌+◌, ◌-◌, ◌/◌, ◌%◌, ◌^◌, ◌≤◌, ◌<◌, bit_and, bit_or, List, [], ◌∷◌, ◌≡◌, ◌≢◌, refl, ◌↔◌, arith,
  ltb, leb, ◌==◌, ◌&&◌, if◌then◌else◌, ◌>>>◌, all_below, all_below-at, ==_iff, true, false, Bool,
  Bool-cases, Option, none, some, sym, ap, inl, inr,
}
use study_tech.Base.Bits.{bit_and_field, bit_and_mask, bit_and-le_left}
use study_tech.Qr.EightBitByte.{char_bytes}

-- The numbers 0xD800 to 0xDFFF, which UTF-16 pairs use and UTF-8 has no form for.
unfoldable pub is_surrogate : ℕ → Bool
is_surrogate code = leb 0xD800 code && ltb code 0xE000

-- The bits of a number below 0x10000, spread over one to three bytes as UTF-8 does.
unfoldable pub utf8_bytes : ℕ → List ℕ
utf8_bytes code =
    if ltb code 0x80
    then code ∷ []
    else if ltb code 0x800
    then (0xC0 + code / 64) ∷ (0x80 + code % 64) ∷ []
    else (0xE0 + code / 4096) ∷ (0x80 + code / 64 % 64) ∷ (0x80 + code % 64) ∷ []

-- UTF-8 of a number below 0x10000, where there is one.
unfoldable pub utf8 : ℕ → Option (List ℕ)
utf8 code = if is_surrogate code then none else some (utf8_bytes code)

or_table :
    (all_below 64 (λ x. bit_or 0x80 x == 0x80 + x) ≡ true)
    × (all_below 32 (λ x. bit_or 0xC0 x == 0xC0 + x) ≡ true)
    × (all_below 16 (λ x. bit_or 0xE0 x == 0xE0 + x) ≡ true)
unfolding all_below
or_table = (refl, refl, refl)

or_80 : (x : ℕ) → x < 64 → bit_or 0x80 x ≡ 0x80 + x
or_80 x h = (==_iff _ _).0 (all_below-at 64 _ x or_table.0 h)

or_C0 : (x : ℕ) → x < 32 → bit_or 0xC0 x ≡ 0xC0 + x
or_C0 x h = (==_iff _ _).0 (all_below-at 32 _ x or_table.1 h)

or_E0 : (x : ℕ) → x < 16 → bit_or 0xE0 x ≡ 0xE0 + x
or_E0 x h = (==_iff _ _).0 (all_below-at 16 _ x or_table.2 h)

-- `(code & mask) >>> k` for a mask of `w` ones at bit `k`.
field :
    (k w code mask : ℕ)
    → code < 0x10000
    → k < 32
    → mask / 2 ^ k ≡ 2 ^ w - 1
    → bit_and code mask >>> k ≡ code / 2 ^ k % 2 ^ w
field k w code mask h small ones =
    let uncut : bit_and code mask % 2 ^ 32 ≡ bit_and code mask =
      omega (arith, bit_and-le_left code mask) in
    let shift : k % 32 ≡ k = omega arith in rw (uncut, shift) (bit_and_field k w code mask ones)

module _ (code : ℕ) (h : code < 0x10000) where
  pub char_bytes_one : code ≤ 0x80 → char_bytes code ≡ code ∷ []
  unfolding char_bytes
  char_bytes_one le = ground arith

  pub char_bytes_two :
      0x80 < code
      → code ≤ 0x800
      → char_bytes code ≡ (0xC0 + code / 64 % 32) ∷ (0x80 + code % 64) ∷ []
  unfolding char_bytes
  char_bytes_two lo hi = ground (
    arith,
    field 6 5 code 0x7C0 h (omega arith) refl,
    bit_and_mask 6 code,
    or_C0 (code / 64 % 32),
    or_80 (code % 64),
  )

  pub char_bytes_three :
      0x800 < code
      → char_bytes code ≡ (0xE0 + code / 4096) ∷ (0x80 + code / 64 % 64) ∷ (0x80 + code % 64) ∷ []
  unfolding char_bytes
  char_bytes_three lo = ground (
    arith,
    field 12 4 code 0xF000 h (omega arith) refl,
    field 6 6 code 0xFC0 h (omega arith) refl,
    bit_and_mask 6 code,
    or_E0 (code / 4096),
    or_80 (code / 64 % 64),
    or_80 (code % 64),
  )

  pub char_bytes-eq-utf8_bytes : code ≢ 0x80 → code ≢ 0x800 → char_bytes code ≡ utf8_bytes code
  unfolding utf8_bytes
  char_bytes-eq-utf8_bytes p q = elim (Bool-cases (ltb code 0x80)) [
    | inl one ↦ rw one (char_bytes_one (ground arith))
    | inr more ↦ elim (Bool-cases (ltb code 0x800)) [
      | inl two ↦
          let small : code / 64 % 32 ≡ code / 64 = ground arith in
          rw (more, two) (rw small at (char_bytes_two (ground arith) (ground arith)))
      | inr three ↦ rw (more, three) (char_bytes_three (ground arith))
    ]
  ]

  -- A unit below 0x10000 is written in UTF-8 exactly if it is no surrogate and neither 0x80 nor
  -- 0x800, the two numbers at which the next longer form begins.
  pub char_bytes-eq-utf8_iff :
      (utf8 code ≡ some (char_bytes code))
      ↔ ((is_surrogate code ≡ false) × (code ≢ 0x80) × (code ≢ 0x800))
  unfolding utf8 utf8_bytes
  char_bytes-eq-utf8_iff = (
    λ e. elim (Bool-cases (is_surrogate code)) [
      | inl k ↦ let none_is : none ≡ some (char_bytes code) = rw k at e in cc
      | inr k ↦
          let both : some (utf8_bytes code) ≡ some (char_bytes code) = rw k at e in
          let same : utf8_bytes code ≡ char_bytes code = cc in
          (
            k,
            λ p. ground (arith, char_bytes_one (omega arith)),
            λ q. ground (arith, char_bytes_two (omega arith) (omega arith)),
          )
    ],
    λ ne. rw (utf8, ne.0) (ap some (sym (char_bytes-eq-utf8_bytes ne.1 ne.2))),
  )
