-- ===== src/Qr/EightBitByte/Decode.antt =====
-- A reader of UTF-8, and what it makes of the bytes of a text.
use study_tech.Base.{
  ℕ, zero, suc, ◌+◌, ◌-◌, ◌*◌, ◌/◌, ◌≤◌, ◌<◌, List, [], ◌∷◌, ◌++◌, ◌≡◌, ◌≢◌, refl, ◌∙◌, ap, arith,
  length, length-append, ltb, leb, ◌==◌, if◌then◌else◌, true, false, Bool, not, ◌&&◌, Option, none,
  some, Bool-cases, inl, inr, &&-eq-true, leb→le, ==_iff, All,
}
use study_tech.Qr.EightBitByte.{char_bytes, payload, parsed_data}
use study_tech.Qr.EightBitByte.Encode.{
  is_surrogate, utf8, utf8_bytes, char_bytes-eq-utf8_bytes, char_bytes_one,
}

-- `code` in front of what the rest of the bytes gave.
unfoldable pub emit : ℕ → Option (List ℕ) → Option (List ℕ)
emit code none = none
emit code (some codes) = if is_surrogate code then none else some (code ∷ codes)

-- `pending` bytes of a character are still to come, and `acc` is what the others gave. There is no
-- text if the bytes give a surrogate, or end within a character.
unfoldable pub decode_from : ℕ → ℕ → List ℕ → Option (List ℕ)
decode_from zero acc [] = some []
decode_from (suc n) acc [] = none
decode_from zero acc (b ∷ r) =
    let one = emit b (decode_from 0 0 r) in
    let two = decode_from 1 (b - 0xC0) r in
    let three = decode_from 2 (b - 0xE0) r in
    if ltb b 0x80 then one else if ltb b 0xE0 then two else three
decode_from (suc zero) acc (b ∷ r) = emit (acc * 64 + (b - 0x80)) (decode_from 0 0 r)
decode_from (suc (suc n)) acc (b ∷ r) = decode_from (suc n) (acc * 64 + (b - 0x80)) r

-- A byte order mark at the start is no part of the text.
unfoldable pub strip_mark : List ℕ → List ℕ
strip_mark (a ∷ b ∷ c ∷ r) = if a == 239 && (b == 187 && c == 191) then r else a ∷ b ∷ c ∷ r
strip_mark l = l

unfoldable pub decode : List ℕ → Option (List ℕ)
unfolding decode_from strip_mark
decode bytes = decode_from 0 0 (strip_mark bytes)

-- A unit whose bytes the encoder counts as UTF-8 does.
abbrev pub IsPlain : ℕ → Type 0
IsPlain code = (code < 0x10000) × (code ≢ 0x80) × (code ≢ 0x800)

decode_from-utf8_bytes :
    (code : ℕ) (r : List ℕ)
    → code < 0x10000
    → decode_from 0 0 (utf8_bytes code ++ r) ≡ emit code (decode_from 0 0 r)
unfolding utf8_bytes decode_from
decode_from-utf8_bytes code r h = elim (Bool-cases (ltb code 0x80)) [
  | inl one ↦ rw (one, one)
  | inr more ↦ elim (Bool-cases (ltb code 0x800)) [
    | inl two ↦
        let a : ltb (0xC0 + code / 64) 0x80 ≡ false = ground arith in
        let b : ltb (0xC0 + code / 64) 0xE0 ≡ true = ground arith in
        rw (more, two, a, b) (ap (λ (c : ℕ). emit c (decode_from 0 0 r)) (omega arith))
    | inr three ↦
        let a : ltb (0xE0 + code / 4096) 0x80 ≡ false = ground arith in
        let b : ltb (0xE0 + code / 4096) 0xE0 ≡ false = ground arith in
        rw (more, three, a, b) (ap (λ (c : ℕ). emit c (decode_from 0 0 r)) (omega arith))
  ]
]

-- The text itself, if it has no surrogate.
unfoldable pub scalars : List ℕ → Option (List ℕ)
scalars [] = some []
scalars (code ∷ codes) = emit code (scalars codes)

decode_from-payload :
    (codes : List ℕ) → All IsPlain codes → decode_from 0 0 (payload codes) ≡ scalars codes
unfolding payload scalars
decode_from-payload [] h = unfold decode_from in refl
decode_from-payload (code ∷ codes) ((lt, a, b), h) =
    rw
      (
        char_bytes-eq-utf8_bytes code lt a b,
        decode_from-utf8_bytes code (payload codes) lt,
        decode_from-payload codes h,
      )
      refl

-- No unit is a surrogate.
unfoldable pub no_surrogate : List ℕ → Bool
no_surrogate [] = true
no_surrogate (code ∷ codes) = not (is_surrogate code) && no_surrogate codes

scalars_lem : (codes : List ℕ) → scalars codes ≡ (if no_surrogate codes then some codes else none)
unfolding scalars no_surrogate emit
scalars_lem [] = refl
scalars_lem (code ∷ codes) = elim (Bool-cases (no_surrogate codes)) [
  | inl e ↦ elim (Bool-cases (is_surrogate code)) [
    | inl k ↦ rw (scalars_lem codes, e, k) refl
    | inr k ↦ rw (scalars_lem codes, e, k) refl
  ]
  | inr e ↦ elim (Bool-cases (is_surrogate code)) [
    | inl k ↦ rw (scalars_lem codes, e, k) refl
    | inr k ↦ rw (scalars_lem codes, e, k) refl
  ]
]

-- Every unit is below 0x81: the bytes are the units.
unfoldable pub all_short : List ℕ → Bool
all_short [] = true
all_short (code ∷ codes) = leb code 0x80 && all_short codes

pub length-char_bytes :
    (code : ℕ)
    → code < 0x10000
    → length (char_bytes code) ≡ (if leb code 0x80 then 1 else if leb code 0x800 then 2 else 3)
unfolding char_bytes
length-char_bytes code h = ground arith

payload-all_short :
    (codes : List ℕ) → All (λ c. c < 0x10000) codes → all_short codes ≡ true → payload codes ≡ codes
unfolding payload all_short
payload-all_short [] h e = refl
payload-all_short (code ∷ codes) (lt, h) e =
    let (short, rest) = &&-eq-true _ _ e in
    rw (char_bytes_one code lt (leb→le _ _ short), payload-all_short codes h rest) refl

length-payload :
    (codes : List ℕ)
    → All (λ c. c < 0x10000) codes
    → (length codes ≤ length (payload codes))
      × (all_short codes ≡ false → length codes < length (payload codes))
unfolding payload all_short
length-payload [] h = (omega arith, λ e. cc)
length-payload (code ∷ codes) (lt, h) = ground (
  arith,
  length-append (char_bytes code) (payload codes),
  length-char_bytes code lt,
  length-payload codes h,
)

-- The mark stands in front exactly if some unit needs more than one byte.
pub parsed_data_lem :
    (codes : List ℕ)
    → All (λ c. c < 0x10000) codes
    → parsed_data codes ≡ (if all_short codes then codes else 239 ∷ 187 ∷ 191 ∷ payload codes)
unfolding parsed_data
parsed_data_lem codes h = elim (Bool-cases (all_short codes)) [
  | inl short ↦
      let e = payload-all_short codes h short in rw (e, short, (==_iff (length codes) _).1 refl)
  | inr long ↦
      let longer : (length (payload codes) == length codes) ≡ false =
        ground (arith, length-payload codes h) in
      rw (longer, long)
]

plain-lt : (codes : List ℕ) → All IsPlain codes → All (λ c. c < 0x10000) codes
plain-lt [] h = tt
plain-lt (c ∷ codes) ((lt, _, _), h) = (lt, plain-lt codes h)

strip_mark-short : (codes : List ℕ) → all_short codes ≡ true → strip_mark codes ≡ codes
unfolding strip_mark all_short
strip_mark-short [] h = refl
strip_mark-short (a ∷ []) h = refl
strip_mark-short (a ∷ b ∷ []) h = refl
strip_mark-short (a ∷ b ∷ c ∷ r) h = ground arith

-- UTF-8 of a text, where each unit has one.
unfoldable pub utf8_text : List ℕ → Option (List ℕ)
utf8_text [] = some []
utf8_text (code ∷ codes) =
    let rest = utf8_text codes in
    elim (utf8 code) [
      | none ↦ none
      | some bytes ↦ elim rest [ none ↦ none | some more ↦ some (bytes ++ more) ]
    ]

utf8_text-payload :
    (codes : List ℕ)
    → All IsPlain codes
    → utf8_text codes ≡ (if no_surrogate codes then some (payload codes) else none)
unfolding utf8_text utf8 payload no_surrogate
utf8_text-payload [] h = refl
utf8_text-payload (code ∷ codes) ((lt, a, b), h) =
    let rest = utf8_text-payload codes h in
    let same = char_bytes-eq-utf8_bytes code lt a b in
    elim (Bool-cases (is_surrogate code)) [
      | inl k ↦ rw (utf8_text, utf8, k) refl
      | inr k ↦ elim (Bool-cases (no_surrogate codes)) [
        | inl e ↦ rw (utf8_text, utf8, k, rest, e, same) refl
        | inr e ↦ rw (utf8_text, utf8, k, rest, e) refl
      ]
    ]

strip_mark-parsed_data :
    (codes : List ℕ) → All IsPlain codes → strip_mark (parsed_data codes) ≡ payload codes
strip_mark-parsed_data codes h =
    rw (parsed_data_lem codes (plain-lt codes h)) (elim (Bool-cases (all_short codes)) [
      | inl short ↦
          rw (short, strip_mark-short codes short, payload-all_short codes (plain-lt codes h) short)
            refl
      | inr long ↦ rw long (unfold strip_mark in refl)
    ])

-- Of a text of units below 0x10000 that are neither 0x80 nor 0x800, the bytes but for a byte order
-- mark in front are UTF-8 of the text, from which a reader gets the text back; but if a unit is a
-- surrogate, as in a pair for a character from 0x10000 on, the text has no such UTF-8, and the reader,
-- which refuses surrogates, gets no text.
pub decode-parsed_data :
    (codes : List ℕ)
    → All IsPlain codes
    → let clean = no_surrogate codes in
      (utf8_text codes ≡ (if clean then some (strip_mark (parsed_data codes)) else none))
      × (decode (parsed_data codes) ≡ (if clean then some codes else none))
unfolding decode
decode-parsed_data codes h =
    rw (strip_mark-parsed_data codes h)
      (utf8_text-payload codes h, decode_from-payload codes h ∙ scalars_lem codes)
