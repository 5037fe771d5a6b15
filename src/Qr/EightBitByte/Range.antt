-- ===== src/Qr/EightBitByte/Range.antt =====
-- Every entry of `parsedData` is a byte, and there are at most three more than UTF-8 has.
use study_tech.Base.{
  ℕ, ◌+◌, ◌≤◌, ◌<◌, List, [], ◌∷◌, ◌++◌, arith, length, length-append, All, Bool-cases, leb, ◌==◌,
  if◌then◌else◌, inl, inr,
}
use study_tech.Qr.TypeNumber.{width}
use study_tech.Qr.EightBitByte.{char_bytes, payload, parsed_data}
use study_tech.Qr.EightBitByte.Encode.{char_bytes_one, char_bytes_two, char_bytes_three}
use study_tech.Qr.EightBitByte.Decode.{all_short, length-char_bytes, parsed_data_lem}

abbrev pub AreBytes : List ℕ → Type 0
AreBytes xs = All (λ x. x < 256) xs

AreBytes-append : (xs ys : List ℕ) → AreBytes xs → AreBytes ys → AreBytes (xs ++ ys)
AreBytes-append [] ys h k = k
AreBytes-append (x ∷ xs) ys (h, hs) k = (h, AreBytes-append xs ys hs k)

char_bytes-AreBytes : (code : ℕ) → code < 0x10000 → AreBytes (char_bytes code)
char_bytes-AreBytes code h = elim (Bool-cases (leb code 0x80)) [
  | inl one ↦ rw (char_bytes_one code h (ground arith)) (ground arith)
  | inr more ↦ elim (Bool-cases (leb code 0x800)) [
    | inl two ↦ rw (char_bytes_two code h (ground arith) (ground arith)) (omega arith)
    | inr three ↦ rw (char_bytes_three code h (ground arith)) (omega arith)
  ]
]

abbrev pub AreUnits : List ℕ → Type 0
AreUnits codes = All (λ c. c < 0x10000) codes

payload-AreBytes : (codes : List ℕ) → AreUnits codes → AreBytes (payload codes)
unfolding payload
payload-AreBytes [] h = tt
payload-AreBytes (c ∷ codes) (lt, h) =
    AreBytes-append (char_bytes c) (payload codes) (char_bytes-AreBytes c lt)
      (payload-AreBytes codes h)

pub parsed_data-AreBytes : (codes : List ℕ) → AreUnits codes → AreBytes (parsed_data codes)
unfolding parsed_data
parsed_data-AreBytes codes h = elim (Bool-cases (length (payload codes) == length codes)) [
  | inl same ↦ rw same (payload-AreBytes codes h)
  | inr other ↦ rw other (omega arith, (omega arith, (omega arith, payload-AreBytes codes h)))
]

-- The UTF-8 bytes of a text without surrogates.
unfoldable pub widths : List ℕ → ℕ
unfolding width
widths [] = 0
widths (u ∷ us) = width u + widths us

length-payload-le : (codes : List ℕ) → AreUnits codes → length (payload codes) ≤ widths codes
unfolding payload widths
length-payload-le [] h = omega arith
length-payload-le (c ∷ codes) (lt, h) = ground (
  arith,
  length-append (char_bytes c) (payload codes),
  length-char_bytes c lt,
  length-payload-le codes h,
)

length-le-widths : (codes : List ℕ) → length codes ≤ widths codes
unfolding widths
length-le-widths [] = omega arith
length-le-widths (c ∷ codes) = ground (arith, length-le-widths codes)

-- The length of `parsedData`: the mark adds three bytes, and only to a text that is not short.
pub length-parsed_data :
    (codes : List ℕ)
    → AreUnits codes
    → length (parsed_data codes) ≤ widths codes + (if all_short codes then 0 else 3)
length-parsed_data codes h = elim (Bool-cases (all_short codes)) [
  | inl short ↦ rw (parsed_data_lem codes h, short) (omega (arith, length-le-widths codes))
  | inr long ↦ rw (parsed_data_lem codes h, long) (omega (arith, length-payload-le codes h))
]
