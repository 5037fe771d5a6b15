-- ===== src/Qr/TypeNumber/Text.antt =====
-- _getUTF8Length on texts without surrogates.
use study_tech.Base.{ℕ, ◌≤◌, ◌<◌, List, [], ◌∷◌, ◌≡◌, refl, ap, arith, All, ◌⊎◌, false}
use study_tech.Qr.Result.{ok}
use study_tech.Qr.TypeNumber.{is_high, is_low, replaced_length}
use study_tech.Qr.EightBitByte.Range.{widths, AreUnits}

-- A unit that is a character of its own.
abbrev pub IsBasic : ℕ → Type 0
IsBasic u = (u < 0x10000) × ((u < 0xD800) ⊎ (0xE000 ≤ u))

not-surrogate : (u : ℕ) → IsBasic u → (is_high u ≡ false) × (is_low u ≡ false)
unfolding is_high is_low
not-surrogate u h = ground arith

pub replaced_length_lem :
    (text : List ℕ) → All IsBasic text → replaced_length text ≡ ok (widths text)
unfolding replaced_length widths
replaced_length_lem [] h = refl
replaced_length_lem (u ∷ []) (h, _) =
    let (high, low) = not-surrogate u h in rw (high, low) (ap (λ (n : ℕ). ok n) (omega arith))
replaced_length_lem (u ∷ v ∷ r) (h, hs) =
    let (high, low) = not-surrogate u h in rw (high, low, replaced_length_lem (v ∷ r) hs) refl

pub basic-AreUnits : (text : List ℕ) → All IsBasic text → AreUnits text
basic-AreUnits [] h = tt
basic-AreUnits (u ∷ us) ((lt, _), h) = (lt, basic-AreUnits us h)
