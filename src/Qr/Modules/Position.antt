-- ===== src/Qr/Modules/Position.antt =====
-- QRUtil.PATTERN_POSITION_TABLE and getPatternPosition.
use study_tech.Base.{
  ℕ, zero, suc, ◌+◌, ◌*◌, ◌≤◌, ◌<◌, ◌≡◌, refl, arith, List, [], ◌∷◌, Option, none, some, get_elem?,
  All, Bool, true, false, leb, ltb, ◌&&◌, all_below, all_below-at, &&-eq-true, leb→le, ltb→lt,
}
use study_tech.Qr.Result.{Result, ok, err, type_error}

abbrev pub pattern_position_table : List (List ℕ)
pattern_position_table =
    []
    ∷ (6 ∷ 18 ∷ [])
    ∷ (6 ∷ 22 ∷ [])
    ∷ (6 ∷ 26 ∷ [])
    ∷ (6 ∷ 30 ∷ [])
    ∷ (6 ∷ 34 ∷ [])
    ∷ (6 ∷ 22 ∷ 38 ∷ [])
    ∷ (6 ∷ 24 ∷ 42 ∷ [])
    ∷ (6 ∷ 26 ∷ 46 ∷ [])
    ∷ (6 ∷ 28 ∷ 50 ∷ [])
    ∷ (6 ∷ 30 ∷ 54 ∷ [])
    ∷ (6 ∷ 32 ∷ 58 ∷ [])
    ∷ (6 ∷ 34 ∷ 62 ∷ [])
    ∷ (6 ∷ 26 ∷ 46 ∷ 66 ∷ [])
    ∷ (6 ∷ 26 ∷ 48 ∷ 70 ∷ [])
    ∷ (6 ∷ 26 ∷ 50 ∷ 74 ∷ [])
    ∷ (6 ∷ 30 ∷ 54 ∷ 78 ∷ [])
    ∷ (6 ∷ 30 ∷ 56 ∷ 82 ∷ [])
    ∷ (6 ∷ 30 ∷ 58 ∷ 86 ∷ [])
    ∷ (6 ∷ 34 ∷ 62 ∷ 90 ∷ [])
    ∷ (6 ∷ 28 ∷ 50 ∷ 72 ∷ 94 ∷ [])
    ∷ (6 ∷ 26 ∷ 50 ∷ 74 ∷ 98 ∷ [])
    ∷ (6 ∷ 30 ∷ 54 ∷ 78 ∷ 102 ∷ [])
    ∷ (6 ∷ 28 ∷ 54 ∷ 80 ∷ 106 ∷ [])
    ∷ (6 ∷ 32 ∷ 58 ∷ 84 ∷ 110 ∷ [])
    ∷ (6 ∷ 30 ∷ 58 ∷ 86 ∷ 114 ∷ [])
    ∷ (6 ∷ 34 ∷ 62 ∷ 90 ∷ 118 ∷ [])
    ∷ (6 ∷ 26 ∷ 50 ∷ 74 ∷ 98 ∷ 122 ∷ [])
    ∷ (6 ∷ 30 ∷ 54 ∷ 78 ∷ 102 ∷ 126 ∷ [])
    ∷ (6 ∷ 26 ∷ 52 ∷ 78 ∷ 104 ∷ 130 ∷ [])
    ∷ (6 ∷ 30 ∷ 56 ∷ 82 ∷ 108 ∷ 134 ∷ [])
    ∷ (6 ∷ 34 ∷ 60 ∷ 86 ∷ 112 ∷ 138 ∷ [])
    ∷ (6 ∷ 30 ∷ 58 ∷ 86 ∷ 114 ∷ 142 ∷ [])
    ∷ (6 ∷ 34 ∷ 62 ∷ 90 ∷ 118 ∷ 146 ∷ [])
    ∷ (6 ∷ 30 ∷ 54 ∷ 78 ∷ 102 ∷ 126 ∷ 150 ∷ [])
    ∷ (6 ∷ 24 ∷ 50 ∷ 76 ∷ 102 ∷ 128 ∷ 154 ∷ [])
    ∷ (6 ∷ 28 ∷ 54 ∷ 80 ∷ 106 ∷ 132 ∷ 158 ∷ [])
    ∷ (6 ∷ 32 ∷ 58 ∷ 84 ∷ 110 ∷ 136 ∷ 162 ∷ [])
    ∷ (6 ∷ 26 ∷ 54 ∷ 82 ∷ 110 ∷ 138 ∷ 166 ∷ [])
    ∷ (6 ∷ 30 ∷ 58 ∷ 86 ∷ 114 ∷ 142 ∷ 170 ∷ [])
    ∷ []

-- `pos.length` of `undefined` throws.
abbrev positions_of : Option (List ℕ) → Result (List ℕ)
positions_of none = err type_error
positions_of (some pos) = ok pos

unfoldable pub get_pattern_position : ℕ → Result (List ℕ)
get_pattern_position zero = err type_error
get_pattern_position (suc n) = positions_of (get_elem? pattern_position_table n)

inside : ℕ → List ℕ → Bool
inside n [] = true
inside n (p ∷ ps) = leb 2 p && ltb (p + 2) n && inside n ps

judge : ℕ → Result (List ℕ) → Bool
unfolding inside
judge n (ok pos) = inside n pos
judge n (err e) = false

fits : ℕ → Bool
unfolding judge get_pattern_position
fits t = judge (suc t * 4 + 17) (get_pattern_position (suc t))

table : all_below 40 fits ≡ true
unfolding all_below fits
table = refl

abbrev pub Inside : ℕ → ℕ → Type 0
Inside n p = (2 ≤ p) × (p + 2 < n)

inside_sound : (n : ℕ) (ps : List ℕ) → inside n ps ≡ true → All (Inside n) ps
unfolding inside
inside_sound n [] h = tt
inside_sound n (p ∷ ps) h =
    let (first, rest) = &&-eq-true _ _ h in
    let (lo, hi) = &&-eq-true _ _ first in ((leb→le 2 p lo, ltb→lt _ n hi), inside_sound n ps rest)

judge_sound :
    (n : ℕ) (r : Result (List ℕ))
    → judge n r ≡ true
    → (pos : List ℕ) × (r ≡ ok pos) × All (Inside n) pos
unfolding judge
judge_sound n (ok pos) h = (pos, refl, inside_sound n pos h)
judge_sound n (err e) h = cc

pub get_pattern_position-Inside :
    (t : ℕ)
    → 1 ≤ t
    → t ≤ 40
    → (pos : List ℕ) × (get_pattern_position t ≡ ok pos) × All (Inside (t * 4 + 17)) pos
unfolding fits
get_pattern_position-Inside zero lo hi = absurd (omega arith)
get_pattern_position-Inside (suc t) lo hi = judge_sound _ _ (all_below-at 40 fits t table hi)
