-- ===== src/Qr/CreateBytes/Interleaved.antt =====
-- Where createBytes puts the codewords of each block.
use study_tech.Base.{
  ℕ, zero, suc, ◌+◌, ◌-◌, ◌≤◌, ◌<◌, ◌≡◌, refl, ap, ◌∙◌, arith, min, true, ltb, ◌==◌, List, [], ◌∷◌,
  ◌++◌, none, length, get_or, get_or-append_left, length-append, if◌then◌else◌, Bool-cases, inl,
  inr, ==_iff,
}
use study_tech.Qr.Polynomial.{Polynomial}
use study_tech.Qr.CreateBytes.{column, interleave}

-- The rows among the first `r` that reach column `i`.
unfoldable pub above : ℕ → ℕ → List Polynomial → ℕ
above i zero rows = 0
above i (suc r) [] = 0
above i (suc r) (row ∷ rows) =
    let rest = above i r rows in if ltb i (length row) then suc rest else rest

-- The elements of the columns from `i` on and before `j`.
unfoldable pub skipped : ℕ → ℕ → List Polynomial → ℕ
skipped i j [] = 0
skipped i j (row ∷ rows) = min (length row) j - min (length row) i + skipped i j rows

column-above :
    (i r : ℕ) (rows : List Polynomial)
    → r < length rows
    → i < length (get_or rows r [])
    → (above i r rows < length (column i rows))
      × (get_or (column i rows) (above i r rows) none ≡ get_or (get_or rows r []) i none)
unfolding above column
column-above i r [] h k = absurd (omega arith)
column-above i zero (row ∷ rows) h k =
    let here : ltb i (length row) ≡ true = ground arith in rw here (omega arith, refl)
column-above i (suc r) (row ∷ rows) h k =
    let (inside, is) = column-above i r rows (omega arith) k in
    elim (Bool-cases (ltb i (length row))) [
      | inl e ↦ rw e (omega arith, is)
      | inr e ↦ rw e (inside, is)
    ]

column-skipped :
    (i j : ℕ) (rows : List Polynomial)
    → i < j
    → skipped i j rows ≡ length (column i rows) + skipped (i + 1) j rows
unfolding skipped column
column-skipped i j [] h = refl
column-skipped i j (row ∷ rows) h =
    let ih = column-skipped i j rows h in
    elim (Bool-cases (ltb i (length row))) [
      | inl e ↦ rw e (ground arith)
      | inr e ↦ rw e (ground arith)
    ]

skipped_none : (i : ℕ) (rows : List Polynomial) → skipped i i rows ≡ 0
unfolding skipped
skipped_none i [] = refl
skipped_none i (row ∷ rows) = omega (arith, skipped_none i rows)

zero_add : (n : ℕ) → 0 + n ≡ n
zero_add n = omega arith

suc_add : (k n : ℕ) → suc k + n ≡ suc (k + n)
suc_add k n = omega arith

add_assoc : (a b c : ℕ) → a + b + c ≡ a + (b + c)
add_assoc a b c = omega arith

pub get_or-append_right :
    (xs ys : Polynomial) (k : ℕ) → get_or (xs ++ ys) (length xs + k) none ≡ get_or ys k none
get_or-append_right [] ys k = ap (λ (t : ℕ). get_or ys t none) (zero_add k)
get_or-append_right (x ∷ xs) ys k =
    ap (λ (t : ℕ). get_or (x ∷ (xs ++ ys)) t none) (suc_add (length xs) k)
    ∙ get_or-append_right xs ys k

-- Element `i` of row `r` stands behind the columns before `i` and the rows before `r`.
pub interleave-above :
    (todo start i r : ℕ) (rows : List Polynomial)
    → start ≤ i
    → i < start + todo
    → r < length rows
    → i < length (get_or rows r [])
    → (skipped start i rows + above i r rows < length (interleave todo start rows))
      × (get_or (interleave todo start rows) (skipped start i rows + above i r rows) none
          ≡ get_or (get_or rows r []) i none)
unfolding interleave
interleave-above zero start i r rows lo hi h k = absurd (omega arith)
interleave-above (suc todo) start i r rows lo hi h k = elim (Bool-cases (start == i)) [
  | inl e ↦
      let same : start ≡ i = (==_iff start i).0 e in
      let (inside, is) = column-above i r rows h k in
      rw (same, skipped_none i rows)
        (
          omega (arith, length-append (column i rows) (interleave todo (i + 1) rows)),
          ap (λ (t : ℕ). get_or (column i rows ++ interleave todo (i + 1) rows) t none)
                (zero_add (above i r rows))
              ∙ get_or-append_left (column i rows) (interleave todo (i + 1) rows) (above i r rows)
                  none inside
              ∙ is,
        )
  | inr e ↦
      let before : start < i = ground arith in
      let (inside, is) =
        interleave-above todo (start + 1) i r rows (omega arith) (omega arith) h k in
      (
        omega (
          arith,
          length-append (column start rows) (interleave todo (start + 1) rows),
          column-skipped start i rows before,
        ),
        ap (λ (t : ℕ). get_or (column start rows ++ interleave todo (start + 1) rows) t none)
              (ap (λ (t : ℕ). t + above i r rows) (column-skipped start i rows before)
                ∙ add_assoc (length (column start rows)) (skipped (start + 1) i rows)
                    (above i r rows))
            ∙ get_or-append_right (column start rows) _
                (skipped (start + 1) i rows + above i r rows)
            ∙ is,
      )
]
