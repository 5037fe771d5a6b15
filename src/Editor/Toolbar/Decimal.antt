-- ===== src/Editor/Toolbar/Decimal.antt =====
-- The numbers that list-ol writes.
use study_tech.Base.{
  ℕ, zero, suc, ◌+◌, ◌-◌, ◌*◌, ◌/◌, ◌%◌, ◌<◌, ◌≤◌, ◌≡◌, refl, ◌∙◌, arith, [], ◌∷◌, ◌++◌, ltb,
  Bool-cases, inl, inr, All,
}
use study_tech.Editor.Text.{Text, IsInline}
use study_tech.Editor.Toolbar.{decimal_on, decimal}

-- The number that digits read as, after those that read as `n`.
unfoldable pub value_from : ℕ → Text → ℕ
value_from n [] = n
value_from n (c ∷ cs) = value_from (10 * n + (c - 48)) cs

abbrev pub value : Text → ℕ
value t = value_from 0 t

value-append : (t : Text) (n c : ℕ) → value_from n (t ++ c ∷ []) ≡ 10 * value_from n t + (c - 48)
unfolding value_from
value-append [] n c = refl
value-append (d ∷ t) n c = value-append t _ c

decimal_on-value : (fuel n : ℕ) → n < fuel → value (decimal_on fuel n) ≡ n
unfolding decimal_on value_from
decimal_on-value zero n h = absurd (omega arith)
decimal_on-value (suc fuel) n h = elim (Bool-cases (ltb n 10)) [
  | inl e ↦ rw (decimal_on, e) (omega arith)
  | inr e ↦
      let big : 10 ≤ n = ground arith in
      let rest = decimal_on-value fuel (n / 10) (omega arith) in
      rw (decimal_on, e)
        (value-append (decimal_on fuel (n / 10)) 0 (48 + n % 10) ∙ (rw rest (omega arith)))
]

pub decimal-value : (n : ℕ) → value (decimal n) ≡ n
unfolding decimal
decimal-value n = decimal_on-value (suc n) n (omega arith)

-- A digit, 0 to 9.
abbrev pub IsDigit : ℕ → Type 0
IsDigit c = (48 ≤ c) × (c < 58)

All-append : (s t : Text) → All IsDigit s → All IsDigit t → All IsDigit (s ++ t)
All-append [] t h k = k
All-append (c ∷ s) t h k = (h.0, All-append s t h.1 k)

decimal_on-AreDigits : (fuel n : ℕ) → All IsDigit (decimal_on fuel n)
unfolding decimal_on
decimal_on-AreDigits zero n = tt
decimal_on-AreDigits (suc fuel) n = elim (Bool-cases (ltb n 10)) [
  | inl e ↦ rw (decimal_on, e) (((ground arith), (ground arith)), tt)
  | inr e ↦
      rw (decimal_on, e)
        (All-append (decimal_on fuel (n / 10)) _ (decimal_on-AreDigits fuel (n / 10))
          (((ground arith), (ground arith)), tt))
]

pub decimal-AreDigits : (n : ℕ) → All IsDigit (decimal n)
unfolding decimal
decimal-AreDigits n = decimal_on-AreDigits (suc n) n

pub IsInline-append : (s t : Text) → IsInline s → IsInline t → IsInline (s ++ t)
IsInline-append [] t h k = k
IsInline-append (c ∷ s) t h k = (h.0, IsInline-append s t h.1 k)

decimal_on-IsInline : (fuel n : ℕ) → IsInline (decimal_on fuel n)
unfolding decimal_on
decimal_on-IsInline zero n = tt
decimal_on-IsInline (suc fuel) n = elim (Bool-cases (ltb n 10)) [
  | inl e ↦ rw (decimal_on, e) ((ground arith), tt)
  | inr e ↦
      rw (decimal_on, e)
        (IsInline-append (decimal_on fuel (n / 10)) _ (decimal_on-IsInline fuel (n / 10))
          ((ground arith), tt))
]

pub decimal-append-IsInline : (n : ℕ) (t : Text) → IsInline t → IsInline (decimal n ++ t)
unfolding decimal
decimal-append-IsInline n t h = IsInline-append (decimal n) t (decimal_on-IsInline (suc n) n) h
