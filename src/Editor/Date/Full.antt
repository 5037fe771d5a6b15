-- ===== src/Editor/Date/Full.antt =====
-- What the full format of a date reads back as.
use mathlib.Core.List.{append-nil, append_assoc}
use study_tech.Base.{
  ℕ, zero, suc, ◌+◌, ◌-◌, ◌/◌, ◌<◌, ◌≤◌, ◌≡◌, refl, sym, ◌∙◌, ap, arith, [], ◌∷◌, ◌++◌, length,
  length-append, true, false, ltb, Bool-cases, inl, inr,
}
use study_tech.Editor.Text.{Text}
use study_tech.Editor.Toolbar.{decimal, decimal_on}
use study_tech.Editor.Toolbar.Decimal.{value, value_from, decimal-value}
use study_tech.Editor.Date.{Now, full, take, drop, slice, add_zero, month_day, hms, date_format}

length-decimal_on_short : (fuel n : ℕ) → n < 10 → length (decimal_on (suc fuel) n) ≡ 1
unfolding decimal_on
length-decimal_on_short fuel n h = let e : ltb n 10 ≡ true = ground arith in rw (decimal_on, e) refl

length-decimal_on :
    (fuel n : ℕ)
    → 10 ≤ n
    → length (decimal_on (suc fuel) n) ≡ suc (length (decimal_on fuel (n / 10)))
unfolding decimal_on
length-decimal_on fuel n h =
    let e : ltb n 10 ≡ false = ground arith in
    rw (decimal_on, e) (length-append (decimal_on fuel (n / 10)) _ ∙ omega arith)

one_digit : (fuel n : ℕ) → 1 ≤ fuel → n < 10 → length (decimal_on fuel n) ≡ 1
one_digit zero n f h = absurd (omega arith)
one_digit (suc fuel) n f h = length-decimal_on_short fuel n h

two_digits : (fuel n : ℕ) → 2 ≤ fuel → 10 ≤ n → n < 100 → length (decimal_on fuel n) ≡ 2
two_digits zero n f l h = absurd (omega arith)
two_digits (suc fuel) n f l h =
    length-decimal_on fuel n l ∙ ap suc (one_digit fuel (n / 10) (omega arith) (omega arith))

three_digits : (fuel n : ℕ) → 3 ≤ fuel → 100 ≤ n → n < 1000 → length (decimal_on fuel n) ≡ 3
three_digits zero n f l h = absurd (omega arith)
three_digits (suc fuel) n f l h =
    length-decimal_on fuel n (omega arith)
    ∙ ap suc (two_digits fuel (n / 10) (omega arith) (omega arith) (omega arith))

four_digits : (fuel n : ℕ) → 4 ≤ fuel → 1000 ≤ n → n < 10000 → length (decimal_on fuel n) ≡ 4
four_digits zero n f l h = absurd (omega arith)
four_digits (suc fuel) n f l h =
    length-decimal_on fuel n (omega arith)
    ∙ ap suc (three_digits fuel (n / 10) (omega arith) (omega arith) (omega arith))

length-add_zero : (n : ℕ) → n < 100 → length (add_zero n) ≡ 2
unfolding add_zero decimal
length-add_zero n h = elim (Bool-cases (ltb n 10)) [
  | inl e ↦
      let small : n < 10 = ground arith in
      rw (add_zero, e) (ap suc (one_digit (suc n) n (omega arith) small))
  | inr e ↦
      let big : 10 ≤ n = ground arith in rw (add_zero, e) (two_digits (suc n) n (omega arith) big h)
]

value-add_zero : (n : ℕ) → value (add_zero n) ≡ n
unfolding add_zero value_from
value-add_zero n = elim (Bool-cases (ltb n 10)) [
  | inl e ↦ rw (add_zero, e) (decimal-value n)
  | inr e ↦ rw (add_zero, e) (decimal-value n)
]

length-year : (n : ℕ) → 1000 ≤ n → n < 10000 → length (decimal n) ≡ 4
unfolding decimal
length-year n h k = four_digits (suc n) n (omega arith) h k

take-append : (s t : Text) (n : ℕ) → n ≡ length s → take n (s ++ t) ≡ s
unfolding take
take-append [] t zero h = refl
take-append [] t (suc n) h = absurd (omega (arith, h))
take-append (c ∷ s) t zero h = absurd (omega (arith, h))
take-append (c ∷ s) t (suc n) h = ap (λ u. c ∷ u) (take-append s t n (omega (arith, h)))

drop-append : (s t : Text) (c m n : ℕ) → m ≡ suc (length s) + n → drop m (s ++ c ∷ t) ≡ drop n t
unfolding drop
drop-append s t c zero n h = absurd (omega (arith, h))
drop-append [] t c (suc m) n h = ap (λ x. drop x t) (omega (arith, h))
drop-append (d ∷ s) t c (suc m) n h = drop-append s t c m n (omega (arith, h))

-- A slice behind a part and a separator is a slice of what follows them.
slice-append :
    (s t : Text) (c from to f g : ℕ)
    → from ≡ suc (length s) + f
    → to ≡ suc (length s) + g
    → slice from to (s ++ c ∷ t) ≡ slice f g t
unfolding slice
slice-append s t c from to f g h k =
    ap (λ n. take n (drop from (s ++ c ∷ t))) (omega (arith, h, k))
    ∙ ap (take (g - f)) (drop-append s t c from f h)

slice_first : (s t : Text) (to : ℕ) → to ≡ length s → slice 0 to (s ++ t) ≡ s
unfolding slice drop
slice_first s t to h = ap (λ n. take n (s ++ t)) (omega arith) ∙ take-append s t to h

past_two :
    (s t : Text) (c from to f g : ℕ)
    → length s ≡ 2
    → from ≡ 3 + f
    → to ≡ 3 + g
    → slice from to (s ++ c ∷ t) ≡ slice f g t
past_two s t c from to f g e a b =
    slice-append s t c from to f g (omega (arith, e, a)) (omega (arith, e, b))

module _ (y m d h i s : Text) where
  -- The parts of a date and a time, with their separators.
  abbrev stamp : Text
  stamp = y ++ 45 ∷ (m ++ 45 ∷ (d ++ 32 ∷ (h ++ 58 ∷ (i ++ 58 ∷ s))))

  stamp-eq : (y ++ 45 ∷ (m ++ 45 ∷ d)) ++ 32 ∷ (h ++ 58 ∷ (i ++ 58 ∷ s)) ≡ stamp
  stamp-eq = append_assoc y _ _ ∙ ap (λ t. y ++ 45 ∷ t) (append_assoc m _ _)

  slice-stamp :
      length y ≡ 4
      → length m ≡ 2
      → length d ≡ 2
      → length h ≡ 2
      → length i ≡ 2
      → length s ≡ 2
      → (length stamp ≡ 19)
        × (slice 0 4 stamp ≡ y)
        × (slice 5 7 stamp ≡ m)
        × (slice 8 10 stamp ≡ d)
        × (slice 11 13 stamp ≡ h)
        × (slice 14 16 stamp ≡ i)
        × (slice 17 19 stamp ≡ s)
  slice-stamp ey em ed eh ei es = (
    omega (
      arith,
      ey,
      em,
      ed,
      eh,
      ei,
      es,
      length-append y (45 ∷ after_y),
      length-append m (45 ∷ after_m),
      length-append d (32 ∷ after_d),
      length-append h (58 ∷ after_h),
      length-append i (58 ∷ s),
    ),
    slice_first y _ 4 (sym ey),
    past_y 5 7 0 2 refl refl ∙ slice_first m _ 2 (sym em),
    past_y 8 10 3 5 refl refl ∙ past_m 3 5 0 2 refl refl ∙ slice_first d _ 2 (sym ed),
    past_y 11 13 6 8 refl refl
        ∙ past_m 6 8 3 5 refl refl
        ∙ past_d 3 5 0 2 refl refl
        ∙ slice_first h _ 2 (sym eh),
    past_y 14 16 9 11 refl refl
        ∙ past_m 9 11 6 8 refl refl
        ∙ past_d 6 8 3 5 refl refl
        ∙ past_two h after_h 58 3 5 0 2 eh refl refl
        ∙ slice_first i _ 2 (sym ei),
    past_y 17 19 12 14 refl refl
        ∙ past_m 12 14 9 11 refl refl
        ∙ past_d 9 11 6 8 refl refl
        ∙ past_two h after_h 58 6 8 3 5 eh refl refl
        ∙ past_two i s 58 3 5 0 2 ei refl refl
        ∙ ap (slice 0 2) (sym (append-nil s))
        ∙ slice_first s [] 2 (sym es),
  )
    where
      after_h : Text
      after_h = i ++ 58 ∷ s

      after_d : Text
      after_d = h ++ 58 ∷ after_h

      after_m : Text
      after_m = d ++ 32 ∷ after_d

      after_y : Text
      after_y = m ++ 45 ∷ after_m

      past_y :
          (from to f g : ℕ) → from ≡ 5 + f → to ≡ 5 + g → slice from to stamp ≡ slice f g after_y
      past_y from to f g a b =
          slice-append y _ 45 from to f g (omega (arith, ey, a)) (omega (arith, ey, b))

      past_m :
          (from to f g : ℕ) → from ≡ 3 + f → to ≡ 3 + g → slice from to after_y ≡ slice f g after_m
      past_m from to f g a b = past_two m after_m 45 from to f g em a b

      past_d :
          (from to f g : ℕ) → from ≡ 3 + f → to ≡ 3 + g → slice from to after_m ≡ slice f g after_d
      past_d from to f g a b = past_two d after_d 32 from to f g ed a b

module _ (now : Now) where
  -- A time of a year with four digits, in the ranges of the methods of Date.
  abbrev pub IsTime : Type 0
  IsTime =
      ((1000 ≤ now.year) × (now.year < 10000))
      × (now.month < 12)
      × (now.date < 32)
      × (now.hours < 24)
      × (now.minutes < 60)
      × (now.seconds < 60)

  -- The text of the full format has 19 units, and year, month, day, hour, minute and second read
  -- back from their places.
  pub date_format-full :
      IsTime
      → let t = date_format now full in
        (length t ≡ 19)
        × (value (slice 0 4 t) ≡ now.year)
        × (value (slice 5 7 t) ≡ now.month + 1)
        × (value (slice 8 10 t) ≡ now.date)
        × (value (slice 11 13 t) ≡ now.hours)
        × (value (slice 14 16 t) ≡ now.minutes)
        × (value (slice 17 19 t) ≡ now.seconds)
  unfolding date_format month_day hms
  date_format-full (year, month, date, hours, minutes, seconds) =
      let y = decimal now.year in
      let m = add_zero (now.month + 1) in
      let d = add_zero now.date in
      let h = add_zero now.hours in
      let i = add_zero now.minutes in
      let s = add_zero now.seconds in
      let parts =
        slice-stamp y m d h i s (length-year now.year year.0 year.1)
          (length-add_zero (now.month + 1) (omega (arith, month)))
          (length-add_zero now.date (omega (arith, date)))
          (length-add_zero now.hours (omega (arith, hours)))
          (length-add_zero now.minutes (omega (arith, minutes)))
          (length-add_zero now.seconds (omega (arith, seconds))) in
      rw (stamp-eq y m d h i s) (
        parts.0,
        ap value parts.1 ∙ decimal-value now.year,
        ap value parts.2 ∙ value-add_zero (now.month + 1),
        ap value parts.3 ∙ value-add_zero now.date,
        ap value parts.4 ∙ value-add_zero now.hours,
        ap value parts.5 ∙ value-add_zero now.minutes,
        ap value parts.6 ∙ value-add_zero now.seconds,
      )
