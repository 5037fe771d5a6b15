-- ===== src/Qr/MakeImpl/Square.antt =====
-- The modules of makeImpl: each inside of the square is set, and none outside.
use study_tech.Base.{
  ℕ, ◌+◌, ◌-◌, ◌*◌, ◌≤◌, ◌<◌, ◌≡◌, refl, arith, inl, inr, sym, Bool, false, ◌==◌, leb, ltb, List,
  All, Bool-cases, ==_iff,
}
use study_tech.Qr.Polynomial.{Polynomial}
use study_tech.Qr.Modules.{Modules, blank, is_unset}
use study_tech.Qr.Modules.Keeps.{Keeps, Keeps-trans, if-Keeps}
use study_tech.Qr.Modules.Position.{Inside}
use study_tech.Qr.Modules.Patterns.{
  setup_position_probe_pattern, setup_timing_pattern, setup_position_adjust_pattern,
}
use study_tech.Qr.Modules.Patterns.Set.{
  probe-Keeps, probe_set, timing-Keeps, timing_set, adjust-Keeps, type_number-Keeps,
  type_info-Keeps,
}
use study_tech.Qr.MapData.{map_data}
use study_tech.Qr.MapData.Full.{map_data-Keeps, map_data_set}
use study_tech.Qr.MakeImpl.{patterns}

moved_to :
    (m : Modules) (x y i j : ℕ)
    → x ≡ i
    → y ≡ j
    → is_unset (m x y) ≡ false
    → is_unset (m i j) ≡ false
moved_to m x y i j d e h = rw (sym d, sym e) h

probe_at :
    (n row col r c i j : ℕ)
    → r < 9
    → c < 9
    → row + r ≡ i + 1
    → col + c ≡ j + 1
    → i < n
    → j < n
    → (m : Modules) → is_unset (setup_position_probe_pattern n row col m i j) ≡ false
probe_at n row col r c i j rh ch d e ih jh m =
    moved_to (setup_position_probe_pattern n row col m) (row + r - 1) (col + c - 1) i j
      (omega arith) (omega arith)
      (probe_set n row col r c rh ch (omega arith) (omega arith) (omega arith) (omega arith) m)

module _ (t : ℕ) (pos : List ℕ) (lo : 1 ≤ t) (inside : All (Inside (t * 4 + 17)) pos) where
  n : ℕ
  n = t * 4 + 17

  finders : Modules
  finders =
      setup_position_probe_pattern n 0 (n - 7)
        (setup_position_probe_pattern n (n - 7) 0 (setup_position_probe_pattern n 0 0 blank))

  lines : Modules
  lines = setup_timing_pattern n (setup_position_adjust_pattern pos finders)

  big : 21 ≤ n
  unfolding n
  big = omega arith

  finders-Keeps : Keeps n blank finders
  unfolding finders
  finders-Keeps =
      Keeps-trans (Keeps-trans (probe-Keeps n 0 0 blank) (probe-Keeps n (n - 7) 0 _))
        (probe-Keeps n 0 (n - 7) _)

  lines-Keeps : Keeps n finders lines
  unfolding lines n
  lines-Keeps = Keeps-trans (adjust-Keeps n big pos inside finders) (timing-Keeps n big _)

  patterns-Keeps :
      (level : ℕ) (test : Bool) (pattern : ℕ) → Keeps n lines (patterns t level pos test pattern)
  unfolding patterns lines finders n
  patterns-Keeps level test pattern =
      let info = type_info-Keeps n big level test pattern lines in
      if-Keeps (leb 7 t) (λ e. Keeps-trans info (type_number-Keeps n big t test _)) (λ e. info)

  upper_set : (i : ℕ) → i < 8 → is_unset (lines i 6) ≡ false
  unfolding finders
  upper_set i h = lines-Keeps.grows i 6 (
      (probe-Keeps n 0 (n - 7) _).grows i 6 (
        (probe-Keeps n (n - 7) 0 _).grows i 6 (
          probe_at n 0 0 (i + 1) 7 i 6 (omega arith) (omega arith) (omega arith) refl
            (omega (arith, big)) (omega (arith, big)) blank)))

  lower_set : (i : ℕ) → n - 8 ≤ i → i < n → is_unset (lines i 6) ≡ false
  unfolding finders
  lower_set i l h = lines-Keeps.grows i 6 (
      (probe-Keeps n 0 (n - 7) _).grows i 6 (
        probe_at n (n - 7) 0 (i + 8 - n) 7 i 6 (omega (arith, big)) (omega arith)
          (omega (arith, big)) refl h (omega (arith, big)) _))

  middle_set : (i : ℕ) → 8 ≤ i → i < n - 8 → is_unset (lines i 6) ≡ false
  unfolding lines
  middle_set i l h =
      moved_to lines (i - 8 + 8) 6 i 6 (omega arith) refl (timing_set n big (i - 8) (omega arith) _)

  column_six : (i : ℕ) → i < n → is_unset (lines i 6) ≡ false
  column_six i h = elim (Bool-cases (ltb i 8)) [
    | inl e ↦ upper_set i (ground arith)
    | inr e ↦ elim (Bool-cases (ltb i (n - 8))) [
      | inl d ↦ middle_set i (ground arith) (ground arith)
      | inr d ↦ lower_set i (ground arith) h
    ]
  ]

  module _ (level : ℕ) (test : Bool) (pattern : ℕ) (codewords : Polynomial)
      (mask : ℕ → ℕ → Bool) where
    before : Modules
    before = patterns t level pos test pattern

    pub whole-Keeps :
        Keeps
          (t * 4 + 17)
          blank
          (map_data codewords mask (t * 4 + 17) (patterns t level pos test pattern))
    unfolding before n
    whole-Keeps =
        Keeps-trans
          (Keeps-trans (Keeps-trans finders-Keeps lines-Keeps) (patterns-Keeps level test pattern))
          (map_data-Keeps codewords mask n before big)

    pub whole_set :
        (i j : ℕ)
        → i < t * 4 + 17
        → j < t * 4 + 17
        → is_unset (map_data codewords mask (t * 4 + 17) (patterns t level pos test pattern) i j)
          ≡ false
    unfolding before n
    whole_set i j ih jh = elim (Bool-cases (j == 6)) [
      | inl e ↦ rw ((==_iff j 6).0 e) (
          (map_data-Keeps codewords mask n before big).grows i 6
            ((patterns-Keeps level test pattern).grows i 6 (column_six i ih)))
      | inr e ↦ map_data_set codewords mask n before big i j ih jh (λ d. ground arith)
    ]
