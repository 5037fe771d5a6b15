-- ===== src/Qr/Modules/Patterns/Set.antt =====
-- The function patterns stay inside of the square and set back no module; column 6 is set.
use study_tech.Base.{
  ℕ, ◌+◌, ◌-◌, ◌%◌, ◌≤◌, ◌<◌, ◌≡◌, arith, inl, inr, Bool, false, ◌==◌, ltb, List, All, Bool-cases,
}
use study_tech.Qr.Modules.{Modules, is_unset, for_below}
use study_tech.Qr.Modules.Keeps.{
  Keeps, Keeps-refl, Keeps-trans, if-Keeps, set_module-Keeps, set_module_set, for_below-Keeps,
  for_below_set, for_each-Keeps,
}
use study_tech.Qr.Modules.Position.{Inside}
use study_tech.Qr.Modules.Patterns.{
  outside, probe_cell, probe_row, setup_position_probe_pattern, timing_cell, setup_timing_pattern,
  adjust_cell, adjust_at, setup_position_adjust_pattern, setup_type_number, info_vertical,
  info_horizontal, setup_type_info,
}

outside-false : (n x : ℕ) → outside n x ≡ false → (1 ≤ x) × (x ≤ n)
unfolding outside
outside-false n x h = ground arith

inside-false : (n x : ℕ) → 1 ≤ x → x ≤ n → outside n x ≡ false
unfolding outside
inside-false n x lo hi = ground arith

module _ (n row col : ℕ) where
  probe_cell-Keeps :
      (r c : ℕ)
      → outside n (row + r) ≡ false
      → (m : Modules) → Keeps n m (probe_cell n row col r c m)
  unfolding probe_cell
  probe_cell-Keeps r c h m =
      let (rlo, rhi) = outside-false n (row + r) h in
      if-Keeps _ (λ e. Keeps-refl n m)
        (λ e.
          let (clo, chi) = outside-false n (col + c) e in
          set_module-Keeps _ m (omega arith) (omega arith))

  probe_row-Keeps : (r : ℕ) (m : Modules) → Keeps n m (probe_row n row col r m)
  unfolding probe_row
  probe_row-Keeps r m =
      if-Keeps _ (λ e. Keeps-refl n m)
        (λ e. for_below-Keeps 9 (λ c lt m. probe_cell-Keeps r c e m) m)

  pub probe-Keeps : (m : Modules) → Keeps n m (setup_position_probe_pattern n row col m)
  unfolding setup_position_probe_pattern
  probe-Keeps m = for_below-Keeps 9 (λ r lt m. probe_row-Keeps r m) m

  probe_cell_set :
      (r c : ℕ)
      → outside n (col + c) ≡ false
      → (m : Modules) → is_unset (probe_cell n row col r c m (row + r - 1) (col + c - 1)) ≡ false
  unfolding probe_cell
  probe_cell_set r c e m = rw e (set_module_set _ _ _ m)

  probe_row_set :
      (r c : ℕ)
      → c < 9
      → outside n (row + r) ≡ false
      → outside n (col + c) ≡ false
      → (m : Modules) → is_unset (probe_row n row col r m (row + r - 1) (col + c - 1)) ≡ false
  unfolding probe_row
  probe_row_set r c lt d e m =
      rw d (for_below_set 9 (λ c lt m. probe_cell-Keeps r c d m) c _ _ lt (probe_cell_set r c e) m)

  -- The nine by nine modules around a finder, as far as they are inside, are set.
  pub probe_set :
      (r c : ℕ)
      → r < 9
      → c < 9
      → 1 ≤ row + r
      → row + r ≤ n
      → 1 ≤ col + c
      → col + c ≤ n
      → (m : Modules)
      → is_unset (setup_position_probe_pattern n row col m (row + r - 1) (col + c - 1)) ≡ false
  unfolding setup_position_probe_pattern
  probe_set r c rlt clt rlo rhi clo chi m =
      for_below_set 9 (λ r lt m. probe_row-Keeps r m) r _ _ rlt
        (probe_row_set r c clt (inside-false n _ rlo rhi) (inside-false n _ clo chi)) m

timing_cell-Keeps :
    {n row col : ℕ} (v : Bool) (m : Modules)
    → row < n
    → col < n
    → Keeps n m (timing_cell row col v m)
unfolding timing_cell
timing_cell-Keeps {n} v m rh ch = if-Keeps _ (λ e. set_module-Keeps v m rh ch) (λ e. Keeps-refl n m)

timing_cell_set :
    (row col : ℕ) (v : Bool) (m : Modules) → is_unset (timing_cell row col v m row col) ≡ false
unfolding timing_cell
timing_cell_set row col v m = elim (Bool-cases (is_unset (m row col))) [
  | inl e ↦ rw e (set_module_set row col v m)
  | inr e ↦ rw e e
]

module _ (n : ℕ) (big : 21 ≤ n) where
  vertical-Keeps :
      (k : ℕ) → k < n - 16 → (m : Modules) → Keeps n m (timing_cell (k + 8) 6 ((k + 8) % 2 == 0) m)
  vertical-Keeps k lt m = timing_cell-Keeps _ m (omega arith) (omega arith)

  horizontal-Keeps :
      (k : ℕ) → k < n - 16 → (m : Modules) → Keeps n m (timing_cell 6 (k + 8) ((k + 8) % 2 == 0) m)
  horizontal-Keeps k lt m = timing_cell-Keeps _ m (omega arith) (omega arith)

  pub timing-Keeps : (m : Modules) → Keeps n m (setup_timing_pattern n m)
  unfolding setup_timing_pattern
  timing-Keeps m =
      Keeps-trans (for_below-Keeps (n - 16) vertical-Keeps m)
        (for_below-Keeps (n - 16) horizontal-Keeps _)

  pub timing_set :
      (k : ℕ) → k < n - 16 → (m : Modules) → is_unset (setup_timing_pattern n m (k + 8) 6) ≡ false
  unfolding setup_timing_pattern
  timing_set k lt m =
      (for_below-Keeps (n - 16) horizontal-Keeps _).grows (k + 8) 6
        (for_below_set (n - 16) vertical-Keeps k _ _ lt (timing_cell_set (k + 8) 6 _) m)

  adjust_cell-Keeps :
      (row col r c : ℕ)
      → Inside n row
      → Inside n col
      → r < 5
      → c < 5
      → (m : Modules) → Keeps n m (adjust_cell row col r c m)
  unfolding adjust_cell
  adjust_cell-Keeps row col r c (rlo, rhi) (clo, chi) rlt clt m =
      set_module-Keeps _ m (omega arith) (omega arith)

  adjust_block-Keeps :
      (row col : ℕ)
      → Inside n row
      → Inside n col
      → (m : Modules) → Keeps n m (for_below 5 (λ r. for_below 5 (adjust_cell row col r)) m)
  adjust_block-Keeps row col rin cin m =
      for_below-Keeps 5
        (λ r rlt m.
          for_below-Keeps 5 (λ c clt m. adjust_cell-Keeps row col r c rin cin rlt clt m) m)
        m

  adjust_at-Keeps :
      (row col : ℕ) → Inside n row → Inside n col → (m : Modules) → Keeps n m (adjust_at row col m)
  unfolding adjust_at
  adjust_at-Keeps row col rin cin m =
      if-Keeps _ (λ e. adjust_block-Keeps row col rin cin m) (λ e. Keeps-refl n m)

  pub adjust-Keeps :
      (pos : List ℕ)
      → All (Inside n) pos
      → (m : Modules) → Keeps n m (setup_position_adjust_pattern pos m)
  unfolding setup_position_adjust_pattern
  adjust-Keeps pos a m =
      for_each-Keeps (Inside n) pos a
        (λ row rin m.
          for_each-Keeps (Inside n) pos a (λ col cin m. adjust_at-Keeps row col rin cin m) m)
        m

  pub type_number-Keeps :
      (t : ℕ) (test : Bool) (m : Modules) → Keeps n m (setup_type_number n t test m)
  unfolding setup_type_number
  type_number-Keeps t test m =
      Keeps-trans
        (for_below-Keeps 18 (λ i lt m. set_module-Keeps _ m (omega arith) (omega arith)) m)
        (for_below-Keeps 18 (λ i lt m. set_module-Keeps _ m (omega arith) (omega arith)) _)

  info_vertical-Keeps :
      (test : Bool) (bits i : ℕ)
      → i < 15
      → (m : Modules) → Keeps n m (info_vertical n test bits i m)
  unfolding info_vertical
  info_vertical-Keeps test bits i lt m = elim (Bool-cases (ltb i 6)) [
    | inl e ↦ rw e (set_module-Keeps _ m (omega arith) (omega arith))
    | inr e ↦ elim (Bool-cases (ltb i 8)) [
      | inl d ↦ rw (e, d) (set_module-Keeps _ m (omega arith) (omega arith))
      | inr d ↦ rw (e, d) (set_module-Keeps _ m (ground arith) (ground arith))
    ]
  ]

  info_horizontal-Keeps :
      (test : Bool) (bits i : ℕ)
      → i < 15
      → (m : Modules) → Keeps n m (info_horizontal n test bits i m)
  unfolding info_horizontal
  info_horizontal-Keeps test bits i lt m = elim (Bool-cases (ltb i 8)) [
    | inl e ↦ rw e (set_module-Keeps _ m (omega arith) (omega arith))
    | inr e ↦ elim (Bool-cases (ltb i 9)) [
      | inl d ↦ rw (e, d) (set_module-Keeps _ m (omega arith) (omega arith))
      | inr d ↦ rw (e, d) (set_module-Keeps _ m (ground arith) (ground arith))
    ]
  ]

  pub type_info-Keeps :
      (level : ℕ) (test : Bool) (pattern : ℕ) (m : Modules)
      → Keeps n m (setup_type_info n level test pattern m)
  unfolding setup_type_info
  type_info-Keeps level test pattern m =
      Keeps-trans
        (Keeps-trans (for_below-Keeps 15 (info_vertical-Keeps test _) m)
          (for_below-Keeps 15 (info_horizontal-Keeps test _) _))
        (set_module-Keeps _ _ (omega arith) (omega arith))
