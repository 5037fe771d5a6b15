-- ===== src/Qr/MapData/Full.antt =====
-- mapData leaves no module `null` outside of column 6.
use study_tech.Base.{
  ℕ, zero, suc, ◌-◌, ◌%◌, ◌≤◌, ◌<◌, ◌≡◌, ◌≢◌, refl, arith, ◌⊎◌, inl, inr, Bool, false, ◌==◌, List,
  Option, Bool-cases, ==_iff,
}
use study_tech.Qr.Modules.{Modules, is_unset}
use study_tech.Qr.Modules.Keeps.{Keeps, Keeps-refl, Keeps-trans}
use study_tech.Qr.MapData.{Walk, skip_timing, columns, start, map_data}
use study_tech.Qr.MapData.Sweep.{AtEdge, at_bottom, IsWhole, sweep-IsWhole}

skip_timing-cases :
    (codewords : List (Option ℕ)) (mask : ℕ → ℕ → Bool) (n col : ℕ)
    → ((col ≢ 6) × (skip_timing codewords mask n col ≡ col))
      ⊎ ((col ≡ 6) × (skip_timing codewords mask n col ≡ 5))
unfolding skip_timing
skip_timing-cases codewords mask n col = elim (Bool-cases (col == 6)) [
  | inl e ↦ inr ((==_iff col 6).0 e, rw e refl)
  | inr e ↦ inl ((λ d. ground arith), rw e refl)
]

-- The columns from which the loop goes down to 1, past 6.
abbrev Ready : ℕ → Type 0
Ready col = (col % 2 ≡ 1) ⊎ (6 ≤ col)

Ready-next :
    (col c : ℕ)
    → Ready col
    → ((col ≢ 6) × (c ≡ col)) ⊎ ((col ≡ 6) × (c ≡ 5))
    → 1 ≤ c - 2
    → Ready (c - 2)
Ready-next col c (inl o) (inl (ne, e)) h = inl (omega arith)
Ready-next col c (inr b) (inl (ne, e)) h = elim (Bool-cases (c % 2 == 1)) [
  | inl o ↦ inl (ground arith)
  | inr o ↦ inr (ground arith)
]
Ready-next col c r (inr (at, e)) h = inl (omega arith)

skip_timing-le : (col c : ℕ) → ((col ≢ 6) × (c ≡ col)) ⊎ ((col ≡ 6) × (c ≡ 5)) → c ≤ col
skip_timing-le col c (inl (ne, e)) = omega arith
skip_timing-le col c (inr (at, e)) = omega arith

left_over :
    (col c j : ℕ)
    → 1 ≤ col
    → Ready col
    → ((col ≢ 6) × (c ≡ col)) ⊎ ((col ≡ 6) × (c ≡ 5))
    → j ≤ col
    → j ≢ 6
    → (j == c) ≡ false
    → (j == c - 1) ≡ false
    → (1 ≤ c - 2) × (j ≤ c - 2)
left_over col c j lo (inl o) (inl (d, e)) h ne p q = (ground arith, ground arith)
left_over col c j lo (inr b) (inl (d, e)) h ne p q = (ground arith, ground arith)
left_over col c j lo r (inr (at, e)) h ne p q =
    let below : j < 6 = elim (Bool-cases (j == 6)) [
      | inl six ↦ absurd (ne ((==_iff j 6).0 six))
      | inr other ↦ ground arith
    ] in
    (ground arith, ground arith)

module _ (codewords : List (Option ℕ)) (mask : ℕ → ℕ → Bool) (n : ℕ) where
  record Fills (col : ℕ) (w after : Walk) : Type 0 where
    keeps : Keeps n w.modules after.modules
    filled : (i j : ℕ) → i < n → 1 ≤ col → j ≤ col → j ≢ 6 → is_unset (after.modules i j) ≡ false

  Fills-step :
      (col c : ℕ) (w v after : Walk)
      → 1 ≤ col
      → Ready col
      → ((col ≢ 6) × (c ≡ col)) ⊎ ((col ≡ 6) × (c ≡ 5))
      → IsWhole codewords mask n c w v
      → Fills (c - 2) v after
      → Fills col w after
  Fills-step col c w v after lo r skip whole rest = record {
    keeps = Keeps-trans whole.keeps rest.keeps;
    filled = λ i j ih p jh ne. elim (Bool-cases (j == c)) [
      | inl e ↦ rw ((==_iff j c).0 e) (rest.keeps.grows i c (whole.right i ih))
      | inr e ↦ elim (Bool-cases (j == c - 1)) [
        | inl d ↦ rw ((==_iff j (c - 1)).0 d) (rest.keeps.grows i (c - 1) (whole.left i ih))
        | inr d ↦
            let under = left_over col c j lo r skip jh ne e d in
            rest.filled i j ih under.0 under.1 ne
      ]
    ];
  }

  columns-Fills :
      (fuel col : ℕ) (w : Walk)
      → col ≤ fuel
      → col < n
      → AtEdge codewords mask n w
      → (1 ≤ col → Ready col)
      → Fills col w (columns codewords mask n fuel col w)
  unfolding columns
  columns-Fills zero col w fh ch edge r = record {
    keeps = Keeps-refl n w.modules;
    filled = λ i j ih p. absurd (omega arith);
  }
  columns-Fills (suc fuel) zero w fh ch edge r = record {
    keeps = Keeps-refl n w.modules;
    filled = λ i j ih p. absurd (omega arith);
  }
  columns-Fills (suc fuel) (suc c) w fh ch edge r =
      let skip = skip_timing-cases codewords mask n (suc c) in
      let d = skip_timing codewords mask n (suc c) in
      let below : d ≤ suc c = skip_timing-le (suc c) d skip in
      let whole = sweep-IsWhole codewords mask n d w (omega arith) edge in
      Fills-step (suc c) d w _ _ (omega arith) (r (omega arith)) skip whole (
        columns-Fills fuel (d - 2) _ (omega arith) (omega arith) whole.edge
          (Ready-next (suc c) d (r (omega arith)) skip))

  -- From the right column on, where `n` is that of a symbol.
  pub map_data-Keeps : (m : Modules) → 21 ≤ n → Keeps n m (map_data codewords mask n m)
  unfolding map_data start
  map_data-Keeps m big =
      (columns-Fills n (n - 1) _ (omega arith) (omega arith) (at_bottom refl refl)
        (λ h. inr (omega arith))).keeps

  pub map_data_set :
      (m : Modules)
      → 21 ≤ n
      → (i j : ℕ) → i < n
      → j < n
      → j ≢ 6
      → is_unset (map_data codewords mask n m i j) ≡ false
  unfolding map_data start
  map_data_set m big i j ih jh ne =
      (columns-Fills n (n - 1) _ (omega arith) (omega arith) (at_bottom refl refl)
          (λ h. inr (omega arith))).filled
        i j ih (omega arith) (omega arith) ne
