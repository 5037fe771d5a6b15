-- ===== src/Qr/MapData/Sweep.antt =====
-- A sweep of mapData's inner loop sets both of its columns.
use study_tech.Base.{
  ℕ, zero, suc, ◌+◌, ◌-◌, ◌≤◌, ◌<◌, ◌≡◌, arith, ◌∙◌, sym, ap, ◌⊎◌, inl, inr, Bool, true, false, not,
  ◌==◌, leb, List, Option, Bool-cases, ==_iff, leb→le,
}
use study_tech.Qr.Modules.{is_unset}
use study_tech.Qr.Modules.Keeps.{Keeps}
use study_tech.Qr.MapData.{Walk, move, leaves, sweep}
use study_tech.Qr.MapData.Round.{
  IsSwept, round, round-IsRound, turned, moved, leaves_up, leaves_down, move_up, move_down,
  move_same, sweep_turns, sweep_moves,
}

upper : (a b i : ℕ) → i ≤ a → a ≤ b + 1 → (i ≡ a) ⊎ ((0 ≤ i) × (i ≤ b))
upper a b i h k = elim (Bool-cases (i == a)) [
  | inl e ↦ inl ((==_iff i a).0 e)
  | inr e ↦ inr (omega arith, ground arith)
]

lower : (a b n i : ℕ) → a ≤ i → i ≤ n → b ≤ a + 1 → (i ≡ a) ⊎ ((b ≤ i) × (i ≤ n))
lower a b n i h k l = elim (Bool-cases (i == a)) [
  | inl e ↦ inl ((==_iff i a).0 e)
  | inr e ↦ inr (ground arith, k)
]

module _ (codewords : List (Option ℕ)) (mask : ℕ → ℕ → Bool) (n : ℕ) where
  sweep_up :
      (fuel col : ℕ) (w : Walk)
      → w.up ≡ true
      → w.row < n
      → w.row < fuel
      → col < n
      → IsSwept codewords mask n 0 w.row 0 false col w (sweep codewords mask n fuel col w)
  sweep_up zero col w u rh fh ch = absurd (omega arith)
  sweep_up (suc fuel) col w u rh fh ch =
      let v = round codewords mask n col w in
      let r = round-IsRound codewords mask n col w rh ch in
      let ends = leaves_up codewords mask n v (r.same_up ∙ u) in
      elim (Bool-cases (leaves codewords mask n v)) [
        | inl e ↦
            let at : v.row ≡ 0 = (==_iff v.row 0).0 (sym ends ∙ e) in
            rw (sweep_turns codewords mask n fuel col w e) (
              turned codewords mask n w v r (omega (arith, r.same_row)) (ap not u)
                (λ i l h. omega (arith, r.same_row)))
        | inr e ↦
            let m = move codewords mask n v in
            let more : (v.row == 0) ≡ false = sym ends ∙ e in
            let at : m.row ≡ v.row - 1 = move_up codewords mask n v (r.same_up ∙ u) in
            let up : m.up ≡ true = move_same codewords mask n v ∙ r.same_up ∙ u in
            let pos : 1 ≤ v.row = ground arith in
            let rest =
              sweep_up fuel col m up (omega (arith, r.same_row)) (omega (arith, r.same_row)) ch in
            rw (sweep_moves codewords mask n fuel col w e) (
              moved codewords mask n w v _ r rest
                (λ i l h. upper w.row m.row i h (omega (arith, at, r.same_row))))
      ]

  sweep_down :
      (fuel col : ℕ) (w : Walk)
      → w.up ≡ false
      → w.row < n
      → n ≤ w.row + fuel
      → col < n
      → IsSwept codewords mask n w.row
          (n - 1)
          (n - 1)
          true
          col
          w
          (sweep codewords mask n fuel col w)
  sweep_down zero col w u rh fh ch = absurd (omega arith)
  sweep_down (suc fuel) col w u rh fh ch =
      let v = round codewords mask n col w in
      let r = round-IsRound codewords mask n col w rh ch in
      let ends = leaves_down codewords mask n v (r.same_up ∙ u) in
      elim (Bool-cases (leaves codewords mask n v)) [
        | inl e ↦
            let at : n ≤ v.row + 1 = leb→le n (v.row + 1) (sym ends ∙ e) in
            rw (sweep_turns codewords mask n fuel col w e) (
              turned codewords mask n w v r (omega (arith, r.same_row)) (ap not u)
                (λ i l h. omega (arith, r.same_row)))
        | inr e ↦
            let m = move codewords mask n v in
            let more : leb n (v.row + 1) ≡ false = sym ends ∙ e in
            let at : m.row ≡ v.row + 1 = move_down codewords mask n v (r.same_up ∙ u) in
            let up : m.up ≡ false = move_same codewords mask n v ∙ r.same_up ∙ u in
            let inside : v.row + 1 < n = ground arith in
            let rest =
              sweep_down fuel col m up (omega (arith, r.same_row)) (omega (arith, r.same_row)) ch in
            rw (sweep_moves codewords mask n fuel col w e) (
              moved codewords mask n w v _ r rest
                (λ i l h. lower w.row m.row (n - 1) i l h (omega (arith, at, r.same_row))))
      ]

  -- Between two sweeps the walk stands at an end of its columns.
  pub data AtEdge (w : Walk) : Type 0 where
    at_bottom : w.up ≡ true → w.row ≡ n - 1 → AtEdge w
    at_top : w.up ≡ false → w.row ≡ 0 → AtEdge w

  pub record IsWhole (col : ℕ) (w after : Walk) : Type 0 where
    pub keeps : Keeps n w.modules after.modules
    pub left : (i : ℕ) → i < n → is_unset (after.modules i (col - 1)) ≡ false
    pub right : (i : ℕ) → i < n → is_unset (after.modules i col) ≡ false
    pub edge : AtEdge after

  pub sweep-IsWhole :
      (col : ℕ) (w : Walk) → col < n → AtEdge w → IsWhole col w (sweep codewords mask n n col w)
  sweep-IsWhole col w ch (at_bottom u d) =
      let s = sweep_up n col w u (omega arith) (omega arith) ch in
      record {
        keeps = s.keeps;
        left = λ i h. s.left i (omega arith) (omega arith);
        right = λ i h. s.right i (omega arith) (omega arith);
        edge = at_top s.at_up s.at_row;
      }
  sweep-IsWhole col w ch (at_top u d) =
      let s = sweep_down n col w u (omega arith) (omega arith) ch in
      record {
        keeps = s.keeps;
        left = λ i h. s.left i (omega arith) (omega arith);
        right = λ i h. s.right i (omega arith) (omega arith);
        edge = at_bottom s.at_up s.at_row;
      }
