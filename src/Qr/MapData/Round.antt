-- ===== src/Qr/MapData/Round.antt =====
-- The rounds of mapData's inner loop: which modules they set, and where they go.
use study_tech.Base.{
  ℕ, suc, ◌+◌, ◌-◌, ◌≤◌, ◌<◌, ◌≡◌, refl, arith, ◌∙◌, sym, ap, ◌⊎◌, inl, inr, Bool, true, false, not,
  ◌==◌, leb, if◌then◌else◌, List, Option, Bool-cases,
}
use study_tech.Qr.Modules.{is_unset}
use study_tech.Qr.Modules.Keeps.{Keeps, Keeps-refl, Keeps-trans, set_module-Keeps, set_module_set}
use study_tech.Qr.MapData.{Walk, next_bit, put_module, map_cell, move, turn, leaves, sweep}

module _ (codewords : List (Option ℕ)) (mask : ℕ → ℕ → Bool) (n : ℕ) where
  -- What a step at column `col` does to the walk.
  record IsCell (col : ℕ) (w after : Walk) : Type 0 where
    pub keeps : Keeps n w.modules after.modules
    here : is_unset (after.modules w.row col) ≡ false
    pub same_row : after.row ≡ w.row
    pub same_up : after.up ≡ w.up

  IsCell-if :
      {col : ℕ} {w x y : Walk} (b : Bool)
      → IsCell col w x
      → IsCell col w y
      → IsCell col w (if b then x else y)
  IsCell-if true p q = p
  IsCell-if false p q = q

  put_module-IsCell :
      (col : ℕ) (w : Walk) → w.row < n → col < n → IsCell col w (put_module codewords mask n col w)
  unfolding put_module
  put_module-IsCell col w rh ch = record {
    keeps = set_module-Keeps _ w.modules rh ch;
    here = set_module_set w.row col _ w.modules;
    same_row = refl;
    same_up = refl;
  }

  next_bit-IsCell :
      (col : ℕ) (w x : Walk) → IsCell col w x → IsCell col w (next_bit codewords mask n x)
  unfolding next_bit
  next_bit-IsCell col w x c =
      IsCell-if _
        (record { keeps = c.keeps; here = c.here; same_row = c.same_row; same_up = c.same_up })
        (record { keeps = c.keeps; here = c.here; same_row = c.same_row; same_up = c.same_up })

  map_cell-IsCell :
      (col : ℕ) (w : Walk) → w.row < n → col < n → IsCell col w (map_cell codewords mask n col w)
  unfolding map_cell
  map_cell-IsCell col w rh ch = elim (Bool-cases (is_unset (w.modules w.row col))) [
    | inl e ↦ rw e (next_bit-IsCell col w _ (put_module-IsCell col w rh ch))
    | inr e ↦
        rw e (record { keeps = Keeps-refl n w.modules; here = e; same_row = refl; same_up = refl })
  ]

  -- Both cells of a round.
  pub record IsRound (col : ℕ) (w after : Walk) : Type 0 where
    pub keeps : Keeps n w.modules after.modules
    pub left : is_unset (after.modules w.row (col - 1)) ≡ false
    pub right : is_unset (after.modules w.row col) ≡ false
    pub same_row : after.row ≡ w.row
    pub same_up : after.up ≡ w.up

  pub round : ℕ → Walk → Walk
  round col w = map_cell codewords mask n (col - 1) (map_cell codewords mask n col w)

  pub round-IsRound : (col : ℕ) (w : Walk) → w.row < n → col < n → IsRound col w (round col w)
  unfolding round
  round-IsRound col w rh ch =
      let one = map_cell-IsCell col w rh ch in
      let two =
        map_cell-IsCell (col - 1) (map_cell codewords mask n col w) (omega (arith, one.same_row))
          (omega arith) in
      record {
        keeps = Keeps-trans one.keeps two.keeps;
        left =
            ap (λ (r : ℕ). is_unset ((round col w).modules r (col - 1))) (sym one.same_row)
            ∙ two.here;
        right = two.keeps.grows w.row col one.here;
        same_row = two.same_row ∙ one.same_row;
        same_up = two.same_up ∙ one.same_up;
      }

  -- A sweep that sets the rows from `lo` to `hi`, and ends at row `last`.
  pub record IsSwept (lo hi last : ℕ) (up : Bool) (col : ℕ) (w after : Walk) : Type 0 where
    pub keeps : Keeps n w.modules after.modules
    pub left : (i : ℕ) → lo ≤ i → i ≤ hi → is_unset (after.modules i (col - 1)) ≡ false
    pub right : (i : ℕ) → lo ≤ i → i ≤ hi → is_unset (after.modules i col) ≡ false
    pub at_row : after.row ≡ last
    pub at_up : after.up ≡ up

  pub turned :
      {lo hi last col : ℕ} {up : Bool} (w v : Walk)
      → IsRound col w v
      → w.row ≡ last
      → not w.up ≡ up
      → ((i : ℕ) → lo ≤ i → i ≤ hi → i ≡ w.row)
      → IsSwept lo hi last up col w (turn codewords mask n v)
  unfolding turn
  turned w v r d u here = record {
    keeps = r.keeps;
    left = λ i l h. rw (here i l h) r.left;
    right = λ i l h. rw (here i l h) r.right;
    at_row = r.same_row ∙ d;
    at_up = ap not r.same_up ∙ u;
  }

  pub moved :
      {lo hi lo2 hi2 last col : ℕ} {up : Bool} (w v after : Walk)
      → IsRound col w v
      → IsSwept lo2 hi2 last up col (move codewords mask n v) after
      → ((i : ℕ) → lo ≤ i → i ≤ hi → (i ≡ w.row) ⊎ ((lo2 ≤ i) × (i ≤ hi2)))
      → IsSwept lo hi last up col w after
  unfolding move
  moved {lo} {hi} {lo2} {hi2} {last} {col} w v after r s split = record {
    keeps = Keeps-trans r.keeps s.keeps;
    left = λ i l h. elim (split i l h) [
      | inl e ↦ rw e (s.keeps.grows w.row (col - 1) r.left)
      | inr (l2, h2) ↦ s.left i l2 h2
    ];
    right = λ i l h. elim (split i l h) [
      | inl e ↦ rw e (s.keeps.grows w.row col r.right)
      | inr (l2, h2) ↦ s.right i l2 h2
    ];
    at_row = s.at_row;
    at_up = s.at_up;
  }

  pub leaves_up : (w : Walk) → w.up ≡ true → leaves codewords mask n w ≡ (w.row == 0)
  unfolding leaves
  leaves_up w e = rw e refl

  pub leaves_down : (w : Walk) → w.up ≡ false → leaves codewords mask n w ≡ leb n (w.row + 1)
  unfolding leaves
  leaves_down w e = rw e refl

  pub move_up : (w : Walk) → w.up ≡ true → (move codewords mask n w).row ≡ w.row - 1
  unfolding move
  move_up w e = rw e refl

  pub move_down : (w : Walk) → w.up ≡ false → (move codewords mask n w).row ≡ w.row + 1
  unfolding move
  move_down w e = rw e refl

  pub move_same : (w : Walk) → (move codewords mask n w).up ≡ w.up
  unfolding move
  move_same w = refl

  -- A round of the loop, whose next rounds are `rest`.
  pub sweep_turns :
      (fuel col : ℕ) (w : Walk)
      → leaves codewords mask n (round col w) ≡ true
      → sweep codewords mask n (suc fuel) col w ≡ turn codewords mask n (round col w)
  unfolding sweep round
  sweep_turns fuel col w e = rw e refl

  pub sweep_moves :
      (fuel col : ℕ) (w : Walk)
      → leaves codewords mask n (round col w) ≡ false
      → sweep codewords mask n (suc fuel) col w
        ≡ sweep codewords mask n fuel col (move codewords mask n (round col w))
  unfolding sweep round
  sweep_moves fuel col w e = rw e refl
