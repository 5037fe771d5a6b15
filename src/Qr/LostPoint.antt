-- ===== src/Qr/LostPoint.antt =====
-- QRUtil.getLostPoint: how bad a symbol is to read.
use study_tech.Base.{
  ℕ, ◌+◌, ◌-◌, ◌*◌, Bool, true, false, not, ◌&&◌, ◌||◌, ◌==◌, ltb, if◌then◌else◌, Option, none,
  some,
}
use study_tech.Qr.Modules.{Modules, truth, for_below}
use study_tech.Qr.Modules.Patterns.{outside}

-- `==` of two modules.
unfoldable pub same : Option Bool → Option Bool → Bool
same none none = true
same (some true) (some true) = true
same (some false) (some false) = true
same _ _ = false

abbrev count_if : Bool → ℕ → ℕ
count_if true k = k + 1
count_if false k = k

-- The modules that getLostPoint reads through isDark; the loops keep inside of the square.
module _ (module_count : ℕ) (m : Modules) where
  -- `r` and `c` are one higher: they start from -1.
  unfoldable pub same_cell : ℕ → ℕ → ℕ → ℕ → ℕ → ℕ
  unfolding same outside
  same_cell row col r c count =
      if outside module_count (row + r) || outside module_count (col + c) || ((r == 1) && (c == 1))
      then count
      else count_if (same (m row col) (m (row + r - 1) (col + c - 1))) count

  unfoldable pub same_count : ℕ → ℕ → ℕ
  unfolding same_cell for_below
  same_count row col = for_below 3 (λ r. for_below 3 (same_cell row col r)) 0

  unfoldable pub crowd_points : ℕ → ℕ → ℕ → ℕ
  unfolding same_count
  crowd_points row col points =
      let count = same_count row col in if ltb 5 count then points + (3 + count - 5) else points

  abbrev dark : ℕ → ℕ → Bool
  dark row col = truth (m row col)

  unfoldable pub block_points : ℕ → ℕ → ℕ → ℕ
  block_points row col points =
      let count = count_if (dark (row + 1) (col + 1)) (
        count_if (dark row (col + 1))
          (count_if (dark (row + 1) col) (count_if (dark row col) 0))) in
      if (count == 0) || (count == 4) then points + 3 else points

  -- Dark, light, three times dark, light, dark.
  unfoldable pub is_finder : (ℕ → Bool) → Bool
  is_finder at = at 0 && not (at 1) && at 2 && at 3 && at 4 && not (at 5) && at 6

  unfoldable pub finder_points : (ℕ → Bool) → ℕ → ℕ
  unfolding is_finder
  finder_points at points = if is_finder at then points + 40 else points

  -- The four loops in turn.
  unfoldable pub pattern_points : ℕ
  unfolding crowd_points block_points finder_points for_below
  pattern_points =
      let crowds = for_below module_count (λ row. for_below module_count (crowd_points row)) 0 in
      let blocks =
        for_below (module_count - 1) (λ row. for_below (module_count - 1) (block_points row))
          crowds in
      let rows =
        for_below module_count
          (λ row. for_below (module_count - 6) (λ col. finder_points (λ k. dark row (col + k))))
          blocks in
      for_below module_count
        (λ col. for_below (module_count - 6) (λ row. finder_points (λ k. dark (row + k) col))) rows

  unfoldable pub dark_count : ℕ
  unfolding for_below
  dark_count =
      for_below module_count (λ col. for_below module_count (λ row. count_if (dark row col))) 0

  -- The points times moduleCount ^ 2, as an exact number: the ratio times 10 is
  -- |200 * darkCount - 100 * moduleCount ^ 2| / moduleCount ^ 2.
  unfoldable pub get_lost_point : ℕ
  unfolding pattern_points dark_count
  get_lost_point =
      let square = module_count * module_count in
      let twice = 200 * dark_count in
      pattern_points * square + (twice - 100 * square) + (100 * square - twice)
