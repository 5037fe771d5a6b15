-- ===== src/Editor/Plugins/Table.antt =====
-- The enter button of plugins/table-dialog/table-dialog.js.
pub mod Lines
use study_tech.Base.{
  ℕ, zero, suc, ◌+◌, ◌-◌, ◌≤◌, ◌<◌, ◌≡◌, refl, sym, ap, ap₂, ◌∙◌, arith, List, [], ◌∷◌, ◌++◌,
  length, Bool, true, false, ◌==◌, ◌&&◌, ltb, if◌then◌else◌, All, Bool-cases, inl, inr, ==_iff,
}
use study_tech.Editor.Text.{
  Text, newline, IsInline, split_lines, join_lines, split_lines-join_lines,
}

pub data Align : Type 0 where
  default : Align
  left : Align
  center : Align
  right : Align

-- "------------"
abbrev pub hr_line : Text
hr_line = 45 ∷ 45 ∷ 45 ∷ 45 ∷ 45 ∷ 45 ∷ 45 ∷ 45 ∷ 45 ∷ 45 ∷ 45 ∷ 45 ∷ []

-- alignSign
unfoldable pub align_sign : Align → Text
align_sign default = hr_line
align_sign left = 58 ∷ hr_line
align_sign center = 58 ∷ hr_line ++ 58 ∷ []
align_sign right = hr_line ++ 58 ∷ []

-- for (c = 0; c < cols; c++) push(text)
abbrev pub copies : ℕ → Text → List Text
copies zero t = []
copies (suc n) t = t ∷ copies n t

-- Array.join
unfoldable pub join : Text → List Text → Text
join sep [] = []
join sep (t ∷ []) = t
join sep (t ∷ u ∷ ts) = t ++ (sep ++ join sep (u ∷ ts))

-- " | "
abbrev pub bar : Text
bar = 32 ∷ 124 ∷ 32 ∷ []

-- "| " + … + " |"
abbrev pub framed : Text → Text
framed t = 124 ∷ 32 ∷ t ++ 32 ∷ 124 ∷ []

-- (cols === 1) ? "" : " | "
unfoldable pub row_sep : ℕ → Text
row_sep cols = if cols == 1 then [] else bar

-- A row and the line of the alignments, without the newline.
unfoldable pub row_line : ℕ → Text
unfolding join row_sep
row_line cols = framed (join (row_sep cols) (copies cols (32 ∷ [])))

unfoldable pub head_line : ℕ → Align → Text
unfolding join align_sign
head_line cols align = framed (join bar (copies cols (align_sign align)))

-- The loop over `r`, with `todo` rounds to go.
unfoldable pub rows_from : ℕ → ℕ → ℕ → Align → Text
unfolding row_line head_line
rows_from zero r cols align = []
rows_from (suc todo) r cols align =
    (if r == 1 then head_line cols align ++ newline ∷ [] else [])
    ++ (row_line cols ++ newline ∷ rows_from todo (r + 1) cols align)

-- The text that replaces the selection. What parseInt gives is a number from 0 on here: NaN and
-- the negative numbers fail the test as 0 does.
unfoldable pub table_text : ℕ → ℕ → Align → Text
unfolding rows_from
table_text rows cols align = if ltb 1 rows && ltb 0 cols then rows_from rows 0 cols align else []
