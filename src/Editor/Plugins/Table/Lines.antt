-- ===== src/Editor/Plugins/Table/Lines.antt =====
-- The lines of an inserted table, and their cells.
use study_tech.Base.{
  ℕ, zero, suc, ◌+◌, ◌-◌, ◌≤◌, ◌<◌, ◌≡◌, refl, ap, ◌∙◌, arith, List, [], ◌∷◌, ◌++◌, true, false,
  ◌==◌, ◌&&◌, ltb, if◌then◌else◌, Bool-cases, inl, inr,
}
use study_tech.Editor.Text.{Text, newline, IsInline, split_lines, split_lines-append}
use study_tech.Editor.Plugins.Table.{
  Align, default, left, center, right, hr_line, row_sep, align_sign, copies, join, bar, framed,
  row_line, head_line, rows_from, table_text,
}

append_assoc : (s t u : Text) → (s ++ t) ++ u ≡ s ++ (t ++ u)
append_assoc [] t u = refl
append_assoc (c ∷ s) t u = ap (λ (x : Text). c ∷ x) (append_assoc s t u)

append-IsInline : (s t : Text) → IsInline s → IsInline t → IsInline (s ++ t)
append-IsInline [] t h k = k
append-IsInline (c ∷ s) t (h, hs) k = (h, append-IsInline s t hs k)

join-IsInline :
    (sep t : Text) (n : ℕ) → IsInline sep → IsInline t → IsInline (join sep (copies n t))
unfolding join
join-IsInline sep t zero h k = tt
join-IsInline sep t (suc zero) h k = k
join-IsInline sep t (suc (suc n)) h k =
    append-IsInline t _ k (append-IsInline sep _ h (join-IsInline sep t (suc n) h k))

-- How many bars a line has.
unfoldable pub bars : Text → ℕ
bars [] = 0
bars (c ∷ t) = (if c == 124 then 1 else 0) + bars t

bars-append : (s t : Text) → bars (s ++ t) ≡ bars s + bars t
unfolding bars
bars-append [] t = omega arith
bars-append (c ∷ s) t = omega (arith, bars-append s t)

bars-join :
    (sep t : Text) (n : ℕ) → bars sep ≡ 1 → bars t ≡ 0 → bars (join sep (copies (suc n) t)) ≡ n
unfolding join
bars-join sep t zero h k = k
bars-join sep t (suc n) h k = omega (
  arith,
  bars-append t (sep ++ join sep (copies (suc n) t)),
  bars-append sep (join sep (copies (suc n) t)),
  bars-join sep t n h k,
)

bars-framed : (t : Text) → bars (framed t) ≡ bars t + 2
unfolding bars
bars-framed t = omega (arith, bars-append t (32 ∷ 124 ∷ []))

framed-IsInline : (t : Text) → IsInline t → IsInline (framed t)
framed-IsInline t h = (refl, (refl, append-IsInline t _ h (refl, (refl, tt))))

hr_line-IsInline : IsInline hr_line
hr_line-IsInline = (
  refl,
  (refl, (refl, (refl, (refl, (refl, (refl, (refl, (refl, (refl, (refl, (refl, tt))))))))))),
)

align_sign-IsInline : (a : Align) → IsInline (align_sign a)
unfolding align_sign
align_sign-IsInline default = hr_line-IsInline
align_sign-IsInline left = (refl, hr_line-IsInline)
align_sign-IsInline center = (refl, append-IsInline hr_line (58 ∷ []) hr_line-IsInline (refl, tt))
align_sign-IsInline right = append-IsInline hr_line (58 ∷ []) hr_line-IsInline (refl, tt)

bars-align_sign : (a : Align) → bars (align_sign a) ≡ 0
unfolding align_sign bars
bars-align_sign default = refl
bars-align_sign left = refl
bars-align_sign center = refl
bars-align_sign right = refl

bars-bar : bars bar ≡ 1
unfolding bars
bars-bar = refl

bars-blank : bars (32 ∷ []) ≡ 0
unfolding bars
bars-blank = refl

one_blank : bars (join (row_sep 1) (copies 1 (32 ∷ []))) ≡ 0
unfolding bars join
one_blank = refl

row_sep-many : (n : ℕ) → row_sep (suc (suc n)) ≡ bar
unfolding row_sep
row_sep-many n = let other : (suc (suc n) == 1) ≡ false = ground arith in rw other refl

bars-row_line : (n : ℕ) → bars (row_line (suc n)) ≡ suc n + 1
unfolding row_line
bars-row_line zero = omega (arith, bars-framed (join (row_sep 1) (copies 1 (32 ∷ []))), one_blank)
bars-row_line (suc n) = omega (
  arith,
  bars-framed (join (row_sep (suc (suc n))) (copies (suc (suc n)) (32 ∷ []))),
  bars-join (row_sep (suc (suc n))) (32 ∷ []) (suc n) (ap bars (row_sep-many n) ∙ bars-bar)
      bars-blank,
)

bars-head_line : (n : ℕ) (a : Align) → bars (head_line (suc n) a) ≡ suc n + 1
unfolding head_line
bars-head_line n a = omega (
  arith,
  bars-framed (join bar (copies (suc n) (align_sign a))),
  bars-join bar (align_sign a) n bars-bar (bars-align_sign a),
)

bar-IsInline : IsInline bar
bar-IsInline = (refl, (refl, (refl, tt)))

row_sep-IsInline : (cols : ℕ) → IsInline (row_sep cols)
unfolding row_sep
row_sep-IsInline cols = elim (Bool-cases (cols == 1)) [
  | inl e ↦ rw e tt
  | inr e ↦ rw e bar-IsInline
]

row_line-IsInline : (cols : ℕ) → IsInline (row_line cols)
unfolding row_line
row_line-IsInline cols =
    framed-IsInline _
      (join-IsInline (row_sep cols) (32 ∷ []) cols (row_sep-IsInline cols) (refl, tt))

head_line-IsInline : (cols : ℕ) (a : Align) → IsInline (head_line cols a)
unfolding head_line
head_line-IsInline cols a =
    framed-IsInline _ (join-IsInline bar (align_sign a) cols bar-IsInline (align_sign-IsInline a))

module _ (cols : ℕ) (a : Align) where
  rows_from-plain :
      (todo r : ℕ)
      → 2 ≤ r
      → split_lines (rows_from todo r cols a) ≡ copies todo (row_line cols) ++ [] ∷ []
  unfolding rows_from split_lines
  rows_from-plain zero r h = refl
  rows_from-plain (suc todo) r h =
      let other : (r == 1) ≡ false = ground arith in
      rw other (
        split_lines-append (row_line cols) (rows_from todo (r + 1) cols a) (row_line-IsInline cols)
        ∙ ap (λ (ls : List Text). row_line cols ∷ ls) (rows_from-plain todo (r + 1) (omega arith)))

  rows_from-lines :
      (k : ℕ)
      → split_lines (rows_from (suc (suc k)) 0 cols a)
        ≡ row_line cols ∷ head_line cols a ∷ copies (suc k) (row_line cols) ++ [] ∷ []
  unfolding rows_from
  rows_from-lines k =
      split_lines-append (row_line cols) _ (row_line-IsInline cols)
      ∙ ap (λ (ls : List Text). row_line cols ∷ ls)
          (ap split_lines (append_assoc (head_line cols a) (newline ∷ []) _)
            ∙ split_lines-append (head_line cols a) _ (head_line-IsInline cols a)
            ∙ ap (λ (ls : List Text). head_line cols a ∷ ls)
                (split_lines-append (row_line cols) (rows_from k 2 cols a) (row_line-IsInline cols)
                  ∙ ap (λ (ls : List Text). row_line cols ∷ ls)
                      (rows_from-plain k 2 (omega arith))))

-- A table of at least two rows and one column is put in as its rows, with the line of alignments
-- behind the first, each on a line of its own and closed by a newline; and each of these lines has
-- one bar more than the table has columns.
pub table_text-lines :
    (rows cols : ℕ) (a : Align)
    → 1 < rows
    → 0 < cols
    → (split_lines (table_text rows cols a)
        ≡ row_line cols ∷ head_line cols a ∷ copies (rows - 1) (row_line cols) ++ [] ∷ [])
      × (bars (row_line cols) ≡ cols + 1)
      × (bars (head_line cols a) ≡ cols + 1)
unfolding table_text
table_text-lines zero cols a r c = absurd (omega arith)
table_text-lines (suc zero) cols a r c = absurd (omega arith)
table_text-lines (suc (suc k)) zero a r c = absurd (omega arith)
table_text-lines (suc (suc k)) (suc n) a r c =
    let enough : (ltb 1 (suc (suc k)) && ltb 0 (suc n)) ≡ true = ground arith in
    let less : suc (suc k) - 1 ≡ suc k = omega arith in
    (rw (enough, less) (rows_from-lines (suc n) a k), bars-row_line n, bars-head_line n a)
