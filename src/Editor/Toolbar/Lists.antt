-- ===== src/Editor/Toolbar/Lists.antt =====
-- What list-ul and list-ol make of the selected lines.
use study_tech.Base.{
  ℕ, suc, ◌≡◌, refl, List, [], ◌∷◌, ◌++◌, false, ◌==◌, All, Bool-cases, inl, inr, map,
}
use study_tech.Editor.Text.{
  Text, newline, IsInline, split_lines, join_lines, add_to_first, split_lines-join_lines,
}
use study_tech.Editor.CodeMirror.{CodeMirror, cursor_at, IsEditor}
use study_tech.Editor.Toolbar.{is_blank, decimal, bullet, numbered, list_ul, list_ol}
use study_tech.Editor.Toolbar.Decimal.{
  IsDigit, value, decimal-AreDigits, decimal-value, decimal-append-IsInline,
}

-- The lines of a text, as they are split.
split_lines_head :
    (t : Text) → (l : Text) × (ls : List Text) × (split_lines t ≡ l ∷ ls) × All IsInline (l ∷ ls)
unfolding split_lines add_to_first
split_lines_head [] = ([], [], refl, (tt, tt))
split_lines_head (c ∷ t) =
    let (l, ls, e, h) = split_lines_head t in
    elim (Bool-cases (c == newline)) [
      | inl k ↦ ([], l ∷ ls, (rw (split_lines, k, e) refl), (tt, h))
      | inr k ↦ (c ∷ l, ls, (rw (split_lines, k, e) refl), ((k, h.0), h.1))
    ]

bullet-IsInline : (l : Text) → IsInline l → IsInline (bullet l)
unfolding bullet is_blank
bullet-IsInline [] h = tt
bullet-IsInline (c ∷ l) h = (refl, (refl, h))

map-bullet-IsInline : (ls : List Text) → All IsInline ls → All IsInline (map bullet ls)
map-bullet-IsInline [] h = tt
map-bullet-IsInline (l ∷ ls) h = (bullet-IsInline l h.0, map-bullet-IsInline ls h.1)

numbered-IsInline : (ls : List Text) (i : ℕ) → All IsInline ls → All IsInline (numbered i ls)
unfolding numbered is_blank
numbered-IsInline [] i h = tt
numbered-IsInline ([] ∷ ls) i h = (tt, numbered-IsInline ls (suc i) h.1)
numbered-IsInline ((c ∷ l) ∷ ls) i h =
    (decimal-append-IsInline (suc i) _ (refl, (refl, h.0)), numbered-IsInline ls (suc i) h.1)

-- The lines of the text that a list handler inserts are the lines of the selection, each with a
-- bullet or with its number, counted from 1 over all lines; an empty line stays empty.
split_lines-lists :
    (selection : Text)
    → (split_lines (join_lines (map bullet (split_lines selection)))
        ≡ map bullet (split_lines selection))
      × (split_lines (join_lines (numbered 0 (split_lines selection)))
          ≡ numbered 0 (split_lines selection))
unfolding numbered
split_lines-lists t =
    let (l, ls, e, h) = split_lines_head t in
    rw e (
      split_lines-join_lines (bullet l) (map bullet ls) (map-bullet-IsInline (l ∷ ls) h),
      split_lines-join_lines _ (numbered 1 ls) (numbered-IsInline (l ∷ ls) 0 h),
    )

-- A line of a bullet list: an empty line stays empty, any other gets "- ".
abbrev pub IsBulleted : Text → Text → Type 0
IsBulleted [] m = m ≡ []
IsBulleted (c ∷ l) m = m ≡ 45 ∷ 32 ∷ c ∷ l

-- A line of a numbered list: any but an empty line gets decimal digits that read as `n`, and ". ".
abbrev pub IsNumbered : ℕ → Text → Text → Type 0
IsNumbered n [] m = m ≡ []
IsNumbered n (c ∷ l) m =
    (digits : Text) × (m ≡ digits ++ 46 ∷ 32 ∷ c ∷ l) × All IsDigit digits × (value digits ≡ n)

-- As many lines as before, each of them bulleted.
abbrev pub AreBulleted : List Text → List Text → Type 0
AreBulleted [] [] = Unit
AreBulleted (l ∷ ls) (m ∷ ms) = IsBulleted l m × AreBulleted ls ms
AreBulleted _ _ = ⊥

-- As many lines as before, numbered from `n` on; an empty line is counted too.
abbrev pub AreNumbered : ℕ → List Text → List Text → Type 0
AreNumbered n [] [] = Unit
AreNumbered n (l ∷ ls) (m ∷ ms) = IsNumbered n l m × AreNumbered (suc n) ls ms
AreNumbered n _ _ = ⊥

map-bullet-AreBulleted : (ls : List Text) → AreBulleted ls (map bullet ls)
unfolding bullet is_blank
map-bullet-AreBulleted [] = tt
map-bullet-AreBulleted ([] ∷ ls) = (refl, map-bullet-AreBulleted ls)
map-bullet-AreBulleted ((c ∷ l) ∷ ls) = (refl, map-bullet-AreBulleted ls)

numbered-AreNumbered : (ls : List Text) (i : ℕ) → AreNumbered (suc i) ls (numbered i ls)
unfolding numbered is_blank
numbered-AreNumbered [] i = tt
numbered-AreNumbered ([] ∷ ls) i = (refl, numbered-AreNumbered ls (suc i))
numbered-AreNumbered ((c ∷ l) ∷ ls) i = (
  (decimal (suc i), refl, decimal-AreDigits (suc i), decimal-value (suc i)),
  numbered-AreNumbered ls (suc i),
)

module _ (cm : CodeMirror) (editor : IsEditor cm) where
  -- list-ul and list-ol replace a selection that is not empty by as many lines as it has. An empty
  -- line stays empty. list-ul puts "- " in front of every other line; list-ol puts in front of it
  -- decimal digits and ". ", where the digits read as the line's number, counted from 1 over all
  -- lines. The cursor stands behind what was inserted.
  pub lists-view :
      (s : cm.State)
      → is_blank (editor.view s).selected ≡ false
      → (ul : Text) × (ol : Text) × (editor.view (list_ul cm s)
          ≡ cursor_at ((editor.view s).before ++ ul) (editor.view s).after)
        × (editor.view (list_ol cm s)
            ≡ cursor_at ((editor.view s).before ++ ol) (editor.view s).after)
        × AreBulleted (split_lines (editor.view s).selected) (split_lines ul)
        × AreNumbered 1 (split_lines (editor.view s).selected) (split_lines ol)
  unfolding list_ul list_ol
  lists-view s h =
      let all = split_lines (editor.view s).selected in
      let lines = split_lines-lists (editor.view s).selected in
      (
        join_lines (map bullet all),
        join_lines (numbered 0 all),
        (rw (list_ul, editor.get_selection-view s, h) (editor.replace_selection-view _ s)),
        (rw (list_ol, editor.get_selection-view s, h) (editor.replace_selection-view _ s)),
        (rw lines.0 (map-bullet-AreBulleted all)),
        (rw lines.1 (numbered-AreNumbered all 0)),
      )
