-- ===== src/Editor/Toolbar.antt =====
-- editormd.toolbarHandlers, and the handlers that editormd.keyMaps writes out itself.
pub mod Decimal
pub mod Insert
pub mod Heading
pub mod Lists
use study_tech.Base.{
  ℕ, zero, suc, ◌+◌, ◌/◌, ◌%◌, List, [], ◌∷◌, ◌++◌, Bool, true, false, not, ◌==◌, ltb, map,
  if◌then◌else◌,
}
use study_tech.Editor.Text.{Text, newline, Pos, split_lines, join_lines}
use study_tech.Editor.CodeMirror.{CodeMirror}

unfoldable pub is_blank : Text → Bool
is_blank [] = true
is_blank (c ∷ cs) = false

-- What String makes of a number, with fuel for its digits.
unfoldable pub decimal_on : ℕ → ℕ → Text
decimal_on zero n = []
decimal_on (suc fuel) n =
    let rest = decimal_on fuel (n / 10) in
    if ltb n 10 then (48 + n) ∷ [] else rest ++ (48 + n % 10) ∷ []

unfoldable pub decimal : ℕ → Text
decimal n = decimal_on (suc n) n

-- One line of a bullet list, and the lines of a numbered one from the index `i`.
unfoldable pub bullet : Text → Text
bullet l = if is_blank l then [] else 45 ∷ 32 ∷ l

unfoldable pub numbered : ℕ → List Text → List Text
numbered i [] = []
numbered i (l ∷ ls) =
    (if is_blank l then [] else decimal (suc i) ++ 46 ∷ 32 ∷ l) ∷ numbered (suc i) ls

-- The title of a link or an image: ` "selection"`.
unfoldable pub title_of : Text → Text
title_of selection = if is_blank selection then [] else 32 ∷ 34 ∷ selection ++ 34 ∷ []

-- A handler that a setting forbids calls `alert` and changes nothing.
pub data Outcome (S : Type 0) : Type 0 where
  edited : S → Outcome S
  alerted : S → Outcome S

module _ (cm : CodeMirror) where
  -- `f selection` takes the place of the selection; the cursor moves by `skip` if that was empty.
  unfoldable pub insert : (Text → Text) → ℕ → cm.State → cm.State
  insert f skip s =
      let cursor = cm.get_cursor s in
      let selection = cm.get_selection s in
      let t = cm.replace_selection (f selection) s in
      if is_blank selection
      then cm.set_cursor (record { line = cursor.line; ch = cursor.ch + skip }) t
      else t

  unfoldable pub around : Text → ℕ → cm.State → cm.State
  around mark skip s = insert (λ selection. mark ++ selection ++ mark) skip s

  unfoldable pub bold : cm.State → cm.State
  bold s = around (42 ∷ 42 ∷ []) 2 s

  unfoldable pub del : cm.State → cm.State
  del s = around (126 ∷ 126 ∷ []) 2 s

  unfoldable pub italic : cm.State → cm.State
  italic s = around (42 ∷ []) 1 s

  unfoldable pub code : cm.State → cm.State
  code s = around (96 ∷ []) 1 s

  unfoldable pub tex : Bool → cm.State → Outcome cm.State
  tex allowed s = if not allowed then alerted s else edited (around (36 ∷ 36 ∷ []) 2 s)

  -- Ctrl-E
  unfoldable pub emoji_key : Bool → cm.State → Outcome cm.State
  emoji_key allowed s = if not allowed then alerted s else edited (around (58 ∷ []) 1 s)

  -- Ctrl-L
  unfoldable pub link_key : cm.State → cm.State
  link_key s = insert (λ t. 91 ∷ t ++ 93 ∷ 40 ∷ title_of t ++ 41 ∷ []) 1 s

  -- Shift-Ctrl-A
  unfoldable pub at_key : Bool → cm.State → Outcome cm.State
  at_key allowed s = if not allowed then alerted s else edited (insert (λ t. 64 ∷ t) 1 s)

  -- Shift-Alt-C
  unfoldable pub fence_key : cm.State → cm.State
  fence_key s = insert (λ t. join_lines ((96 ∷ 96 ∷ 96 ∷ []) ∷ t ∷ (96 ∷ 96 ∷ 96 ∷ []) ∷ [])) 3 s

  -- Shift-Ctrl-I
  unfoldable pub image_key : cm.State → cm.State
  image_key s = insert (λ t. 33 ∷ 91 ∷ t ++ 93 ∷ 40 ∷ title_of t ++ 41 ∷ []) 4 s

  -- The body of quote and of h1 to h6.
  unfoldable pub at_line_start : Text → ℕ → cm.State → cm.State
  at_line_start mark skip s =
      let cursor = cm.get_cursor s in
      let selection = cm.get_selection s in
      if cursor.ch == 0
      then cm.replace_selection (mark ++ selection) s
      else cm.set_cursor (record { line = cursor.line; ch = cursor.ch + skip })
          (cm.replace_selection (mark ++ selection)
            (cm.set_cursor (record { line = cursor.line; ch = 0 }) s))

  unfoldable pub quote : cm.State → cm.State
  quote s = at_line_start (62 ∷ 32 ∷ []) 2 s

  unfoldable pub h1 : cm.State → cm.State
  h1 s = at_line_start (35 ∷ 32 ∷ []) 2 s

  unfoldable pub h2 : cm.State → cm.State
  h2 s = at_line_start (35 ∷ 35 ∷ 32 ∷ []) 3 s

  unfoldable pub h3 : cm.State → cm.State
  h3 s = at_line_start (35 ∷ 35 ∷ 35 ∷ 32 ∷ []) 4 s

  unfoldable pub h4 : cm.State → cm.State
  h4 s = at_line_start (35 ∷ 35 ∷ 35 ∷ 35 ∷ 32 ∷ []) 5 s

  unfoldable pub h5 : cm.State → cm.State
  h5 s = at_line_start (35 ∷ 35 ∷ 35 ∷ 35 ∷ 35 ∷ 32 ∷ []) 6 s

  unfoldable pub h6 : cm.State → cm.State
  h6 s = at_line_start (35 ∷ 35 ∷ 35 ∷ 35 ∷ 35 ∷ 35 ∷ 32 ∷ []) 7 s

  -- list-ul and list-ol
  unfoldable pub list_ul : cm.State → cm.State
  list_ul s =
      let selection = cm.get_selection s in
      if is_blank selection
      then cm.replace_selection (45 ∷ 32 ∷ selection) s
      else cm.replace_selection (join_lines (map bullet (split_lines selection))) s

  unfoldable pub list_ol : cm.State → cm.State
  list_ol s =
      let selection = cm.get_selection s in
      if is_blank selection
      then cm.replace_selection (49 ∷ 46 ∷ 32 ∷ selection) s
      else cm.replace_selection (join_lines (numbered 0 (split_lines selection))) s

  unfoldable pub hr : cm.State → cm.State
  hr s =
      let cursor = cm.get_cursor s in
      let dashes = 45 ∷ 45 ∷ 45 ∷ 45 ∷ 45 ∷ 45 ∷ 45 ∷ 45 ∷ 45 ∷ 45 ∷ 45 ∷ 45 ∷ [] in
      cm.replace_selection
        ((if cursor.ch == 0 then newline ∷ [] else newline ∷ newline ∷ [])
          ++ dashes
          ++ newline ∷ newline ∷ [])
        s

  unfoldable pub pagebreak : Bool → cm.State → Outcome cm.State
  pagebreak allowed s =
      if not allowed
      then alerted s
      else edited (
          cm.replace_selection
            (13 ∷ 10 ∷ 91 ∷ 61 ∷ 61 ∷ 61 ∷ 61 ∷ 61 ∷ 61 ∷ 61 ∷ 61 ∷ 93 ∷ 13 ∷ 10 ∷ []) s)

  unfoldable pub undo : cm.State → cm.State
  undo s = cm.undo s

  unfoldable pub redo : cm.State → cm.State
  redo s = cm.redo s

  -- `String.prototype.toUpperCase` and `toLowerCase` are parameters.
  module _ (to_upper to_lower : Text → Text) where
    unfoldable pub uppercase : cm.State → cm.State
    uppercase s =
        let selections = cm.list_selections s in
        cm.set_selections selections (cm.replace_selection (to_upper (cm.get_selection s)) s)

    unfoldable pub lowercase : cm.State → cm.State
    lowercase s =
        let selections = cm.list_selections s in
        cm.set_selections selections (cm.replace_selection (to_lower (cm.get_selection s)) s)
