-- ===== src/Editor/Tests.antt =====
-- An editor that meets the interface, and the theorems of the toolbar at it.
use study_tech.Base.{
  ℕ, suc, ◌+◌, ◌≡◌, ◌<◌, refl, arith, [], ◌∷◌, ◌++◌, length, Bool, true, false, ◌==◌, ◌&&◌,
  if◌then◌else◌, Bool-cases, ◌⊎◌, inl, inr,
}
use study_tech.Editor.Text.{Text, newline, Pos, position, end_from, end_from-append, split_lines}
use study_tech.Editor.CodeMirror.{CodeMirror, View, cursor_at, whole, IsEditor}
use study_tech.Editor.Toolbar.{
  bold, del, italic, code, quote, h1, h2, h3, h4, h5, h6, list_ul, list_ol, is_blank,
}
use study_tech.Editor.Toolbar.Insert.{marked, marks-view}
use study_tech.Editor.Toolbar.Heading.{IsOnLine, put_before, headings-view}
use study_tech.Editor.Toolbar.Lists.{AreBulleted, AreNumbered, lists-view}

abbrev same_pos : Pos → Pos → Bool
same_pos p q = (p.line == q.line) && (p.ch == q.ch)

-- The text from position `p` on, cut at the position `target`.
unfoldable cut : Pos → Pos → Text → Text × Text
cut p target [] = ([], [])
cut p target (c ∷ t) =
    let rest = cut (end_from p (c ∷ [])) target t in
    if same_pos p target then ([], c ∷ t) else (c ∷ rest.0, rest.1)

grows :
    (t : Text) (p : Pos)
    → (p.line < (end_from p t).line)
      ⊎ ((p.line ≡ (end_from p t).line) × (p.ch + length t ≡ (end_from p t).ch))
unfolding end_from
grows [] p = inr (refl, omega arith)
grows (c ∷ t) p =
    let below = grows t (record { line = suc p.line; ch = 0 }) in
    let along = grows t (record { line = p.line; ch = suc p.ch }) in
    elim (Bool-cases (c == newline)) [
      | inl e ↦ rw (end_from, e) (ground (arith, below))
      | inr e ↦ rw (end_from, e) (ground (arith, along))
    ]

same_pos_self : (p : Pos) → same_pos p p ≡ true
same_pos_self p = ground arith

same_pos_before : (p : Pos) (c : ℕ) (b : Text) → same_pos p (end_from p (c ∷ b)) ≡ false
same_pos_before p c b = ground (arith, grows (c ∷ b) p)

end_from_nil : (p : Pos) → end_from p [] ≡ p
unfolding end_from
end_from_nil p = refl

cut-append : (b a : Text) (p : Pos) → cut p (end_from p b) (b ++ a) ≡ (b, a)
unfolding cut
cut-append [] [] p = refl
cut-append [] (c ∷ a) p = rw (end_from_nil p) (rw (cut, same_pos_self p) refl)
cut-append (c ∷ b) a p =
    rw (cut, same_pos_before p c b)
      (rw (end_from-append p (c ∷ []) b, cut-append b a (end_from p (c ∷ []))) refl)

abbrev editor : CodeMirror
editor = record {
  State = View;
  Ranges = Unit;
  get_cursor = λ v. position (v.before ++ v.selected);
  get_selection = λ v. v.selected;
  replace_selection = λ t v. cursor_at (v.before ++ t) v.after;
  set_cursor =
      λ p v. let parts = cut (record { line = 0; ch = 0 }) p (whole v) in cursor_at parts.0 parts.1;
  list_selections = λ v. tt;
  set_selections = λ r v. v;
  undo = λ v. v;
  redo = λ v. v;
}

abbrev editor-IsEditor : IsEditor editor
editor-IsEditor = record {
  view = λ v. v;
  get_selection-view = λ v. refl;
  get_cursor-view = λ v. inr refl;
  replace_selection-view = λ t v. refl;
  set_cursor-view =
      λ before after v h. rw h (rw (cut-append before after (record { line = 0; ch = 0 })) refl);
}

-- "a\nbc" with "d\ne" selected, and the like.
abbrev two_lines : View
two_lines = record { before = 97 ∷ 10 ∷ 98 ∷ 99 ∷ []; selected = 100 ∷ 10 ∷ 101 ∷ []; after = [] }

abbrev one_line : View
one_line = record { before = 97 ∷ 10 ∷ 98 ∷ 99 ∷ []; selected = 100 ∷ []; after = 101 ∷ [] }

marks-view_example :
    (bold editor two_lines ≡ marked (42 ∷ 42 ∷ []) two_lines)
    × (del editor two_lines ≡ marked (126 ∷ 126 ∷ []) two_lines)
    × (italic editor two_lines ≡ marked (42 ∷ []) two_lines)
    × (code editor two_lines ≡ marked (96 ∷ []) two_lines)
marks-view_example = marks-view editor editor-IsEditor two_lines

abbrev after_h1 : Text → View
after_h1 mark = put_before editor editor-IsEditor (97 ∷ 10 ∷ []) (98 ∷ 99 ∷ []) one_line mark

one_line-IsOnLine : IsOnLine editor editor-IsEditor (97 ∷ 10 ∷ []) (98 ∷ 99 ∷ []) one_line
unfolding end_from
one_line-IsOnLine = (refl, refl, (refl, (refl, tt)), (refl, tt), refl)

headings-view_example :
    (quote editor one_line ≡ after_h1 (62 ∷ 32 ∷ []))
    × (h1 editor one_line ≡ after_h1 (35 ∷ 32 ∷ []))
    × (h2 editor one_line ≡ after_h1 (35 ∷ 35 ∷ 32 ∷ []))
    × (h3 editor one_line ≡ after_h1 (35 ∷ 35 ∷ 35 ∷ 32 ∷ []))
    × (h4 editor one_line ≡ after_h1 (35 ∷ 35 ∷ 35 ∷ 35 ∷ 32 ∷ []))
    × (h5 editor one_line ≡ after_h1 (35 ∷ 35 ∷ 35 ∷ 35 ∷ 35 ∷ 32 ∷ []))
    × (h6 editor one_line ≡ after_h1 (35 ∷ 35 ∷ 35 ∷ 35 ∷ 35 ∷ 35 ∷ 32 ∷ []))
headings-view_example =
    headings-view editor editor-IsEditor (97 ∷ 10 ∷ []) (98 ∷ 99 ∷ []) one_line one_line-IsOnLine

two_lines_some : is_blank two_lines.selected ≡ false
unfolding is_blank
two_lines_some = refl

lists-view_example :
    (ul : Text) × (ol : Text) × (list_ul editor two_lines ≡ cursor_at (two_lines.before ++ ul) [])
    × (list_ol editor two_lines ≡ cursor_at (two_lines.before ++ ol) [])
    × AreBulleted (split_lines two_lines.selected) (split_lines ul)
    × AreNumbered 1 (split_lines two_lines.selected) (split_lines ol)
lists-view_example = lists-view editor editor-IsEditor two_lines two_lines_some
