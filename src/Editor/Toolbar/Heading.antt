-- ===== src/Editor/Toolbar/Heading.antt =====
-- What quote and h1 to h6 put in front of a line.
use mathlib.Core.List.{append-nil, append_assoc}
use study_tech.Base.{
  ◌+◌, ◌≡◌, refl, sym, ◌∙◌, ap, arith, [], ◌∷◌, ◌++◌, length, length-append, true, false, ◌==◌,
  Bool-cases, ==_iff, inl, inr,
}
use study_tech.Editor.Text.{Text, position, position-append, IsInline}
use study_tech.Editor.CodeMirror.{CodeMirror, View, cursor_at, whole, IsEditor}
use study_tech.Editor.Toolbar.{at_line_start, quote, h1, h2, h3, h4, h5, h6}
use study_tech.Editor.Toolbar.Decimal.{IsInline-append}

length_zero : (t : Text) → length t ≡ 0 → t ≡ []
length_zero [] h = refl
length_zero (c ∷ t) h = absurd (omega arith)

regroup : (a b c d : Text) → (a ++ b) ++ (c ++ d) ≡ (a ++ (b ++ c)) ++ d
regroup a b c d =
    append_assoc a b (c ++ d)
    ∙ ap (λ t. a ++ t) (sym (append_assoc b c d))
    ∙ sym (append_assoc a (b ++ c) d)

module _ (cm : CodeMirror) (editor : IsEditor cm) where
  -- The text before the selection is `start`, which ends at the start of a line, and `rest`.
  module _ (start rest : Text) (s : cm.State) where
    -- The cursor is behind the selection, and all of that is on one line.
    abbrev pub IsOnLine : Type 0
    IsOnLine =
        ((editor.view s).before ≡ start ++ rest)
        × ((position start).ch ≡ 0)
        × IsInline rest
        × IsInline (editor.view s).selected
        × (cm.get_cursor s ≡ position ((editor.view s).before ++ (editor.view s).selected))

    module _ (mark : Text) (inline : IsInline mark) (on : IsOnLine) where
      abbrev v : View
      v = editor.view s

      cursor-eq :
          cm.get_cursor s
          ≡ record { line = (position start).line; ch = length rest + length v.selected }
      cursor-eq =
          on.4
          ∙ ap (λ t. position (t ++ v.selected)) on.0
          ∙ ap position (append_assoc start rest v.selected)
          ∙ position-append start (rest ++ v.selected) (IsInline-append rest v.selected on.2 on.3)
          ∙ ap (λ n. record { line = (position start).line; ch = n })
              (omega (arith, on.1, length-append rest v.selected))

      abbrev target : View
      target = cursor_at (start ++ (mark ++ v.selected ++ rest)) (v.selected ++ v.after)

      at_line_start_inside :
          ((cm.get_cursor s).ch == 0) ≡ false
          → editor.view (at_line_start cm mark (length mark) s) ≡ target
      unfolding at_line_start
      at_line_start_inside h =
          rw (at_line_start, h, editor.get_selection-view s)
            (ap (λ c. editor.view (cm.set_cursor c t)) moved
              ∙ editor.set_cursor-view (start ++ (mark ++ v.selected ++ rest))
                  (v.selected ++ v.after) t text)
        where
          u : cm.State
          u = cm.set_cursor (record { line = (cm.get_cursor s).line; ch = 0 }) s

          t : cm.State
          t = cm.replace_selection (mark ++ v.selected) u

          columns :
              length rest + length v.selected + length mark
              ≡ (position start).ch + length (mark ++ v.selected ++ rest)
          columns =
              omega (
                arith,
                on.1,
                length-append mark v.selected,
                length-append (mark ++ v.selected) rest,
              )

          line_start : record { line = (cm.get_cursor s).line; ch = 0 } ≡ position start
          line_start =
              rw cursor-eq (ap (λ n. record { line = (position start).line; ch = n }) (sym on.1))

          u-view : editor.view u ≡ cursor_at start (rest ++ (v.selected ++ v.after))
          u-view =
              ap (λ c. editor.view (cm.set_cursor c s)) line_start
              ∙ editor.set_cursor-view start (rest ++ (v.selected ++ v.after)) s
                  (rw on.0 (append_assoc start rest (v.selected ++ v.after)))

          moved :
              record { line = (cm.get_cursor s).line; ch = (cm.get_cursor s).ch + length mark }
              ≡ position (start ++ (mark ++ v.selected ++ rest))
          moved = rw cursor-eq (
              ap (λ n. record { line = (position start).line; ch = n }) columns
              ∙ sym (
                  position-append start _
                    (IsInline-append _ rest (IsInline-append mark v.selected inline on.3) on.2)))

          text :
              whole (editor.view t)
              ≡ (start ++ (mark ++ v.selected ++ rest)) ++ (v.selected ++ v.after)
          text =
              rw (editor.replace_selection-view (mark ++ v.selected) u, u-view)
                (regroup start (mark ++ v.selected) rest (v.selected ++ v.after))

      at_line_start_first :
          ((cm.get_cursor s).ch == 0) ≡ true
          → editor.view (at_line_start cm mark (length mark) s) ≡ target
      unfolding at_line_start
      at_line_start_first h =
          rw (at_line_start, h, editor.get_selection-view s)
            (editor.replace_selection-view (mark ++ v.selected) s
              ∙ (rw (on.0, none_rest, none_selected)
                  (ap (λ t. cursor_at t v.after)
                    (append_assoc start [] (mark ++ [])
                      ∙ ap (λ t. start ++ t) (sym (append-nil (mark ++ [])))))))
        where
          both : length rest + length v.selected ≡ 0
          both = sym (ap (λ c. c.ch) cursor-eq) ∙ (==_iff _ 0).0 h

          none_rest : rest ≡ []
          none_rest = length_zero rest (omega (arith, both))

          none_selected : v.selected ≡ []
          none_selected = length_zero v.selected (omega (arith, both))

      at_line_start-view : editor.view (at_line_start cm mark (length mark) s) ≡ target
      at_line_start-view = elim (Bool-cases ((cm.get_cursor s).ch == 0)) [
        | inl e ↦ at_line_start_first e
        | inr e ↦ at_line_start_inside e
      ]

    -- What comes of a mark put before the line that the cursor is on.
    abbrev pub put_before : Text → View
    put_before mark =
        cursor_at (start ++ (mark ++ (editor.view s).selected ++ rest))
          ((editor.view s).selected ++ (editor.view s).after)

    -- With the cursor behind the selection, and the text from the start of the line to it on one
    -- line, quote and h1 to h6 put their mark and a copy of the selection at the start of the line;
    -- the selection stays where it was, too, and the cursor goes in front of it.
    pub headings-view :
        IsOnLine
        → (editor.view (quote cm s) ≡ put_before (62 ∷ 32 ∷ []))
          × (editor.view (h1 cm s) ≡ put_before (35 ∷ 32 ∷ []))
          × (editor.view (h2 cm s) ≡ put_before (35 ∷ 35 ∷ 32 ∷ []))
          × (editor.view (h3 cm s) ≡ put_before (35 ∷ 35 ∷ 35 ∷ 32 ∷ []))
          × (editor.view (h4 cm s) ≡ put_before (35 ∷ 35 ∷ 35 ∷ 35 ∷ 32 ∷ []))
          × (editor.view (h5 cm s) ≡ put_before (35 ∷ 35 ∷ 35 ∷ 35 ∷ 35 ∷ 32 ∷ []))
          × (editor.view (h6 cm s) ≡ put_before (35 ∷ 35 ∷ 35 ∷ 35 ∷ 35 ∷ 35 ∷ 32 ∷ []))
    unfolding quote h1 h2 h3 h4 h5 h6
    headings-view on = (
      at (62 ∷ 32 ∷ []) (refl, (refl, tt)),
      at (35 ∷ 32 ∷ []) (refl, (refl, tt)),
      at (35 ∷ 35 ∷ 32 ∷ []) (refl, (refl, (refl, tt))),
      at (35 ∷ 35 ∷ 35 ∷ 32 ∷ []) (refl, (refl, (refl, (refl, tt)))),
      at (35 ∷ 35 ∷ 35 ∷ 35 ∷ 32 ∷ []) (refl, (refl, (refl, (refl, (refl, tt))))),
      at (35 ∷ 35 ∷ 35 ∷ 35 ∷ 35 ∷ 32 ∷ []) (refl, (refl, (refl, (refl, (refl, (refl, tt)))))),
      at (35 ∷ 35 ∷ 35 ∷ 35 ∷ 35 ∷ 35 ∷ 32 ∷ [])
          (refl, (refl, (refl, (refl, (refl, (refl, (refl, tt))))))),
    )
      where
        at :
            (mark : Text)
            → IsInline mark
            → editor.view (at_line_start cm mark (length mark) s) ≡ put_before mark
        at mark inline = at_line_start-view mark inline on
