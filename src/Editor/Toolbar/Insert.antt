-- ===== src/Editor/Toolbar/Insert.antt =====
-- Where the marks of bold, del, italic, code and the like go, and where the cursor ends.
use mathlib.Core.List.{append-nil, append_assoc}
use study_tech.Base.{
  ℕ, ◌+◌, ◌≡◌, refl, sym, ◌∙◌, ap, [], ◌∷◌, ◌++◌, length, true, false, if◌then◌else◌, Bool-cases,
  inl, inr,
}
use study_tech.Editor.Text.{Text, position, position-append, IsInline}
use study_tech.Editor.CodeMirror.{CodeMirror, View, cursor_at, whole, IsEditor}
use study_tech.Editor.Toolbar.{is_blank, insert, around, bold, del, italic, code}

pub blank-eq : (t : Text) → is_blank t ≡ true → t ≡ []
unfolding is_blank
blank-eq [] h = refl
blank-eq (c ∷ t) h = cc

-- The selection in marks; without one, the cursor between the marks.
abbrev pub marked : Text → View → View
marked mark v =
    if is_blank v.selected
    then cursor_at (v.before ++ mark) (mark ++ v.after)
    else cursor_at (v.before ++ (mark ++ v.selected ++ mark)) v.after

module _ (cm : CodeMirror) (editor : IsEditor cm) where
  pub get_cursor_blank :
      (s : cm.State)
      → (editor.view s).selected ≡ []
      → cm.get_cursor s ≡ position (editor.view s).before
  get_cursor_blank s h = elim (editor.get_cursor-view s) [
    | inl e ↦ e
    | inr e ↦
        e
        ∙ ap (λ t. position ((editor.view s).before ++ t)) h
        ∙ ap position (append-nil (editor.view s).before)
  ]

  -- With no selection, `f` gives a text that the cursor splits after `p`.
  insert_blank :
      (f : Text → Text) (skip : ℕ) (p q : Text) (s : cm.State)
      → (editor.view s).selected ≡ []
      → f [] ≡ p ++ q
      → IsInline p
      → length p ≡ skip
      → editor.view (insert cm f skip s)
        ≡ cursor_at ((editor.view s).before ++ p) (q ++ (editor.view s).after)
  unfolding insert is_blank
  insert_blank f skip p q s empty split inline len =
      rw (insert, editor.get_selection-view s ∙ empty)
        (ap (λ c. editor.view (cm.set_cursor c t)) moved
          ∙ editor.set_cursor-view (v.before ++ p) (q ++ v.after) t text)
    where
      v : View
      v = editor.view s

      t : cm.State
      t = cm.replace_selection (f []) s

      moved :
          record { line = (cm.get_cursor s).line; ch = (cm.get_cursor s).ch + skip }
          ≡ position (v.before ++ p)
      moved = rw (get_cursor_blank s empty, sym len) (sym (position-append v.before p inline))

      text : whole (editor.view t) ≡ (v.before ++ p) ++ (q ++ v.after)
      text =
          rw (editor.replace_selection-view (f []) s, split)
            (ap (λ u. u ++ v.after) (sym (append_assoc v.before p q))
              ∙ append_assoc (v.before ++ p) q v.after)

  insert_selected :
      (f : Text → Text) (skip : ℕ) (s : cm.State)
      → is_blank (editor.view s).selected ≡ false
      → editor.view (insert cm f skip s)
        ≡ cursor_at ((editor.view s).before ++ f (editor.view s).selected) (editor.view s).after
  unfolding insert
  insert_selected f skip s h =
      rw (insert, editor.get_selection-view s, h) (editor.replace_selection-view _ s)

  around-view :
      (mark : Text) (s : cm.State)
      → IsInline mark
      → editor.view (around cm mark (length mark) s) ≡ marked mark (editor.view s)
  unfolding around
  around-view mark s h = elim (Bool-cases (is_blank (editor.view s).selected)) [
    | inl e ↦ rw e (
        insert_blank _ (length mark) mark mark s (blank-eq _ e)
          (ap (λ t. t ++ mark) (append-nil mark)) h refl)
    | inr e ↦ rw e (insert_selected _ (length mark) s e)
  ]

  -- In an editor that meets IsEditor, bold, del, italic and code put their mark on both sides of
  -- the selection and leave the cursor behind it; with no selection they insert the mark twice and
  -- put the cursor between.
  pub marks-view :
      (s : cm.State)
      → (editor.view (bold cm s) ≡ marked (42 ∷ 42 ∷ []) (editor.view s))
        × (editor.view (del cm s) ≡ marked (126 ∷ 126 ∷ []) (editor.view s))
        × (editor.view (italic cm s) ≡ marked (42 ∷ []) (editor.view s))
        × (editor.view (code cm s) ≡ marked (96 ∷ []) (editor.view s))
  unfolding bold del italic code
  marks-view s = (
    around-view _ s (refl, (refl, tt)),
    around-view _ s (refl, (refl, tt)),
    around-view _ s (refl, tt),
    around-view _ s (refl, tt),
  )
