-- ===== src/Editor/CodeMirror.antt =====
-- The part of CodeMirror that the toolbar calls, as an interface, and what its manual says of it.
use study_tech.Base.{◌≡◌, [], ◌++◌, ◌⊎◌}
use study_tech.Editor.Text.{Text, Pos, position}

-- `State` is the state of the editor, `Ranges` what `listSelections` returns.
pub record CodeMirror : Type 1 where
  pub State : Type 0
  pub Ranges : Type 0
  pub get_cursor : State → Pos
  pub get_selection : State → Text
  pub replace_selection : Text → State → State
  pub set_cursor : Pos → State → State
  pub list_selections : State → Ranges
  pub set_selections : Ranges → State → State
  pub undo : State → State
  pub redo : State → State

-- The document of a state that has one selection: what stands before it, in it and behind it.
pub record View : Type 0 where
  pub before : Text
  pub selected : Text
  pub after : Text

abbrev pub cursor_at : Text → Text → View
cursor_at before after = record { before = before; selected = []; after = after }

abbrev pub whole : View → Text
whole v = v.before ++ (v.selected ++ v.after)

-- `getCursor` is the head of the selection, either of its ends; `replaceSelection` leaves the cursor
-- behind what it inserted; `setCursor` drops the selection.
pub record IsEditor (cm : CodeMirror) : Type 0 where
  pub view : cm.State → View
  pub get_selection-view : (s : cm.State) → cm.get_selection s ≡ (view s).selected
  pub get_cursor-view :
      (s : cm.State)
      → (cm.get_cursor s ≡ position (view s).before)
        ⊎ (cm.get_cursor s ≡ position ((view s).before ++ (view s).selected))
  pub replace_selection-view :
      (t : Text) (s : cm.State)
      → view (cm.replace_selection t s) ≡ cursor_at ((view s).before ++ t) (view s).after
  pub set_cursor-view :
      (before after : Text) (s : cm.State)
      → whole (view s) ≡ before ++ after
      → view (cm.set_cursor (position before) s) ≡ cursor_at before after
