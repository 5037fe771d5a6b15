-- ===== src/Editor/State.antt =====
-- editormd.js: what an editor shows and remembers, and the settings and sizes that it reads.
use study_tech.Base.{
  ℕ, List, [], ◌∷◌, ◌++◌, Bool, true, false, if◌then◌else◌, ◌==◌, Option, none, some,
}
use study_tech.Editor.Text.{Text}

-- A length in CSS: pixels, or half as many of them.
pub data Css : Type 0 where
  px half_px : ℕ → Css
  auto : Css

-- The options that the layout reads.
pub record Settings : Type 0 where
  -- whether `mode` is "gfm" or "markdown"
  pub markdown : Bool
  pub toolbar : Bool
  -- whether setToolbar has set `this.toolbar`: it does not in readOnly, nor where it is not called
  pub toolbar_set : Bool
  pub read_only : Bool
  pub auto_height : Bool
  pub save_html : Bool
  pub sync_scrolling : Bool

-- What the browser measures.
pub record Screen : Type 0 where
  pub window_width : ℕ
  pub window_height : ℕ
  pub toolbar_height : ℕ
  -- the size of an editor that has none of its own
  pub natural_width : ℕ
  pub natural_height : ℕ

-- The callbacks of the settings.
pub data Notice : Type 0 where
  on_watch on_unwatch on_previewing on_previewed on_fullscreen on_fullscreen_exit : Notice
  on_resize on_change on_load : Notice

pub record Layout : Type 0 where
  -- `settings.watch` and `state`
  pub watch : Bool
  pub watching : Bool
  pub preview : Bool
  pub fullscreen : Bool
  pub loaded : Bool
  -- `timer`: `none` is null, `some 0` the values undefined and 0, and `some` of more a timeout
  pub timer : Option ℕ
  pub timeouts : List ℕ
  pub fresh : ℕ
  -- the text of CodeMirror, and what was saved of it
  pub text : Text
  pub textarea : Text
  pub html_textarea : Text
  pub preview_html : Text
  -- what is shown
  pub code_mirror_shown : Bool
  pub preview_shown : Bool
  pub toolbar_shown : Bool
  -- the close button of the preview, which readOnly leaves out
  pub close_button_shown : Bool
  -- classes and icons
  pub preview_active : Bool
  pub preview_icon : Bool
  pub fullscreen_icon : Bool
  pub watch_icon : Bool
  pub fullscreen_class : Bool
  pub overflow_hidden : Bool
  -- lengths
  pub width : Css
  pub height : Css
  pub old_width : Css
  pub old_height : Css
  pub code_mirror_width : Css
  pub code_mirror_height : Css
  pub code_mirror_margin : ℕ
  pub preview_width : Css
  pub preview_height : Css
  pub preview_top : ℕ
  -- handlers of keyup on the window that previewing and fullscreen have bound
  pub preview_keys : ℕ
  pub fullscreen_keys : ℕ
  pub notices : List Notice
  -- whether the call has thrown a TypeError
  pub failed : Bool

unfoldable pub measure : ℕ → Css → ℕ
measure natural (px n) = n
measure natural (half_px n) = n
measure natural auto = natural

unfoldable pub is_null : Option ℕ → Bool
is_null none = true
is_null (some t) = false

unfoldable pub without : ℕ → List ℕ → List ℕ
without t [] = []
without t (u ∷ us) = if u == t then without t us else u ∷ without t us

-- `clearTimeout`
unfoldable pub clear_timeout : Option ℕ → List ℕ → List ℕ
clear_timeout none ts = ts
clear_timeout (some t) ts = without t ts

-- After a TypeError, the rest of a call is not run.
unfoldable pub and_then : (Layout → Layout) → Layout → Layout
and_then rest l = if l.failed then l else rest l

-- A method of `this.toolbar` where that is undefined.
unfoldable pub type_error : Layout → Layout
type_error l = record l { failed = true }

unfoldable pub notify : Notice → Layout → Layout
notify n l = record l { notices = l.notices ++ n ∷ [] }

-- A notice that is given only when the editor has been loaded.
unfoldable pub notify_loaded : Notice → Layout → Layout
notify_loaded n l = if l.loaded then notify n l else l
