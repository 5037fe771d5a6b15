-- ===== src/Editor/LayoutTests.antt =====
-- An editor of blogs-input.html, and the theorems of the layout and the loading at it.
use study_tech.Base.{◌≡◌, refl, [], ◌∷◌, Bool, true, false, not, some}
use study_tech.Editor.Text.{Text}
use study_tech.Editor.State.{px, Settings, Screen, Layout}
use study_tech.Editor.Layout.{has_bar, lacks_bar, resize, previewing, previewed}
use study_tech.Editor.Layout.Calls.{previews, run}
use study_tech.Editor.Layout.Consistent.{IsConsistent}
use study_tech.Editor.Layout.Consistent.Runs.{run-IsConsistent}
use study_tech.Editor.Layout.Blank.{resize_blank, previewed-previewing, previewing_fails}
use study_tech.Editor.Loading.{
  Queue, displays, ends_in_display, loads, is_sequence, is_flowchart, load_queues, wanted,
  displays-load_queues,
}

abbrev settings : Settings
settings = record {
  markdown = true;
  toolbar = true;
  toolbar_set = true;
  read_only = false;
  auto_height = false;
  save_html = true;
  sync_scrolling = true;
}

abbrev screen : Screen
screen = record {
  window_width = 1200;
  window_height = 800;
  toolbar_height = 37;
  natural_width = 900;
  natural_height = 640;
}

abbrev render : Text → Text
render t = 60 ∷ t

abbrev filter : Text → Text
filter t = t

-- An editor in the preview mode (`preview`) or not, that is not watched, with one timeout.
abbrev editor_in : Bool → Layout
editor_in preview = record {
  watch = false;
  watching = false;
  preview = preview;
  fullscreen = false;
  loaded = true;
  timer = some 1;
  timeouts = 1 ∷ [];
  fresh = 2;
  text = 97 ∷ [];
  textarea = [];
  html_textarea = [];
  preview_html = [];
  code_mirror_shown = not preview;
  preview_shown = preview;
  toolbar_shown = not preview;
  close_button_shown = preview;
  preview_active = preview;
  preview_icon = preview;
  fullscreen_icon = false;
  watch_icon = false;
  fullscreen_class = false;
  overflow_hidden = false;
  width = px 900;
  height = px 640;
  old_width = px 900;
  old_height = px 640;
  code_mirror_width = px 900;
  code_mirror_height = px 603;
  code_mirror_margin = 38;
  preview_width = px 900;
  preview_height = px 640;
  preview_top = 0;
  preview_keys = 0;
  fullscreen_keys = 0;
  notices = [];
  failed = false;
}

editor_in-IsConsistent : (b : Bool) → IsConsistent settings (editor_in b)
editor_in-IsConsistent true = record {
  shown = (refl, refl, refl, refl, refl, refl, refl, refl, refl);
}
editor_in-IsConsistent false = record {
  shown = (refl, refl, refl, refl, refl, refl, refl, refl, refl);
}

run-IsConsistent_example :
    IsConsistent settings (run settings screen render filter previews (editor_in false))
run-IsConsistent_example =
    run-IsConsistent settings screen render filter refl previews (editor_in false)
      (editor_in-IsConsistent false)

resize_blank_example :
    ((resize settings screen render filter (editor_in true)).preview_shown ≡ false)
    × ((resize settings screen render filter (editor_in true)).code_mirror_shown ≡ false)
    × ((resize settings screen render filter (editor_in true)).preview ≡ true)
unfolding lacks_bar has_bar
resize_blank_example =
    resize_blank settings screen render filter (editor_in true) refl (editor_in-IsConsistent true)
      refl refl

previewed-previewing_example :
    let t = previewing settings screen render filter (editor_in false) in
    (t.preview_icon ≡ true) × ((previewed settings screen render filter t).preview_icon ≡ true)
previewed-previewing_example =
    previewed-previewing settings screen render filter (editor_in false) refl refl refl refl

-- The same editor in readOnly, where setToolbar returns before it sets `this.toolbar`.
abbrev settings_read_only : Settings
settings_read_only = record settings { read_only = true; toolbar_set = false }

previewing_fails_example :
    let t = previewing settings_read_only screen render filter (editor_in true) in
    (t.failed ≡ true)
    × (t.preview ≡ false)
    × (t.code_mirror_shown ≡ true)
    × (t.preview_active ≡ true)
    × (t.preview_shown ≡ true)
previewing_fails_example =
    previewing_fails settings_read_only screen render filter (editor_in true) refl refl refl refl

abbrev queue : Queue
queue = record {
  is_ie8 = false;
  markdown = true;
  search_replace = true;
  read_only = false;
  code_fold = false;
  preview_code_highlight = true;
  flow_chart = false;
  sequence = true;
}

displays-load_queues_example :
    (displays (load_queues queue) ≡ 1)
    × (ends_in_display (load_queues queue) ≡ true)
    × (loads is_sequence (load_queues queue) ≡ wanted true queue)
    × (loads is_flowchart (load_queues queue) ≡ wanted false queue)
displays-load_queues_example = displays-load_queues queue
