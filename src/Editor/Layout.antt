-- ===== src/Editor/Layout.antt =====
-- The layout of an editor: watch, unwatch, previewing, previewed, fullscreen, fullscreenExit, resize
-- and save. jQuery's show, hide, css and the like write to the record Layout;
-- borders, paddings and backgrounds are left out. Where `this.toolbar` is undefined, a call of its
-- methods throws a TypeError: what was written stays, and nothing more of the call is done.
pub mod Calls
pub mod Consistent
pub mod Blank
pub mod Saved
use study_tech.Base.{
  ℕ, zero, suc, ◌+◌, ◌-◌, ◌≡◌, List, [], ◌∷◌, ◌++◌, Bool, true, false, not, ◌&&◌, ◌||◌,
  if◌then◌else◌, ◌==◌, Option, none, some,
}
use study_tech.Editor.Text.{Text}
use study_tech.Editor.State.{
  Css, Settings, Screen, Notice, Layout, measure, is_null, without, clear_timeout, notify,
  notify_loaded, px, half_px, auto, on_watch, on_unwatch, on_previewing, on_previewed,
  on_fullscreen, on_fullscreen_exit, on_resize, on_change, on_load, and_then, type_error,
}

module _ (o : Settings) (screen : Screen) (marked filter_html_tags : Text → Text) where
  unfoldable pub editor_width : Layout → ℕ
  editor_width l = measure screen.natural_width l.width

  unfoldable pub editor_height : Layout → ℕ
  editor_height l = measure screen.natural_height l.height

  unfoldable pub has_bar : Bool
  has_bar = o.toolbar && not o.read_only

  -- `toolbar.height()` is called, but `this.toolbar` is undefined.
  unfoldable pub lacks_bar : Bool
  lacks_bar = has_bar && not o.toolbar_set

  -- The height of a part of the editor below the toolbar.
  unfoldable pub below_toolbar : Layout → ℕ
  below_toolbar l = if has_bar then editor_height l - screen.toolbar_height else editor_height l

  -- settings.autoHeight && !state.fullscreen && !state.preview
  unfoldable pub grows : Layout → Bool
  grows l = o.auto_height && not l.fullscreen && not l.preview

  -- resize, the first test: heights of the editor and of CodeMirror
  unfoldable pub resize_height : Layout → Layout
  resize_height l =
      let full = record l { height = if l.fullscreen then px screen.window_height else l.height } in
      if grows l
      then record l { height = auto; code_mirror_height = auto }
      else if lacks_bar
      then type_error full
      else record full {
        code_mirror_margin = if has_bar then suc screen.toolbar_height else 0;
        code_mirror_height = px (below_toolbar full);
      }

  -- resize, the second test: the preview
  unfoldable pub resize_preview : Layout → Layout
  resize_preview l =
      let w = editor_width l in
      let sized = record l {
        code_mirror_width = half_px w;
        preview_width = if not l.preview then half_px w else px w;
      } in
      if not l.watch
      then record l { code_mirror_width = px w; preview_shown = false }
      else if lacks_bar
      then type_error sized
      else record sized {
        preview_top = if has_bar then suc screen.toolbar_height else 0;
        preview_height = if grows l then auto else px (below_toolbar l);
      }

  -- resize without arguments
  unfoldable pub resize : Layout → Layout
  resize l = and_then (λ t. notify_loaded on_resize t) (and_then resize_preview (resize_height l))

  -- save: what it writes when it does not return at its first test
  unfoldable pub show_html : Layout → Layout
  show_html l =
      let html = filter_html_tags (marked l.text) in
      if l.watch || not l.watch && l.preview
      then notify_loaded on_change (record l { preview_html = html })
      else l

  unfoldable pub save : Layout → Layout
  save l =
      if is_null l.timer && not (not l.watch && l.preview)
      then l
      else if not o.markdown
      then record l { textarea = l.text }
      else show_html (record l {
        textarea = l.text;
        html_textarea = if o.save_html then filter_html_tags (marked l.text) else l.html_textarea;
      })

  unfoldable pub watch_on : Layout → Layout
  watch_on l =
      if not o.markdown
      then l
      else and_then (λ t. notify on_watch t)
          (resize (
            save (record l {
              watching = true;
              watch = true;
              preview_shown = true;
              watch_icon = if o.toolbar_set then true else l.watch_icon;
              code_mirror_width = half_px (editor_width l);
              timer = some 0;
            })))

  unfoldable pub unwatch : Layout → Layout
  unwatch l =
      and_then (λ t. notify on_unwatch t)
        (resize (record l {
          watching = false;
          watch = false;
          preview_shown = false;
          watch_icon = if o.toolbar_set then false else l.watch_icon;
          code_mirror_width = px (editor_width l);
        }))

  unfoldable pub previewed : Layout → Layout
  previewed l =
      let opened = record l { preview = false; code_mirror_shown = true } in
      let closed = record opened {
        toolbar_shown = if o.toolbar then true else l.toolbar_shown;
        preview_shown = l.watch;
        close_button_shown = false;
        preview_active = false;
      } in
      let high = o.auto_height && not l.fullscreen in
      let placed = record closed {
        preview_width = half_px (editor_width l);
        preview_height = if high then auto else px (editor_height l - screen.toolbar_height);
        preview_top = if o.toolbar then screen.toolbar_height else 0;
      } in
      if o.toolbar && not o.toolbar_set
      then type_error opened
      else if not high && not o.toolbar_set
      then type_error closed
      else notify_loaded on_previewed placed

  -- previewing: the toolbar and CodeMirror are toggled before anything else
  unfoldable pub toggled : Layout → Layout
  toggled l = record l {
    toolbar_shown = if o.toolbar && o.toolbar_set then not l.toolbar_shown else l.toolbar_shown;
    preview_icon = if o.toolbar && o.toolbar_set then not l.preview_icon else l.preview_icon;
    code_mirror_shown = not l.code_mirror_shown;
  }

  unfoldable pub enter_preview : Layout → Layout
  enter_preview l =
      let shown = record l { preview = true; close_button_shown = not o.read_only } in
      let saved = if not l.watch then save shown else shown in
      let active = record saved {
        preview_active = true;
        preview_shown = true;
        preview_top = 0;
        preview_width = px (editor_width saved);
        preview_height =
            if o.auto_height && not saved.fullscreen then auto else px (editor_height saved);
      } in
      let noticed = notify_loaded on_previewing active in
      record noticed { preview_keys = suc noticed.preview_keys }

  -- The handler that `unbind` is given is a new one, so that it takes none away.
  unfoldable pub previewing : Layout → Layout
  previewing l =
      if not o.markdown
      then l
      else if not (toggled l).code_mirror_shown
      then enter_preview (toggled l)
      else previewed (toggled l)

  unfoldable pub fullscreen_exit : Layout → Layout
  fullscreen_exit l =
      and_then (λ t. notify on_fullscreen_exit t)
        (resize (record l {
          fullscreen = false;
          fullscreen_icon = if o.toolbar_set then false else l.fullscreen_icon;
          overflow_hidden = false;
          width = l.old_width;
          height = l.old_height;
          fullscreen_class = false;
        }))

  unfoldable pub enter_fullscreen : Layout → Layout
  enter_fullscreen l =
      let sized = resize (record l {
        fullscreen = true;
        overflow_hidden = true;
        width = px screen.window_width;
        height = px screen.window_height;
        fullscreen_class = true;
      }) in
      and_then (λ t. record (notify on_fullscreen t) { fullscreen_keys = suc t.fullscreen_keys })
        sized

  unfoldable pub toggle_fullscreen : Layout → Layout
  toggle_fullscreen l =
      let icon = if o.toolbar_set then not l.fullscreen_icon else l.fullscreen_icon in
      let t = record l { fullscreen_icon = icon } in
      if not l.fullscreen_class then enter_fullscreen t else fullscreen_exit t

  -- A change of the text to `t`: bindChangeEvent asks for a timeout only with syncScrolling.
  unfoldable pub change : Text → Layout → Layout
  change t l =
      let changed = record l { text = t } in
      if not o.sync_scrolling then changed else record changed {
        timer = some l.fresh;
        timeouts = l.timeouts ++ l.fresh ∷ [];
        fresh = suc l.fresh;
      }

  -- The callback of a timeout: it clears the timeout that `timer` holds, its own or a later one.
  unfoldable pub timeout : Layout → Layout
  timeout l =
      let saved = save (record l { timeouts = clear_timeout l.timer l.timeouts }) in
      record saved { timer = none }

  -- The oldest timeout that waits fires.
  unfoldable pub next_timeout : Layout → Layout
  next_timeout l = elim l.timeouts [ [] ↦ l | t ∷ rest ↦ timeout (record l { timeouts = rest }) ]

  -- loadedDisplay of an editor that is not created anew
  unfoldable pub loaded_display : Layout → Layout
  loaded_display l =
      let saved = save l in
      let shown = if saved.watch then record saved { preview_shown = true } else saved in
      let sized = resize (record shown {
        old_width = px (editor_width shown);
        old_height = px (editor_height shown);
      }) in
      and_then (λ t. record (notify on_load t) { loaded = true }) sized

  unfoldable pub set_width : ℕ → Layout → Layout
  set_width w l = resize (record l { width = px w })

  unfoldable pub set_height : ℕ → Layout → Layout
  set_height h l = resize (record l { height = px h })
