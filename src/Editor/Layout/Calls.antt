-- ===== src/Editor/Layout/Calls.antt =====
-- The calls and events of an editor, and what save and resize leave alone.
use study_tech.Base.{
  ℕ, ◌≡◌, refl, ◌∙◌, ap, Bool, true, false, not, ◌&&◌, ◌||◌, if◌then◌else◌, Bool-cases, inl, inr,
}
use study_tech.Editor.Text.{Text}
use study_tech.Editor.State.{
  Settings, Screen, Layout, Notice, notify, notify_loaded, is_null, and_then,
}
use study_tech.Editor.Layout.{
  lacks_bar, grows, resize_height, resize_preview, resize, show_html, save, watch_on, unwatch,
  previewed, previewing, toggle_fullscreen, fullscreen_exit, change, next_timeout, loaded_display,
  set_width, set_height,
}

pub data Call : Type 0 where
  watches unwatches previews closes_preview fullscreens exits_fullscreen : Call
  resizes saves fires loads : Call
  changes : Text → Call
  widths heights : ℕ → Call

-- What shows the mode of the editor, beside the preview itself.
pub record Face : Type 0 where
  pub watch : Bool
  pub watching : Bool
  pub preview : Bool
  pub fullscreen : Bool
  pub code_mirror_shown : Bool
  pub toolbar_shown : Bool
  pub close_button_shown : Bool
  pub preview_active : Bool
  pub preview_icon : Bool
  pub fullscreen_icon : Bool
  pub fullscreen_class : Bool
  pub overflow_hidden : Bool
  pub failed : Bool

abbrev pub face : Layout → Face
face l = record {
  watch = l.watch;
  watching = l.watching;
  preview = l.preview;
  fullscreen = l.fullscreen;
  code_mirror_shown = l.code_mirror_shown;
  toolbar_shown = l.toolbar_shown;
  close_button_shown = l.close_button_shown;
  preview_active = l.preview_active;
  preview_icon = l.preview_icon;
  fullscreen_icon = l.fullscreen_icon;
  fullscreen_class = l.fullscreen_class;
  overflow_hidden = l.overflow_hidden;
  failed = l.failed;
}

pub face-if :
    (b : Bool) (x y : Layout) (f : Face) → face x ≡ f → face y ≡ f → face (if b then x else y) ≡ f
face-if true x y f h k = h
face-if false x y f h k = k

pub and_not : (b c : Bool) → c ≡ true → (b && not c) ≡ false
and_not true c h = ap not h
and_not false c h = refl

module _ (o : Settings) (screen : Screen) (marked filter_html_tags : Text → Text) where
  unfoldable pub call : Call → Layout → Layout
  call watches l = watch_on o screen marked filter_html_tags l
  call unwatches l = unwatch o screen marked filter_html_tags l
  call previews l = previewing o screen marked filter_html_tags l
  call closes_preview l = previewed o screen marked filter_html_tags l
  call fullscreens l = toggle_fullscreen o screen marked filter_html_tags l
  call exits_fullscreen l = fullscreen_exit o screen marked filter_html_tags l
  call resizes l = resize o screen marked filter_html_tags l
  call saves l = save o screen marked filter_html_tags l
  call fires l = next_timeout o screen marked filter_html_tags l
  call loads l = loaded_display o screen marked filter_html_tags l
  call (changes t) l = change o screen marked filter_html_tags t l
  call (widths w) l = set_width o screen marked filter_html_tags w l
  call (heights h) l = set_height o screen marked filter_html_tags h l

  -- A call or an event, whatever the one before it threw.
  unfoldable pub run : Call → Layout → Layout
  run c l = call c (record l { failed = false })

  pub face-notify_loaded : (n : Notice) (l : Layout) → face (notify_loaded n l) ≡ face l
  unfolding notify_loaded notify
  face-notify_loaded n l = elim (Bool-cases l.loaded) [
    | inl e ↦ rw (notify_loaded, e) refl
    | inr e ↦ rw (notify_loaded, e) refl
  ]

  pub lacks_bar-toolbar_set :
      o.toolbar_set ≡ true → lacks_bar o screen marked filter_html_tags ≡ false
  unfolding lacks_bar
  lacks_bar-toolbar_set h = and_not _ o.toolbar_set h

  module _ (bar : lacks_bar o screen marked filter_html_tags ≡ false) where
    pub face-resize_height :
        (l : Layout) → face (resize_height o screen marked filter_html_tags l) ≡ face l
    unfolding resize_height
    face-resize_height l = elim (Bool-cases (grows o screen marked filter_html_tags l)) [
      | inl e ↦ rw (resize_height, e) refl
      | inr e ↦ rw (resize_height, e, bar) refl
    ]

    face-resize_preview :
        (l : Layout) → face (resize_preview o screen marked filter_html_tags l) ≡ face l
    unfolding resize_preview
    face-resize_preview l = elim (Bool-cases l.watch) [
      | inl e ↦ rw (resize_preview, e, bar) refl
      | inr e ↦ rw (resize_preview, e) refl
    ]

    pub face-resize : (l : Layout) → face (resize o screen marked filter_html_tags l) ≡ face l
    unfolding resize and_then
    face-resize l =
        let high = resize_height o screen marked filter_html_tags l in
        let wide = and_then (λ t. resize_preview o screen marked filter_html_tags t) high in
        let same : face wide ≡ face l =
          face-if high.failed high _ (face l) (face-resize_height l)
            (face-resize_preview high ∙ face-resize_height l) in
        face-if wide.failed wide _ (face l) same (face-notify_loaded _ wide ∙ same)

  face-show_html : (l : Layout) → face (show_html o screen marked filter_html_tags l) ≡ face l
  unfolding show_html
  face-show_html l = elim (Bool-cases (l.watch || not l.watch && l.preview)) [
    | inl e ↦ rw (show_html, e) (face-notify_loaded _ _)
    | inr e ↦ rw (show_html, e) refl
  ]

  pub face-save : (l : Layout) → face (save o screen marked filter_html_tags l) ≡ face l
  unfolding save
  face-save l =
      let plain = record l { textarea = l.text } in
      let saved = record l {
        textarea = l.text;
        html_textarea = if o.save_html then filter_html_tags (marked l.text) else l.html_textarea;
      } in
      let shown = show_html o screen marked filter_html_tags saved in
      face-if (is_null l.timer && not (not l.watch && l.preview)) l
        (if not o.markdown then plain else shown) (face l) refl
        (face-if (not o.markdown) plain shown (face l) refl (face-show_html saved))
