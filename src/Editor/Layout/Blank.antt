-- ===== src/Editor/Layout/Blank.antt =====
-- What resize and the close button leave of the preview mode.
use study_tech.Base.{
  ◌≡◌, refl, ◌∙◌, ap, Bool, true, false, not, ◌&&◌, if◌then◌else◌, Bool-cases, inl, inr,
}
use study_tech.Editor.Text.{Text}
use study_tech.Editor.State.{
  Settings, Screen, Layout, Notice, on_resize, on_previewed, on_previewing, notify, notify_loaded,
  and_then, type_error,
}
use study_tech.Editor.Layout.{
  lacks_bar, resize_height, resize_preview, resize, save, previewed, previewing, toggled,
  enter_preview,
}
use study_tech.Editor.Layout.Calls.{
  face, face-if, face-notify_loaded, face-resize, face-resize_height, face-save,
}
use study_tech.Editor.Layout.Consistent.{IsConsistent}

preview_shown-notify_loaded :
    (n : Notice) (l : Layout) → (notify_loaded n l).preview_shown ≡ l.preview_shown
unfolding notify_loaded notify
preview_shown-notify_loaded n l = elim (Bool-cases l.loaded) [
  | inl e ↦ rw (notify_loaded, e) refl
  | inr e ↦ rw (notify_loaded, e) refl
]

field_if :
    (field : Layout → Bool) (b : Bool) (x y : Layout) (v : Bool)
    → field x ≡ v
    → field y ≡ v
    → field (if b then x else y) ≡ v
field_if field true x y v h k = h
field_if field false x y v h k = k

preview_shown-and_then-notify_loaded :
    (n : Notice) (l : Layout)
    → (and_then (λ t. notify_loaded n t) l).preview_shown ≡ l.preview_shown
unfolding and_then
preview_shown-and_then-notify_loaded n l =
    field_if (λ t. t.preview_shown) l.failed l _ _ refl (preview_shown-notify_loaded n l)

if_true : (b : Bool) (x y : Layout) → b ≡ true → (if b then x else y) ≡ x
if_true true x y h = refl
if_true false x y h = cc

if_false : (b : Bool) (x y : Layout) → b ≡ false → (if b then x else y) ≡ y
if_false true x y h = cc
if_false false x y h = refl

and_then_runs : (rest : Layout → Layout) (l : Layout) → l.failed ≡ false → and_then rest l ≡ rest l
unfolding and_then
and_then_runs rest l e = if_false l.failed l (rest l) e

module _ (o : Settings) (screen : Screen) (marked filter_html_tags : Text → Text) where
  resize_preview-hidden :
      (l : Layout)
      → l.watch ≡ false
      → (resize_preview o screen marked filter_html_tags l).preview_shown ≡ false
  unfolding resize_preview
  resize_preview-hidden l h = rw (resize_preview, h) refl

  -- In the preview mode of an editor that is consistent and not watched, and whose `this.toolbar` is
  -- set where the settings have a toolbar, resize hides the preview, where CodeMirror is hidden
  -- already: the editor shows neither, and stays in the preview mode.
  pub resize_blank :
      (l : Layout)
      → lacks_bar o screen marked filter_html_tags ≡ false
      → IsConsistent o l
      → l.preview ≡ true
      → l.watch ≡ false
      → ((resize o screen marked filter_html_tags l).preview_shown ≡ false)
        × ((resize o screen marked filter_html_tags l).code_mirror_shown ≡ false)
        × ((resize o screen marked filter_html_tags l).preview ≡ true)
  unfolding resize
  resize_blank l bar h p w =
      let same = face-resize o screen marked filter_html_tags bar l in
      let high = resize_height o screen marked filter_html_tags l in
      let kept = face-resize_height o screen marked filter_html_tags bar l in
      (
        preview_shown-and_then-notify_loaded on_resize _
            ∙ ap (λ t. t.preview_shown) (and_then_runs _ high (ap (λ f. f.failed) kept ∙ h.shown.8))
            ∙ resize_preview-hidden high (ap (λ f. f.watch) kept ∙ w),
        ap (λ f. f.code_mirror_shown) same ∙ h.shown.1 ∙ ap not p,
        ap (λ f. f.preview) same ∙ p,
      )

  enter_preview-icon :
      (l : Layout)
      → (enter_preview o screen marked filter_html_tags l).preview_icon ≡ l.preview_icon
  unfolding enter_preview
  enter_preview-icon l =
      let shown = record l { preview = true; close_button_shown = not o.read_only } in
      let save_it = save o screen marked filter_html_tags shown in
      ap (λ f. f.preview_icon) (face-notify_loaded o screen marked filter_html_tags on_previewing _)
      ∙ ap (λ f. f.preview_icon)
          (face-if (not l.watch) save_it shown (face shown)
            (face-save o screen marked filter_html_tags shown) refl)

  previewed-icon :
      (l : Layout) → (previewed o screen marked filter_html_tags l).preview_icon ≡ l.preview_icon
  unfolding previewed type_error
  previewed-icon l =
      field_if (λ t. t.preview_icon) (o.toolbar && not o.toolbar_set) _ _ _ refl
        (field_if (λ t. t.preview_icon)
          (not (o.auto_height && not l.fullscreen) && not o.toolbar_set) _ _ _ refl
          (ap (λ f. f.preview_icon)
            (face-notify_loaded o screen marked filter_html_tags on_previewed _)))

  -- In a Markdown mode with the setting `toolbar` on and `this.toolbar` set, from CodeMirror,
  -- previewing toggles the icon of the preview, and previewed, the close button, does not toggle it
  -- back.
  pub previewed-previewing :
      (l : Layout)
      → o.markdown ≡ true
      → o.toolbar ≡ true
      → o.toolbar_set ≡ true
      → l.code_mirror_shown ≡ true
      → let t = previewing o screen marked filter_html_tags l in
        (t.preview_icon ≡ not l.preview_icon)
        × ((previewed o screen marked filter_html_tags t).preview_icon ≡ not l.preview_icon)
  unfolding previewing toggled
  previewed-previewing l m b c s = (icon, previewed-icon _ ∙ icon)
    where
      t : Layout
      t = toggled o screen marked filter_html_tags l

      enter : Layout
      enter = enter_preview o screen marked filter_html_tags t

      leave : Layout
      leave = previewed o screen marked filter_html_tags t

      icon : (previewing o screen marked filter_html_tags l).preview_icon ≡ not l.preview_icon
      icon =
          ap (λ u. u.preview_icon)
            (if_false (not o.markdown) l (if not t.code_mirror_shown then enter else leave)
                (ap not m)
              ∙ if_true (not t.code_mirror_shown) enter leave (ap (λ x. not (not x)) s))
          ∙ enter_preview-icon t
          ∙ ap (λ x. if x && o.toolbar_set then not l.preview_icon else l.preview_icon) b
          ∙ ap (λ x. if x then not l.preview_icon else l.preview_icon) c

  -- In a Markdown mode with the setting `toolbar` on and `this.toolbar` undefined, as in readOnly,
  -- previewing that finds CodeMirror hidden throws a TypeError on its way out of the preview mode: it
  -- has shown CodeMirror and left `state.preview`, but the preview keeps its class and stays as shown
  -- as it was.
  pub previewing_fails :
      (l : Layout)
      → o.markdown ≡ true
      → o.toolbar ≡ true
      → o.toolbar_set ≡ false
      → l.code_mirror_shown ≡ false
      → let t = previewing o screen marked filter_html_tags l in
        (t.failed ≡ true)
        × (t.preview ≡ false)
        × (t.code_mirror_shown ≡ true)
        × (t.preview_active ≡ l.preview_active)
        × (t.preview_shown ≡ l.preview_shown)
  unfolding previewing previewed toggled type_error
  previewing_fails l m b c s =
      let t = toggled o screen marked filter_html_tags l in
      let leave = previewed o screen marked filter_html_tags t in
      let out : previewing o screen marked filter_html_tags l ≡ leave =
        if_false (not o.markdown) l _ (ap not m)
        ∙ if_false (not t.code_mirror_shown) _ leave (ap (λ x. not (not x)) s) in
      let opened = record t { preview = false; code_mirror_shown = true } in
      let thrown : leave ≡ type_error opened =
        if_true (o.toolbar && not o.toolbar_set) (type_error opened) _
          (ap (λ x. x && not o.toolbar_set) b ∙ ap not c) in
      let all = out ∙ thrown in
      (
        ap (λ u. u.failed) all,
        ap (λ u. u.preview) all,
        ap (λ u. u.code_mirror_shown) all,
        ap (λ u. u.preview_active) all,
        ap (λ u. u.preview_shown) all,
      )
