-- ===== src/Editor/Layout/Consistent.antt =====
-- What the mode of an editor says of what it shows.
pub mod Runs
use mathlib.Core.Path.{subst}
use study_tech.Base.{
  ℕ, ◌≡◌, refl, sym, ◌∙◌, ap, List, [], ◌∷◌, Bool, true, false, not, ◌&&◌, if◌then◌else◌,
  Bool-cases, inl, inr,
}
use study_tech.Editor.Text.{Text}
use study_tech.Editor.State.{
  Settings, Screen, Layout, Notice, on_previewed, on_watch, on_unwatch, on_fullscreen,
  on_fullscreen_exit, on_previewing, on_load, notify, notify_loaded, and_then,
}
use study_tech.Editor.Layout.{
  resize, save, watch_on, unwatch, previewed, previewing, toggled, enter_preview, toggle_fullscreen,
  enter_fullscreen, fullscreen_exit, change, timeout, next_timeout, loaded_display, set_width,
  set_height,
}
use study_tech.Editor.Layout.Calls.{
  lacks_bar-toolbar_set, and_not, Call, watches, unwatches, previews, closes_preview, fullscreens,
  exits_fullscreen, resizes, saves, fires, loads, changes, widths, heights, run, Face, face,
  face-notify_loaded, face-resize, face-save, face-if,
}

-- `state` and the settings say what is shown, but for the preview, and nothing was thrown.
abbrev pub IsConsistentFace : Settings → Face → Type 0
IsConsistentFace o f =
    (f.watching ≡ f.watch)
    × (f.code_mirror_shown ≡ not f.preview)
    × ((if o.toolbar then f.toolbar_shown else not f.preview) ≡ not f.preview)
    × (f.close_button_shown ≡ (f.preview && not o.read_only))
    × (f.preview_active ≡ f.preview)
    × (f.fullscreen_icon ≡ f.fullscreen)
    × (f.fullscreen_class ≡ f.fullscreen)
    × (f.overflow_hidden ≡ f.fullscreen)
    × (f.failed ≡ false)

pub record IsConsistent (o : Settings) (l : Layout) : Type 0 where
  pub shown : IsConsistentFace o (face l)

pub IsConsistent-if :
    (o : Settings) (b : Bool) (x y : Layout)
    → IsConsistent o x
    → IsConsistent o y
    → IsConsistent o (if b then x else y)
IsConsistent-if o true x y h k = h
IsConsistent-if o false x y h k = k

module _ (o : Settings) (screen : Screen) (marked filter_html_tags : Text → Text)
    (bar : o.toolbar_set ≡ true) where
  keep : (l t : Layout) → face t ≡ face l → IsConsistent o l → IsConsistent o t
  keep l t e h = record { shown = subst (IsConsistentFace o) (sym e) h.shown }

  pub resize-IsConsistent :
      (l : Layout) → IsConsistent o l → IsConsistent o (resize o screen marked filter_html_tags l)
  resize-IsConsistent l h =
      keep l (resize o screen marked filter_html_tags l)
        (face-resize o screen marked filter_html_tags
          (lacks_bar-toolbar_set o screen marked filter_html_tags bar) l)
        h

  pub save-IsConsistent :
      (l : Layout) → IsConsistent o l → IsConsistent o (save o screen marked filter_html_tags l)
  save-IsConsistent l h =
      keep l (save o screen marked filter_html_tags l)
        (face-save o screen marked filter_html_tags l) h

  pub notify-IsConsistent :
      (n : Notice) (l : Layout) → IsConsistent o l → IsConsistent o (notify n l)
  unfolding notify
  notify-IsConsistent n l h = record { shown = h.shown }

  pub and_then-notify-IsConsistent :
      (n : Notice) (l : Layout) → IsConsistent o l → IsConsistent o (and_then (λ t. notify n t) l)
  unfolding and_then
  and_then-notify-IsConsistent n l h = IsConsistent-if o l.failed l _ h (notify-IsConsistent n l h)

  pub notify_loaded-IsConsistent :
      (n : Notice) (l : Layout) → IsConsistent o l → IsConsistent o (notify_loaded n l)
  notify_loaded-IsConsistent n l h =
      keep l (notify_loaded n l) (face-notify_loaded o screen marked filter_html_tags n l) h

  pub previewed-IsConsistent :
      (l : Layout)
      → (l.watching ≡ l.watch)
      → (l.fullscreen_icon ≡ l.fullscreen)
      → (l.fullscreen_class ≡ l.fullscreen)
      → (l.overflow_hidden ≡ l.fullscreen)
      → (l.failed ≡ false)
      → IsConsistent o (previewed o screen marked filter_html_tags l)
  unfolding previewed
  previewed-IsConsistent l w i c v f =
      rw
        (
          previewed,
          and_not o.toolbar o.toolbar_set bar,
          and_not (not (o.auto_height && not l.fullscreen)) o.toolbar_set bar,
        )
        (notify_loaded-IsConsistent on_previewed _
          (record { shown = (w, refl, row o.toolbar, refl, refl, i, c, v, f) }))
    where
      row : (b : Bool) → (if b then (if b then true else l.toolbar_shown) else true) ≡ true
      row true = refl
      row false = refl

  pub watch_on-IsConsistent :
      (l : Layout) → IsConsistent o l → IsConsistent o (watch_on o screen marked filter_html_tags l)
  unfolding watch_on
  watch_on-IsConsistent l h =
      let s = h.shown in
      IsConsistent-if o (not o.markdown) l _ h (
        and_then-notify-IsConsistent on_watch _ (
          resize-IsConsistent _ (
            save-IsConsistent _
              (record { shown = (refl, s.1, s.2, s.3, s.4, s.5, s.6, s.7, s.8) }))))

  pub unwatch-IsConsistent :
      (l : Layout) → IsConsistent o l → IsConsistent o (unwatch o screen marked filter_html_tags l)
  unfolding unwatch
  unwatch-IsConsistent l h =
      let s = h.shown in
      and_then-notify-IsConsistent on_unwatch _
        (resize-IsConsistent _ (record { shown = (refl, s.1, s.2, s.3, s.4, s.5, s.6, s.7, s.8) }))

  pub fullscreen_exit-IsConsistent :
      (l : Layout)
      → (l.watching ≡ l.watch)
      → (l.code_mirror_shown ≡ not l.preview)
      → ((if o.toolbar then l.toolbar_shown else not l.preview) ≡ not l.preview)
      → (l.close_button_shown ≡ (l.preview && not o.read_only))
      → (l.preview_active ≡ l.preview)
      → (l.failed ≡ false)
      → IsConsistent o (fullscreen_exit o screen marked filter_html_tags l)
  unfolding fullscreen_exit
  fullscreen_exit-IsConsistent l a b c d e f = and_then-notify-IsConsistent on_fullscreen_exit _ (
      resize-IsConsistent _ (record {
        shown = (a, b, c, d, e, off o.toolbar_set bar l.fullscreen_icon, refl, refl, f);
      }))
    where
      off : (b : Bool) → b ≡ true → (icon : Bool) → (if b then false else icon) ≡ false
      off true e icon = refl
      off false e icon = cc
