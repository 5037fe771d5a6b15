-- ===== src/Editor/Layout/Saved.antt =====
-- A change of the text is saved, or a timeout waits that saves it.
pub mod Runs
use mathlib.Core.Bool.{true≢false}
use mathlib.Core.Path.{subst}
use study_tech.Base.{
  ℕ, suc, ◌≡◌, refl, sym, ◌∙◌, ap, List, [], ◌∷◌, ◌++◌, Bool, true, false, not, ◌&&◌, ◌||◌,
  if◌then◌else◌, Bool-cases, &&-eq-true, Option, none, some, ◌⊎◌, inl, inr,
}
use study_tech.Editor.Text.{Text}
use study_tech.Editor.State.{
  Settings, Screen, Layout, Notice, on_resize, on_watch, on_unwatch, on_fullscreen,
  on_fullscreen_exit, on_previewed, on_previewing, on_load, notify, notify_loaded, is_null,
  and_then, type_error,
}
use study_tech.Editor.Layout.{
  resize_height, resize_preview, resize, show_html, save, watch_on, unwatch, previewed, previewing,
  toggled, enter_preview, toggle_fullscreen, enter_fullscreen, fullscreen_exit, change, timeout,
  next_timeout, loaded_display, set_width, set_height, grows, lacks_bar,
}
use study_tech.Editor.Layout.Calls.{
  Call, watches, unwatches, previews, closes_preview, fullscreens, exits_fullscreen, resizes, saves,
  fires, loads, changes, widths, heights, run,
}

-- The part of an editor that the timeouts and save work on.
pub record Ink : Type 0 where
  pub text : Text
  pub textarea : Text
  pub timer : Option ℕ
  pub timeouts : List ℕ

abbrev pub ink : Layout → Ink
ink l = record { text = l.text; textarea = l.textarea; timer = l.timer; timeouts = l.timeouts }

-- The text is that of the textarea, or the timeout that `timer` holds is among those that wait.
abbrev pub IsSavedInk : Ink → Type 0
IsSavedInk i =
    (i.textarea ≡ i.text)
    ⊎ ((t : ℕ) × (before : List ℕ) × (after : List ℕ) × (i.timer ≡ some t)
        × (i.timeouts ≡ before ++ t ∷ after))

pub record IsSaved (l : Layout) : Type 0 where
  pub saved : IsSavedInk (ink l)

pub keep : (l t : Layout) → ink t ≡ ink l → IsSaved l → IsSaved t
keep l t e h = record { saved = subst IsSavedInk (sym e) h.saved }

ink-if : (b : Bool) (x y : Layout) (i : Ink) → ink x ≡ i → ink y ≡ i → ink (if b then x else y) ≡ i
ink-if true x y i h k = h
ink-if false x y i h k = k

pub IsSaved-if : (b : Bool) (x y : Layout) → IsSaved x → IsSaved y → IsSaved (if b then x else y)
IsSaved-if true x y h k = h
IsSaved-if false x y h k = k

ink-notify_loaded : (n : Notice) (l : Layout) → ink (notify_loaded n l) ≡ ink l
unfolding notify_loaded notify
ink-notify_loaded n l = ink-if l.loaded _ l (ink l) refl refl

module _ (o : Settings) (screen : Screen) (marked filter_html_tags : Text → Text) where
  ink-resize_height : (l : Layout) → ink (resize_height o screen marked filter_html_tags l) ≡ ink l
  unfolding resize_height type_error
  ink-resize_height l = elim (Bool-cases (grows o screen marked filter_html_tags l)) [
    | inl e ↦ rw (resize_height, e) refl
    | inr e ↦
        rw (resize_height, e)
          (ink-if (lacks_bar o screen marked filter_html_tags) _ _ (ink l) refl refl)
  ]

  ink-resize_preview :
      (l : Layout) → ink (resize_preview o screen marked filter_html_tags l) ≡ ink l
  unfolding resize_preview type_error
  ink-resize_preview l = elim (Bool-cases l.watch) [
    | inl e ↦
        rw (resize_preview, e)
          (ink-if (lacks_bar o screen marked filter_html_tags) _ _ (ink l) refl refl)
    | inr e ↦ rw (resize_preview, e) refl
  ]

  ink-resize : (l : Layout) → ink (resize o screen marked filter_html_tags l) ≡ ink l
  unfolding resize and_then
  ink-resize l =
      let high = resize_height o screen marked filter_html_tags l in
      let wide = and_then (λ t. resize_preview o screen marked filter_html_tags t) high in
      let same : ink wide ≡ ink l =
        ink-if high.failed high _ (ink l) (ink-resize_height l)
          (ink-resize_preview high ∙ ink-resize_height l) in
      ink-if wide.failed wide _ (ink l) same (ink-notify_loaded _ wide ∙ same)

  pub resize-IsSaved :
      (l : Layout) → IsSaved l → IsSaved (resize o screen marked filter_html_tags l)
  resize-IsSaved l h = keep l (resize o screen marked filter_html_tags l) (ink-resize l) h

  ink-show_html : (l : Layout) → ink (show_html o screen marked filter_html_tags l) ≡ ink l
  unfolding show_html
  ink-show_html l = elim (Bool-cases (l.watch || not l.watch && l.preview)) [
    | inl e ↦ rw (show_html, e) (ink-notify_loaded _ _)
    | inr e ↦ rw (show_html, e) refl
  ]

  -- save leaves all as it is, or copies the text.
  pub ink-save :
      (l : Layout)
      → (ink (save o screen marked filter_html_tags l) ≡ record (ink l) { textarea = l.text })
        ⊎ ((is_null l.timer ≡ true) × (ink (save o screen marked filter_html_tags l) ≡ ink l))
  unfolding save
  ink-save l =
      let gate = is_null l.timer && not (not l.watch && l.preview) in
      let plain = record l { textarea = l.text } in
      let written = record l {
        textarea = l.text;
        html_textarea = if o.save_html then filter_html_tags (marked l.text) else l.html_textarea;
      } in
      let shown = show_html o screen marked filter_html_tags written in
      elim (Bool-cases gate) [
        | inl e ↦ inr ((&&-eq-true (is_null l.timer) _ e).0, (rw (save, e) refl))
        | inr e ↦
            inl (rw (save, e) (ink-if (not o.markdown) plain shown _ refl (ink-show_html written)))
      ]

  pub save-IsSaved : (l : Layout) → IsSaved l → IsSaved (save o screen marked filter_html_tags l)
  save-IsSaved l h = elim (ink-save l) [
    | inl e ↦ record { saved = subst IsSavedInk (sym e) (inl refl) }
    | inr e ↦ keep l (save o screen marked filter_html_tags l) e.1 h
  ]

  -- With a timer that is not null, save copies the text.
  save_now :
      (l : Layout) → is_null l.timer ≡ false → IsSaved (save o screen marked filter_html_tags l)
  save_now l h = elim (ink-save l) [
    | inl e ↦ record { saved = subst IsSavedInk (sym e) (inl refl) }
    | inr e ↦ absurd (true≢false (sym e.0 ∙ h))
  ]

  notify_loaded-IsSaved : (n : Notice) (l : Layout) → IsSaved l → IsSaved (notify_loaded n l)
  notify_loaded-IsSaved n l h = keep l (notify_loaded n l) (ink-notify_loaded n l) h

  notify-IsSaved : (n : Notice) (l : Layout) → IsSaved l → IsSaved (notify n l)
  unfolding notify
  notify-IsSaved n l h = record { saved = h.saved }

  and_then-IsSaved :
      (rest : Layout → Layout) (l : Layout)
      → IsSaved l
      → IsSaved (rest l)
      → IsSaved (and_then rest l)
  unfolding and_then
  and_then-IsSaved rest l h k = IsSaved-if l.failed l (rest l) h k

  and_then-notify-IsSaved :
      (n : Notice) (l : Layout) → IsSaved l → IsSaved (and_then (λ t. notify n t) l)
  and_then-notify-IsSaved n l h = and_then-IsSaved _ l h (notify-IsSaved n l h)

  pub previewed-IsSaved :
      (l : Layout) → IsSaved l → IsSaved (previewed o screen marked filter_html_tags l)
  unfolding previewed type_error
  previewed-IsSaved l h =
      IsSaved-if (o.toolbar && not o.toolbar_set) _ _ (record { saved = h.saved })
        (IsSaved-if (not (o.auto_height && not l.fullscreen) && not o.toolbar_set) _ _
          (record { saved = h.saved })
          (notify_loaded-IsSaved on_previewed _ (record { saved = h.saved })))

  pub watch_on-IsSaved :
      (l : Layout) → IsSaved l → IsSaved (watch_on o screen marked filter_html_tags l)
  unfolding watch_on is_null
  watch_on-IsSaved l h =
      IsSaved-if (not o.markdown) l _ h
        (and_then-notify-IsSaved on_watch _ (resize-IsSaved _ (save_now _ refl)))

  pub unwatch-IsSaved :
      (l : Layout) → IsSaved l → IsSaved (unwatch o screen marked filter_html_tags l)
  unfolding unwatch
  unwatch-IsSaved l h =
      and_then-notify-IsSaved on_unwatch _ (resize-IsSaved _ (record { saved = h.saved }))

  pub fullscreen_exit-IsSaved :
      (l : Layout) → IsSaved l → IsSaved (fullscreen_exit o screen marked filter_html_tags l)
  unfolding fullscreen_exit
  fullscreen_exit-IsSaved l h =
      and_then-notify-IsSaved on_fullscreen_exit _ (resize-IsSaved _ (record { saved = h.saved }))

  pub toggle_fullscreen-IsSaved :
      (l : Layout) → IsSaved l → IsSaved (toggle_fullscreen o screen marked filter_html_tags l)
  unfolding toggle_fullscreen enter_fullscreen
  toggle_fullscreen-IsSaved l h =
      let sized = resize-IsSaved _ (record { saved = h.saved }) in
      IsSaved-if (not l.fullscreen_class) _ _
        (and_then-IsSaved _ _ sized
          (record { saved = (notify-IsSaved on_fullscreen _ sized).saved }))
        (fullscreen_exit-IsSaved _ (record { saved = h.saved }))

  enter_preview-IsSaved :
      (l : Layout) → IsSaved l → IsSaved (enter_preview o screen marked filter_html_tags l)
  unfolding enter_preview
  enter_preview-IsSaved l h =
      let shown = record l { preview = true; close_button_shown = not o.read_only } in
      let k : IsSaved shown = record { saved = h.saved } in
      record {
        saved =
            (notify_loaded-IsSaved on_previewing _ (record {
              saved = (IsSaved-if (not l.watch) _ shown (save-IsSaved shown k) k).saved;
            })).saved;
      }

  pub previewing-IsSaved :
      (l : Layout) → IsSaved l → IsSaved (previewing o screen marked filter_html_tags l)
  unfolding previewing toggled
  previewing-IsSaved l h = IsSaved-if (not o.markdown) l _ h (
      IsSaved-if (not (not l.code_mirror_shown)) _ _
        (enter_preview-IsSaved _ (record { saved = h.saved }))
        (previewed-IsSaved _ (record { saved = h.saved })))

  pub loaded_display-IsSaved :
      (l : Layout) → IsSaved l → IsSaved (loaded_display o screen marked filter_html_tags l)
  unfolding loaded_display
  loaded_display-IsSaved l h =
      let saved = save o screen marked filter_html_tags l in
      let k = save-IsSaved l h in
      let shown =
        IsSaved-if saved.watch (record saved { preview_shown = true }) saved
          (record { saved = k.saved }) k in
      let sized = resize-IsSaved _ (record { saved = shown.saved }) in
      and_then-IsSaved _ _ sized (record { saved = (notify-IsSaved on_load _ sized).saved })
