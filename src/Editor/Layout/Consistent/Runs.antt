-- ===== src/Editor/Layout/Consistent/Runs.antt =====
-- The mode and what is shown, after every call.
use mathlib.Core.Path.{subst}
use study_tech.Base.{
  ℕ, ◌≡◌, refl, sym, ◌∙◌, ap, List, [], ◌∷◌, Bool, true, false, not, ◌&&◌, if◌then◌else◌,
  Bool-cases, inl, inr,
}
use study_tech.Editor.Text.{Text}
use study_tech.Editor.State.{
  Settings, Screen, Layout, on_fullscreen, on_previewing, on_load, and_then,
}
use study_tech.Editor.Layout.{
  save, previewed, previewing, toggled, enter_preview, toggle_fullscreen, enter_fullscreen, change,
  timeout, next_timeout, loaded_display, set_width, set_height,
}
use study_tech.Editor.Layout.Calls.{
  Call, watches, unwatches, previews, closes_preview, fullscreens, exits_fullscreen, resizes, saves,
  fires, loads, changes, widths, heights, call, run, Face, face, face-save, face-if,
}
use study_tech.Editor.Layout.Consistent.{
  IsConsistent, IsConsistent-if, resize-IsConsistent, save-IsConsistent, notify-IsConsistent,
  notify_loaded-IsConsistent, previewed-IsConsistent, watch_on-IsConsistent, unwatch-IsConsistent,
  fullscreen_exit-IsConsistent,
}

module _ (o : Settings) (screen : Screen) (marked filter_html_tags : Text → Text)
    (bar : o.toolbar_set ≡ true) where
  enter_fullscreen-IsConsistent :
      (l : Layout)
      → (l.watching ≡ l.watch)
      → (l.code_mirror_shown ≡ not l.preview)
      → ((if o.toolbar then l.toolbar_shown else not l.preview) ≡ not l.preview)
      → (l.close_button_shown ≡ (l.preview && not o.read_only))
      → (l.preview_active ≡ l.preview)
      → (l.fullscreen_icon ≡ true)
      → (l.failed ≡ false)
      → IsConsistent o (enter_fullscreen o screen marked filter_html_tags l)
  unfolding enter_fullscreen and_then
  enter_fullscreen-IsConsistent l w c t b a i f =
      let k =
        resize-IsConsistent o screen marked filter_html_tags bar _
          (record { shown = (w, c, t, b, a, i, refl, refl, f) }) in
      IsConsistent-if o _ _ _ k (record {
        shown = (notify-IsConsistent o screen marked filter_html_tags bar on_fullscreen _ k).shown;
      })

  toggle_fullscreen-IsConsistent :
      (l : Layout)
      → IsConsistent o l
      → IsConsistent o (toggle_fullscreen o screen marked filter_html_tags l)
  unfolding toggle_fullscreen
  toggle_fullscreen-IsConsistent l h =
      let s = h.shown in
      elim (Bool-cases l.fullscreen_class) [
        | inl e ↦
            rw (toggle_fullscreen, e)
              (fullscreen_exit-IsConsistent o screen marked filter_html_tags bar _ s.0 s.1 s.2 s.3
                s.4 s.8)
        | inr e ↦
            rw (toggle_fullscreen, e)
              (enter_fullscreen-IsConsistent _ s.0 s.1 s.2 s.3 s.4
                (lit o.toolbar_set bar l.fullscreen_icon (s.5 ∙ sym s.6 ∙ e)) s.8)
      ]
    where
      lit :
          (b : Bool)
          → b ≡ true
          → (icon : Bool) → icon ≡ false
          → (if b then not icon else icon) ≡ true
      lit true e icon k = ap not k
      lit false e icon k = cc

  -- What holds of an editor whose toolbar and CodeMirror have just been hidden.
  abbrev IsEntering : Face → Type 0
  IsEntering f =
      (f.watching ≡ f.watch)
      × (f.code_mirror_shown ≡ not f.preview)
      × ((if o.toolbar then f.toolbar_shown else not f.preview) ≡ not f.preview)
      × (f.close_button_shown ≡ (f.preview && not o.read_only))
      × (f.fullscreen_icon ≡ f.fullscreen)
      × (f.fullscreen_class ≡ f.fullscreen)
      × (f.overflow_hidden ≡ f.fullscreen)
      × (f.preview ≡ true)
      × (f.failed ≡ false)

  enter_preview-IsConsistent :
      (l : Layout)
      → IsEntering (face (record l { preview = true; close_button_shown = not o.read_only }))
      → IsConsistent o (enter_preview o screen marked filter_html_tags l)
  unfolding enter_preview
  enter_preview-IsConsistent l h =
      let shown = record l { preview = true; close_button_shown = not o.read_only } in
      let save_it = save o screen marked filter_html_tags shown in
      let saved = if not l.watch then save_it else shown in
      let same : face saved ≡ face shown =
        face-if (not l.watch) save_it shown (face shown)
          (face-save o screen marked filter_html_tags shown) refl in
      let q = subst IsEntering (sym same) h in
      record {
        shown =
            (notify_loaded-IsConsistent o screen marked filter_html_tags bar on_previewing _
              (record { shown = (q.0, q.1, q.2, q.3, sym q.7, q.4, q.5, q.6, q.8) })).shown;
      }

  -- `true` stands for what CodeMirror was before it was toggled.
  previewing_toggled :
      (l : Layout) (b : Bool)
      → l.code_mirror_shown ≡ b
      → IsConsistent o l
      → IsConsistent o (
          if not (not b)
          then enter_preview o screen marked filter_html_tags
              (toggled o screen marked filter_html_tags l)
          else previewed o screen marked filter_html_tags
              (toggled o screen marked filter_html_tags l))
  unfolding toggled
  previewing_toggled l true e h =
      let s = h.shown in
      enter_preview-IsConsistent _ (
        s.0,
        ap not e,
        row o.toolbar o.toolbar_set bar l.toolbar_shown (s.2) (sym s.1 ∙ e),
        refl,
        s.5,
        s.6,
        s.7,
        refl,
        s.8,
      )
    where
      row :
          (b c : Bool)
          → c ≡ true
          → (shown : Bool) → (if b then shown else not l.preview) ≡ not l.preview
          → not l.preview ≡ true
          → (if b then (if b && c then not shown else shown) else false) ≡ false
      row true true i shown k m = ap not (k ∙ m)
      row true false i shown k m = cc
      row false c i shown k m = refl
  previewing_toggled l false e h =
      let s = h.shown in
      previewed-IsConsistent o screen marked filter_html_tags bar _ s.0 s.5 s.6 s.7 s.8

  previewing-IsConsistent :
      (l : Layout)
      → IsConsistent o l
      → IsConsistent o (previewing o screen marked filter_html_tags l)
  unfolding previewing toggled
  previewing-IsConsistent l h =
      IsConsistent-if o (not o.markdown) l _ h (previewing_toggled l l.code_mirror_shown refl h)

  next_timeout-IsConsistent :
      (l : Layout)
      → IsConsistent o l
      → IsConsistent o (next_timeout o screen marked filter_html_tags l)
  unfolding next_timeout timeout
  next_timeout-IsConsistent l h = fire l.timeouts refl
    where
      fire :
          (ts : List ℕ)
          → l.timeouts ≡ ts
          → IsConsistent o (next_timeout o screen marked filter_html_tags l)
      fire [] e = rw (next_timeout, e) h
      fire (t ∷ rest) e =
          rw (next_timeout, e)
            (record {
              shown =
                  (save-IsConsistent o screen marked filter_html_tags bar _
                    (record { shown = h.shown })).shown;
            })

  loaded_display-IsConsistent :
      (l : Layout)
      → IsConsistent o l
      → IsConsistent o (loaded_display o screen marked filter_html_tags l)
  unfolding loaded_display and_then
  loaded_display-IsConsistent l h =
      let saved = save o screen marked filter_html_tags l in
      let k = save-IsConsistent o screen marked filter_html_tags bar l h in
      let shown =
        IsConsistent-if o saved.watch (record saved { preview_shown = true }) saved
          (record { shown = k.shown }) k in
      let sized =
        resize-IsConsistent o screen marked filter_html_tags bar _
          (record { shown = shown.shown }) in
      IsConsistent-if o _ _ _ sized (record {
        shown = (notify-IsConsistent o screen marked filter_html_tags bar on_load _ sized).shown;
      })

  change-IsConsistent :
      (t : Text) (l : Layout)
      → IsConsistent o l
      → IsConsistent o (change o screen marked filter_html_tags t l)
  unfolding change
  change-IsConsistent t l h =
      IsConsistent-if o (not o.sync_scrolling) _ _ (record { shown = h.shown })
        (record { shown = h.shown })

  call-IsConsistent :
      (c : Call) (l : Layout)
      → IsConsistent o l
      → IsConsistent o (call o screen marked filter_html_tags c l)
  unfolding call set_width set_height
  call-IsConsistent watches l h = watch_on-IsConsistent o screen marked filter_html_tags bar l h
  call-IsConsistent unwatches l h = unwatch-IsConsistent o screen marked filter_html_tags bar l h
  call-IsConsistent previews l h = previewing-IsConsistent l h
  call-IsConsistent closes_preview l h =
      let s = h.shown in
      previewed-IsConsistent o screen marked filter_html_tags bar l s.0 s.5 s.6 s.7 s.8
  call-IsConsistent fullscreens l h = toggle_fullscreen-IsConsistent l h
  call-IsConsistent exits_fullscreen l h =
      let s = h.shown in
      fullscreen_exit-IsConsistent o screen marked filter_html_tags bar l s.0 s.1 s.2 s.3 s.4 s.8
  call-IsConsistent resizes l h = resize-IsConsistent o screen marked filter_html_tags bar l h
  call-IsConsistent saves l h = save-IsConsistent o screen marked filter_html_tags bar l h
  call-IsConsistent fires l h = next_timeout-IsConsistent l h
  call-IsConsistent loads l h = loaded_display-IsConsistent l h
  call-IsConsistent (changes t) l h = change-IsConsistent t l h
  call-IsConsistent (widths w) l h =
      resize-IsConsistent o screen marked filter_html_tags bar _ (record { shown = h.shown })
  call-IsConsistent (heights w) l h =
      resize-IsConsistent o screen marked filter_html_tags bar _ (record { shown = h.shown })

  -- Of an editor whose `this.toolbar` is set, each of the calls watch, unwatch, previewing,
  -- previewed, fullscreen, fullscreenExit, resize, save, width and height, its loading, a change of
  -- the text and a timeout throws no TypeError and keeps the mode and what is shown together:
  -- `watching` is the setting, CodeMirror and the toolbar (with the setting `toolbar`) are hidden
  -- exactly in the preview mode, where the close button (if readOnly is off) is shown, and the
  -- fullscreen class, icon and overflow are those of fullscreen. showToolbar and hideToolbar are not
  -- among these calls.
  pub run-IsConsistent :
      (c : Call) (l : Layout)
      → IsConsistent o l
      → IsConsistent o (run o screen marked filter_html_tags c l)
  unfolding run
  run-IsConsistent c l h =
      let s = h.shown in
      call-IsConsistent c _ (record { shown = (s.0, s.1, s.2, s.3, s.4, s.5, s.6, s.7, refl) })
