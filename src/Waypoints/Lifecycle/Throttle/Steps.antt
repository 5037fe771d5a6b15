-- ===== src/Waypoints/Lifecycle/Throttle/Steps.antt =====
-- The calls and events that change the world, one at a time, and what they keep.
use study_tech.Base.{
  ℕ, ◌≡◌, refl, sym, ◌∙◌, ap, arith, List, [], ◌∷◌, get_elem?, Bool, true, false, Bool-cases,
  Option-cases, ◌⊎◌, inl, inr,
}
use study_tech.Waypoints.State.{
  Context, Frame, scroll_handler, resize_handler, flush_groups, World, Page,
}
use study_tech.Waypoints.Context.{handle_scroll}
use study_tech.Waypoints.Refresh.{refresh}
use study_tech.Waypoints.Lifecycle.{
  Options, create, destroy, disable, enable, refresh_all, on_scroll, on_resize, run_frame,
  next_frame, invoke_all, destroy_all, disable_all, enable_all, destroy_context,
}
use study_tech.Waypoints.Lifecycle.Throttle.{Kind, scroll, resize, flag, asks, waiting, IsThrottled}
use study_tech.Waypoints.Lifecycle.Throttle.Keeps.{
  Keeps, Keeps-IsThrottled, handle_scroll-Keeps, refresh-Keeps, refresh_all-Keeps, create-Keeps,
  enable-Keeps, enable_all-Keeps, destroy_context-Keeps, destroy-Keeps, disable-Keeps,
  invoke_all-Keeps,
}
use study_tech.Waypoints.Lifecycle.Throttle.Asked.{IsOf, asked-IsThrottled, ran-IsThrottled}

-- One call of the interface, event of a context or animation frame. The page may differ each time.
pub data Step (page : Page) : World → World → Type 0 where
  scrolled : (i : ℕ) (s : World) → Step page s (on_scroll page i s)
  resized : (i : ℕ) (s : World) → Step page s (on_resize i s)
  framed : (s : World) → Step page s (next_frame page s)
  created : (o : Options) (s : World) → Step page s (create page o s)
  destroyed : (key : ℕ) (s : World) → Step page s (destroy key s)
  disabled : (key : ℕ) (s : World) → Step page s (disable key s)
  enabled : (key : ℕ) (s : World) → Step page s (enable page key s)
  refreshed : (i : ℕ) (s : World) → Step page s (refresh page i s)
  refreshed_all : (s : World) → Step page s (refresh_all page s)
  destroyed_all : (s : World) → Step page s (destroy_all s)
  disabled_all : (s : World) → Step page s (disable_all s)
  enabled_all : (s : World) → Step page s (enable_all page s)
  context_destroyed : (i : ℕ) (s : World) → Step page s (destroy_context i s)

abbrev scroll_flag : Bool → Context → Context
scroll_flag b d = record d { did_scroll = b }

abbrev resize_flag : Bool → Context → Context
resize_flag b d = record d { did_resize = b }

scroll_handler-IsOf : (b : Bool) (i : ℕ) → IsOf scroll (scroll_flag b) (scroll_handler i) i
scroll_handler-IsOf b i = (
  ground arith,
  λ j h. ground arith,
  λ l.
      elim l
        as (λ m.
          (m ≡ scroll)
          ⊎ (((j : ℕ) → asks m j (scroll_handler i) ≡ false)
              × ((d : Context) → flag m (scroll_flag b d) ≡ flag m d))) [
                | scroll ↦ inl refl
                | resize ↦ inr (λ j. refl, λ d. refl)
              ],
)

resize_handler-IsOf : (b : Bool) (i : ℕ) → IsOf resize (resize_flag b) (resize_handler i) i
resize_handler-IsOf b i = (
  ground arith,
  λ j h. ground arith,
  λ l.
      elim l
        as (λ m.
          (m ≡ resize)
          ⊎ (((j : ℕ) → asks m j (resize_handler i) ≡ false)
              × ((d : Context) → flag m (resize_flag b d) ≡ flag m d))) [
                | scroll ↦ inr (λ j. refl, λ d. refl)
                | resize ↦ inl refl
              ],
)

module _ (page : Page) (s : World) where
  on_scroll-IsThrottled :
      page.is_touch ≡ false → (i : ℕ) → IsThrottled s → IsThrottled (on_scroll page i s)
  unfolding on_scroll
  on_scroll-IsThrottled touch i h = elim (Option-cases (get_elem? s.contexts i)) [
    | inl e ↦ rw (on_scroll, e) h
    | inr (c, e) ↦ elim (Bool-cases c.did_scroll) [
      | inl on ↦ rw (on_scroll, e, on, touch) h
      | inr off ↦
          rw (on_scroll, e, off)
            (asked-IsThrottled scroll (scroll_flag true) (scroll_handler i) i
              (scroll_handler-IsOf true i) s c (λ d. refl) e off h)
    ]
  ]

  on_resize-IsThrottled : (i : ℕ) → IsThrottled s → IsThrottled (on_resize i s)
  unfolding on_resize
  on_resize-IsThrottled i h = elim (Option-cases (get_elem? s.contexts i)) [
    | inl e ↦ rw (on_resize, e) h
    | inr (c, e) ↦ elim (Bool-cases c.did_resize) [
      | inl on ↦ rw (on_resize, e, on) h
      | inr off ↦
          rw (on_resize, e, off)
            (asked-IsThrottled resize (resize_flag true) (resize_handler i) i
              (resize_handler-IsOf true i) s c (λ d. refl) e off h)
    ]
  ]

  run_frame-IsThrottled :
      (f : Frame)
      → IsThrottled (record s { frames = f ∷ s.frames })
      → IsThrottled (run_frame page f s)
  unfolding run_frame
  run_frame-IsThrottled (scroll_handler i) h =
      ran-IsThrottled scroll (scroll_flag false) (scroll_handler i) i (scroll_handler-IsOf false i)
        s (handle_scroll page i s) (handle_scroll-Keeps page i s) (λ d. refl) h
  run_frame-IsThrottled (resize_handler i) h =
      ran-IsThrottled resize (resize_flag false) (resize_handler i) i (resize_handler-IsOf false i)
        s (refresh_all page s) (refresh_all-Keeps page s) (λ d. refl) h
  run_frame-IsThrottled (flush_groups gs) h = λ k i. waiting_none k i ∙ h k i
    where
      waiting_none :
          (k : Kind) (i : ℕ) → waiting k i s.frames ≡ waiting k i (flush_groups gs ∷ s.frames)
      waiting_none scroll i = omega arith
      waiting_none resize i = omega arith

next_frame-IsThrottled : (page : Page) (s : World) → IsThrottled s → IsThrottled (next_frame page s)
unfolding next_frame
next_frame-IsThrottled page s h = go s.frames refl
  where
    go : (fs : List Frame) → s.frames ≡ fs → IsThrottled (next_frame page s)
    go [] e = rw (next_frame, e) h
    go (f ∷ rest) e =
        rw (next_frame, e)
          (run_frame-IsThrottled page (record s { frames = rest }) f
            (λ k i. ap (waiting k i) (sym e) ∙ h k i))

invoked : (s : World) (keys : List ℕ) → Keeps s (invoke_all destroy keys s)
invoked s keys = invoke_all-Keeps destroy destroy-Keeps keys s

-- On a page without touch every call, event or frame keeps this: exactly one frame waits for each
-- scroll or resize flag that is set, and none for a flag that is not.
pub Step-IsThrottled :
    (page : Page) (s t : World)
    → page.is_touch ≡ false
    → Step page s t
    → IsThrottled s
    → IsThrottled t
unfolding destroy_all disable_all
Step-IsThrottled page _ _ touch (scrolled i s) h = on_scroll-IsThrottled page s touch i h
Step-IsThrottled page _ _ touch (resized i s) h = on_resize-IsThrottled page s i h
Step-IsThrottled page _ _ touch (framed s) h = next_frame-IsThrottled page s h
Step-IsThrottled page _ _ touch (created o s) h =
    Keeps-IsThrottled s (create page o s) (create-Keeps page o s) h
Step-IsThrottled page _ _ touch (destroyed key s) h =
    Keeps-IsThrottled s (destroy key s) (destroy-Keeps key s) h
Step-IsThrottled page _ _ touch (disabled key s) h =
    Keeps-IsThrottled s (disable key s) (disable-Keeps key s) h
Step-IsThrottled page _ _ touch (enabled key s) h =
    Keeps-IsThrottled s (enable page key s) (enable-Keeps page key s) h
Step-IsThrottled page _ _ touch (refreshed i s) h =
    Keeps-IsThrottled s (refresh page i s) (refresh-Keeps page i s) h
Step-IsThrottled page _ _ touch (refreshed_all s) h =
    Keeps-IsThrottled s (refresh_all page s) (refresh_all-Keeps page s) h
Step-IsThrottled page _ _ touch (destroyed_all s) h =
    Keeps-IsThrottled s (invoke_all destroy s.all s) (invoked s s.all) h
Step-IsThrottled page _ _ touch (disabled_all s) h =
    Keeps-IsThrottled s (invoke_all disable s.all s)
      (invoke_all-Keeps disable disable-Keeps s.all s) h
Step-IsThrottled page _ _ touch (enabled_all s) h =
    Keeps-IsThrottled s (enable_all page s) (enable_all-Keeps page s) h
Step-IsThrottled page _ _ touch (context_destroyed i s) h =
    Keeps-IsThrottled s (destroy_context i s) (destroy_context-Keeps i s) h
