-- ===== src/Waypoints/Lifecycle/Throttle/Keeps.antt =====
-- Every operation keeps one frame for each flag that is set.
use study_tech.Base.{
  ℕ, zero, suc, ◌≡◌, refl, sym, ◌∙◌, List, [], ◌∷◌, ◌++◌, get_elem?, length, false, ◌&&◌, not, ◌==◌,
  Bool-cases, Option-cases, inl, inr,
}
use study_tech.Waypoints.State.{Axis, horizontal, vertical, Context, World, Page, window}
use study_tech.Waypoints.Context.{seen, scroll_context, handle_scroll}
use study_tech.Waypoints.Context.Still.{handle_scroll-none, handle_scroll-some}
use study_tech.Waypoints.Group.{erase_key}
use study_tech.Waypoints.Refresh.{refresh}
use study_tech.Waypoints.Lifecycle.{
  Options, find_or_create_group, find_context, new_context, create_context, find_or_create_context,
  add_to_context, create, check_empty, remove_from_context, destroy, disable, enable, refresh_from,
  refresh_all, is_empty, invoke_all, switch_on, enable_all, destroy_context,
}
use study_tech.Waypoints.Lifecycle.Throttle.{
  Kind, scroll, resize, flag, flag_same, waiting, pending, IsThrottled, waiting_flush,
  pending-append, pending-modify_same,
}

-- The frames that wait and the flags are those of before.
abbrev pub Keeps : World → World → Type 0
Keeps s t =
    (k : Kind) (i : ℕ)
    → (waiting k i t.frames ≡ waiting k i s.frames)
      × (pending k i t.contexts ≡ pending k i s.contexts)

pub Keeps-refl : (s : World) → Keeps s s
Keeps-refl s k i = (refl, refl)

pub Keeps-trans : (s t u : World) → Keeps s t → Keeps t u → Keeps s u
Keeps-trans s t u h l k i = ((l k i).0 ∙ (h k i).0, (l k i).1 ∙ (h k i).1)

pub Keeps-IsThrottled : (s t : World) → Keeps s t → IsThrottled s → IsThrottled t
Keeps-IsThrottled s t h l k i = (h k i).0 ∙ l k i ∙ sym (h k i).1

add_to_context-flag :
    (axis : Axis) (key : ℕ) (k : Kind) (c : Context) → flag k (add_to_context axis key c) ≡ flag k c
unfolding add_to_context
add_to_context-flag horizontal key scroll c = refl
add_to_context-flag horizontal key resize c = refl
add_to_context-flag vertical key scroll c = refl
add_to_context-flag vertical key resize c = refl

switch_on-Keeps : (key : ℕ) (s : World) → Keeps s (switch_on key s)
unfolding switch_on
switch_on-Keeps key s = Keeps-refl s

pub invoke_all-Keeps :
    (method : ℕ → World → World)
    → ((key : ℕ) (s : World) → Keeps s (method key s))
    → (keys : List ℕ) (s : World) → Keeps s (invoke_all method keys s)
unfolding invoke_all
invoke_all-Keeps method h [] s = Keeps-refl s
invoke_all-Keeps method h (key ∷ keys) s =
    Keeps-trans s (method key s) (invoke_all method keys (method key s)) (h key s)
      (invoke_all-Keeps method h keys (method key s))

module _ (page : Page) where
  pub handle_scroll-Keeps : (i : ℕ) (s : World) → Keeps s (handle_scroll page i s)
  unfolding scroll_context seen
  handle_scroll-Keeps i s = elim (Option-cases (get_elem? s.contexts i)) [
    | inl e ↦ rw (handle_scroll-none page i s e) (Keeps-refl s)
    | inr (c, e) ↦ rw (handle_scroll-some page i s c e) (λ k j. (
      refl,
      pending-modify_same k (seen page) j i s.contexts (λ d. flag_same k (seen page d) d refl refl),
    ))
  ]

  pub refresh-Keeps : (i : ℕ) (s : World) → Keeps s (refresh page i s)
  unfolding refresh
  refresh-Keeps i s =
      let t = handle_scroll page i s in
      let h = handle_scroll-Keeps i s in
      elim (Option-cases (get_elem? t.contexts i)) [
        | inl e ↦ rw (refresh, e) h
        | inr (c, e) ↦
            rw (refresh, e) (λ k j. (waiting_flush k j t.frames _ ∙ (h k j).0, (h k j).1))
      ]

  pub refresh_from-Keeps : (left i : ℕ) (s : World) → Keeps s (refresh_from page i left s)
  unfolding refresh_from
  refresh_from-Keeps zero i s = Keeps-refl s
  refresh_from-Keeps (suc left) i s = elim (Option-cases (get_elem? s.contexts i)) [
    | inl e ↦ rw (refresh_from, e) (refresh_from-Keeps left (suc i) s)
    | inr (c, e) ↦ elim (Bool-cases c.live) [
      | inl e' ↦
          rw (refresh_from, e, e')
            (Keeps-trans s (refresh page i s) (refresh_from page (suc i) left (refresh page i s))
              (refresh-Keeps i s) (refresh_from-Keeps left (suc i) (refresh page i s)))
      | inr e' ↦ rw (refresh_from, e, e') (refresh_from-Keeps left (suc i) s)
    ]
  ]

  pub refresh_all-Keeps : (s : World) → Keeps s (refresh_all page s)
  unfolding refresh_all
  refresh_all-Keeps s = refresh_from-Keeps (length s.contexts) 0 s

  find_or_create_context-Keeps : (e : ℕ) (s : World) → Keeps s (find_or_create_context page e s).0
  unfolding find_or_create_context create_context
  find_or_create_context-Keeps e s = elim (Option-cases (find_context e s.contexts)) [
    | inr (i, h) ↦ rw (find_or_create_context, h) (Keeps-refl s)
    | inl h ↦ elim (Bool-cases s.window_context) [
      | inl w ↦
          rw (find_or_create_context, h, create_context, w)
            (λ k i. (refl, pending-append k i s.contexts _ (new _ k)))
      | inr w ↦
          rw (find_or_create_context, h, create_context, w)
            (λ k i.
              (refl, pending-append k i _ _ (new _ k) ∙ pending-append k i s.contexts _ (new _ k)))
    ]
  ]
    where
      new : (x : ℕ) (k : Kind) → flag k (new_context page x) ≡ false
      new x scroll = refl
      new x resize = refl

  pub create-Keeps : (o : Options) (s : World) → Keeps s (create page o s)
  unfolding create
  create-Keeps o s =
      let t = record s { groups = (find_or_create_group o.group o.axis s.groups).0 } in
      let c = (find_or_create_context page o.context t).1 in
      let found = find_or_create_context-Keeps o.context t in
      λ k i.
        let refreshed = refresh-Keeps c _ k i in
        (
          refreshed.0 ∙ (found k i).0,
          refreshed.1
              ∙ pending-modify_same k (add_to_context o.axis (length s.waypoints)) i c _
                  (add_to_context-flag o.axis (length s.waypoints) k)
              ∙ (found k i).1,
        )

  pub enable-Keeps : (key : ℕ) (s : World) → Keeps s (enable page key s)
  unfolding enable
  enable-Keeps key s = elim (Option-cases (get_elem? s.waypoints key)) [
    | inl e ↦ rw (enable, e) (Keeps-refl s)
    | inr (w, e) ↦
        let t = refresh page w.context s in
        let h = refresh-Keeps w.context s in
        rw (enable, e) (Keeps-trans s t (switch_on key t) h (switch_on-Keeps key t))
  ]

pub enable_all-Keeps : (page : Page) (s : World) → Keeps s (enable_all page s)
unfolding enable_all
enable_all-Keeps page s =
    let t = refresh_all page s in
    Keeps-trans s t (invoke_all switch_on t.all t) (refresh_all-Keeps page s)
      (invoke_all-Keeps switch_on switch_on-Keeps t.all t)

check_empty-flag : (k : Kind) (c : Context) → flag k (check_empty c) ≡ flag k c
unfolding check_empty
check_empty-flag k c =
    elim (Bool-cases
      (is_empty c.horizontals && is_empty c.verticals && not (c.element == window))) [
        | inl e ↦ rw (check_empty, e) (flag_same k (record c { live = false }) c refl refl)
        | inr e ↦ rw (check_empty, e) refl
      ]

remove_from_context-flag :
    (axis : Axis) (key : ℕ) (k : Kind) (c : Context)
    → flag k (remove_from_context axis key c) ≡ flag k c
unfolding remove_from_context
remove_from_context-flag horizontal key k c =
    check_empty-flag k _
    ∙ flag_same k (record c { horizontals = erase_key key c.horizontals }) c refl refl
remove_from_context-flag vertical key k c =
    check_empty-flag k _
    ∙ flag_same k (record c { verticals = erase_key key c.verticals }) c refl refl

pub destroy-Keeps : (key : ℕ) (s : World) → Keeps s (destroy key s)
unfolding destroy
destroy-Keeps key s = elim (Option-cases (get_elem? s.waypoints key)) [
  | inl e ↦ rw (destroy, e) (Keeps-refl s)
  | inr (w, e) ↦
      rw (destroy, e)
        (λ k i. (
          refl,
          pending-modify_same k _ i w.context s.contexts (remove_from_context-flag w.axis key k),
        ))
]

pub disable-Keeps : (key : ℕ) (s : World) → Keeps s (disable key s)
unfolding disable
disable-Keeps key s = Keeps-refl s

pub destroy_context-Keeps : (i : ℕ) (s : World) → Keeps s (destroy_context i s)
unfolding destroy_context
destroy_context-Keeps i s = elim (Option-cases (get_elem? s.contexts i)) [
  | inl e ↦ rw (destroy_context, e) (Keeps-refl s)
  | inr (c, e) ↦
      rw (destroy_context, e)
        (invoke_all-Keeps destroy destroy-Keeps (c.verticals ++ c.horizontals) s)
]
