-- ===== src/Waypoints/Context/Still.antt =====
-- A scroll position that does not change triggers nothing.
use mathlib.Core.List.{append-nil}
use study_tech.Base.{
  ℕ, List, [], ◌∷◌, ◌≡◌, refl, arith, none, some, get_elem?, false, Option-cases, inl, inr,
}
use study_tech.Base.Int.{ℤ}
use study_tech.Waypoints.State.{
  Axis, horizontal, vertical, Direction, Waypoint, Context, World, Page,
}
use study_tech.Waypoints.Table.{get_elem?-modify_self}
use study_tech.Waypoints.Context.{
  keys_of, old_scroll, new_scroll, crossed, Queued, scroll_waypoint, scroll_keys, scroll_axis,
  flush_all, clear_all, queued_by, seen, scroll_context, handle_scroll,
}

pub crossed_self : (x point : ℤ) → crossed x x point ≡ false
unfolding crossed
crossed_self x point = ground arith

module _ (table : List Waypoint) (x : ℤ) (direction : Direction) where
  scroll_waypoint_self : (key : ℕ) (q : Queued) → scroll_waypoint table x x direction key q ≡ q
  unfolding scroll_waypoint
  scroll_waypoint_self key q = elim (Option-cases (get_elem? table key)) [
    | inl e ↦ rw (e, scroll_waypoint)
    | inr (w, e) ↦ elim (Option-cases w.trigger_point) [
      | inl e' ↦ rw (e, scroll_waypoint, e')
      | inr (p, e') ↦ rw (e, scroll_waypoint, e', crossed_self x p)
    ]
  ]

  scroll_keys_self : (keys : List ℕ) (q : Queued) → scroll_keys table x x direction keys q ≡ q
  unfolding scroll_keys
  scroll_keys_self [] q = refl
  scroll_keys_self (key ∷ keys) q = rw (scroll_waypoint_self key q) (scroll_keys_self keys q)

module _ (table : List Waypoint) (page : Page) (c : Context) where
  scroll_axis_same :
      (axis : Axis) (q : Queued)
      → old_scroll axis c ≡ new_scroll page axis c
      → scroll_axis table page axis c q ≡ q
  unfolding scroll_axis
  scroll_axis_same axis q e = rw e (scroll_keys_self table _ _ (keys_of axis c) q)

-- The context has seen the scroll position of the page.
abbrev IsSettled : Page → Context → Type 0
IsSettled page c = (axis : Axis) → old_scroll axis c ≡ new_scroll page axis c

module _ (page : Page) (i : ℕ) (s : World) where
  pub handle_scroll-none : get_elem? s.contexts i ≡ none → handle_scroll page i s ≡ s
  unfolding handle_scroll
  handle_scroll-none e = rw (e, handle_scroll)

  pub handle_scroll-some :
      (c : Context)
      → get_elem? s.contexts i ≡ some c
      → handle_scroll page i s ≡ scroll_context page i c s
  unfolding handle_scroll
  handle_scroll-some c e = rw (e, handle_scroll)

  queued_by_settled :
      (c : Context)
      → IsSettled page c
      → queued_by page c s ≡ record { groups = s.groups; triggered = [] }
  unfolding queued_by
  queued_by_settled c h =
      rw (scroll_axis_same s.waypoints page c horizontal _ (h horizontal))
        (scroll_axis_same s.waypoints page c vertical _ (h vertical))

  handle_scroll_settled :
      (c : Context)
      → get_elem? s.contexts i ≡ some c
      → IsSettled page c
      → ((handle_scroll page i s).events ≡ s.events) × ((handle_scroll page i s).groups ≡ s.groups)
  unfolding scroll_context flush_all clear_all
  handle_scroll_settled c e h =
      rw (handle_scroll-some c e, queued_by_settled c h) (append-nil s.events, refl)

  contexts-handle_scroll :
      (c : Context)
      → get_elem? s.contexts i ≡ some c
      → get_elem? (handle_scroll page i s).contexts i ≡ some (seen page c)
  unfolding scroll_context
  contexts-handle_scroll c e =
      rw (handle_scroll-some c e) (get_elem?-modify_self i (seen page) s.contexts c e)

seen-IsSettled : (page : Page) (c : Context) → IsSettled page (seen page c)
unfolding seen old_scroll new_scroll
seen-IsSettled page c horizontal = refl
seen-IsSettled page c vertical = refl

-- A second handleScroll at the same scroll position calls no handler and leaves the groups as they
-- are.
pub handle_scroll_again :
    (page : Page) (i : ℕ) (s : World)
    → let t = handle_scroll page i s in
      ((handle_scroll page i t).events ≡ t.events) × ((handle_scroll page i t).groups ≡ t.groups)
handle_scroll_again page i s = elim (Option-cases (get_elem? s.contexts i)) [
  | inl e ↦ let same = handle_scroll-none page i s e in rw (same, same) (refl, refl)
  | inr (c, e) ↦
      handle_scroll_settled page i (handle_scroll page i s) (seen page c)
        (contexts-handle_scroll page i s c e) (seen-IsSettled page c)
]
