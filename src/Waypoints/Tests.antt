-- ===== src/Waypoints/Tests.antt =====
-- A page with a few waypoints, and the theorems of Waypoints at it.
use mathlib.Core.List.{Perm}
use study_tech.Base.{
  if◌then◌else◌, ℕ, zero, suc, List, [], ◌∷◌, ◌++◌, ◌≡◌, ◌↔◌, refl, Bool, true, false, none, some,
  All, map, arith, inl, inr,
}
use study_tech.Base.Int.{ltb_ℤ, pos}
use study_tech.Waypoints.State.{
  horizontal, vertical, down, up, number, Waypoint, Group, Context, World, Page, window, modify,
}
use study_tech.Waypoints.Group.{
  fire_queue, order, point, queue_trigger, same_direction, flush_events, fire, sort_by, insert_by,
  trigger, is_continuous,
}
use study_tech.Waypoints.Group.Flush.{
  event, IsBehind, AreOnward, fire_queue-AreOnward, fire_queue_last,
}
use study_tech.Waypoints.Context.{
  handle_scroll, backward, forward, scroll_context, queued_by, scroll_axis, scroll_keys,
  scroll_waypoint, queue_waypoint, crossed, add_key, keys_of, old_scroll, new_scroll, flush_all,
  clear_all, seen,
}
use study_tech.Waypoints.Context.Queues.{IsQueued, crossed_keys, queued_by-IsQueued}
use study_tech.Waypoints.Context.Still.{handle_scroll_again}
use study_tech.Waypoints.Refresh.{moved}
use study_tech.Waypoints.Refresh.Boundary.{
  passed, change, moved-eq-change, crossed-eq-change, is_at, moved-eq-change_iff,
}
use study_tech.Waypoints.Lifecycle.{on_scroll, next_frame, run_frame}
use study_tech.Waypoints.Lifecycle.Throttle.{IsThrottled, scroll, resize}
use study_tech.Waypoints.Lifecycle.Throttle.Steps.{scrolled, Step-IsThrottled}

abbrev page_at : ℕ → Page
page_at y = record {
  scroll_left = λ e. pos 0;
  scroll_top = λ e. pos y;
  offset_left = λ e. pos 0;
  offset_top = λ e. pos 300;
  inner_width = λ e. 800;
  inner_height = λ e. 600;
  outer_width = λ e. 10;
  outer_height = λ e. 10;
  is_touch = false;
}

abbrev waypoint_at : ℕ → Bool → Waypoint
waypoint_at y continuous = record {
  element = 1;
  axis = vertical;
  group = 0;
  context = 0;
  offset = number (pos 0);
  continuous = continuous;
  enabled = true;
  trigger_point = some (pos y);
}

abbrev window_context : Context
window_context = record {
  element = window;
  did_scroll = false;
  did_resize = false;
  old_x = pos 0;
  old_y = pos 0;
  horizontals = [];
  verticals = 0 ∷ 1 ∷ [];
  live = true;
}

abbrev group_of : List ℕ → Group
group_of queued = record { name = 0; axis = vertical; waypoints = 0 ∷ 1 ∷ []; queue = λ d. queued }

abbrev table : Bool → List Waypoint
table continuous = waypoint_at 200 continuous ∷ waypoint_at 100 continuous ∷ []

abbrev world : World
world = record {
  waypoints = table true;
  all = 0 ∷ 1 ∷ [];
  groups = group_of [] ∷ [];
  contexts = window_context ∷ [];
  window_context = true;
  events = [];
  frames = [];
}

world-IsThrottled : IsThrottled world
world-IsThrottled scroll zero = refl
world-IsThrottled scroll (suc i) = refl
world-IsThrottled resize zero = refl
world-IsThrottled resize (suc i) = refl

Step-IsThrottled_example : IsThrottled (on_scroll (page_at 250) 0 world)
Step-IsThrottled_example =
    Step-IsThrottled (page_at 250) world (on_scroll (page_at 250) 0 world) refl (scrolled 0 world)
      world-IsThrottled

handle_scroll_again_example :
    let t = handle_scroll (page_at 250) 0 world in
    ((handle_scroll (page_at 250) 0 t).events ≡ t.events)
    × ((handle_scroll (page_at 250) 0 t).groups ≡ t.groups)
handle_scroll_again_example = handle_scroll_again (page_at 250) 0 world

fire_queue-AreOnward_example :
    (ks : List ℕ) × (fire_queue (table true) down (group_of (0 ∷ 1 ∷ []))
      ≡ map (event (table true) down) ks)
    × Perm ks (0 ∷ 1 ∷ [])
    × AreOnward (table true) down ks
fire_queue-AreOnward_example = fire_queue-AreOnward (table true) down (group_of (0 ∷ 1 ∷ [])) (
  (waypoint_at 200 true, pos 200, refl, refl, refl, refl),
  ((waypoint_at 100 true, pos 100, refl, refl, refl, refl), tt),
)

fire_queue_last_example :
    (last : ℕ) × (js : List ℕ) × (fire_queue (table false) up (group_of (0 ∷ 1 ∷ []))
      ≡ event (table false) up last ∷ [])
    × Perm (js ++ last ∷ []) (0 ∷ 1 ∷ [])
    × All (λ j. IsBehind (table false) up j last) js
fire_queue_last_example = fire_queue_last (table false) up (group_of (0 ∷ 1 ∷ [])) 0 (1 ∷ []) refl (
  (waypoint_at 200 false, pos 200, refl, refl, refl, refl),
  ((waypoint_at 100 false, pos 100, refl, refl, refl, refl), tt),
)

moved-eq-change_example :
    (moved vertical (some (pos 100)) (pos 300) (pos 250)
      ≡ change vertical (passed (pos 100) (pos 250)) (passed (pos 300) (pos 250)))
    × (moved vertical none (pos 300) (pos 250) ≡ change vertical false (passed (pos 300) (pos 250)))
moved-eq-change_example =
    moved-eq-change vertical (pos 100) (pos 300) (pos 250) (inl (omega arith)) (inr (omega arith))

-- A passed waypoint that a refresh moves to the scroll position.
moved-eq-change_iff_example :
    (moved vertical (some (pos 100)) (pos 250) (pos 250)
      ≡ change vertical (passed (pos 100) (pos 250)) (passed (pos 250) (pos 250)))
    ↔ (is_at (pos 100) (pos 250) ≡ is_at (pos 250) (pos 250))
moved-eq-change_iff_example = moved-eq-change_iff vertical (pos 100) (pos 250) (pos 250)

-- Two waypoints are passed on the way down: the higher one is called first.
scroll_down :
    (next_frame (page_at 250) (on_scroll (page_at 250) 0 world)).events
    ≡ record { key = 1; direction = down } ∷ record { key = 0; direction = down } ∷ []
unfolding next_frame on_scroll run_frame handle_scroll scroll_context queued_by scroll_axis
    scroll_keys scroll_waypoint queue_waypoint queue_trigger same_direction crossed add_key forward
    keys_of old_scroll new_scroll flush_all flush_events fire_queue fire sort_by insert_by order
    point trigger is_continuous modify clear_all seen backward
scroll_down = refl

queued_by-IsQueued_example :
    IsQueued (queued_by (page_at 250) window_context world).groups 0 (group_of []) (λ e.
      crossed_keys world (page_at 250) horizontal window_context 0 e
      ++ crossed_keys world (page_at 250) vertical window_context 0 e)
queued_by-IsQueued_example =
    queued_by-IsQueued (page_at 250) window_context world 0 (group_of []) refl

crossed-eq-change_example :
    (if crossed (pos 0) (pos 250) (pos 250)
      then some (if ltb_ℤ (pos 0) (pos 250) then forward vertical else backward vertical)
      else none)
    ≡ change vertical (passed (pos 250) (pos 0)) (passed (pos 250) (pos 250))
crossed-eq-change_example = crossed-eq-change vertical (pos 0) (pos 250) (pos 250)
