-- ===== src/Waypoints/Context.antt =====
-- Waypoint.Context: what a scroll position triggers, and where the trigger points lie.
pub mod Still
pub mod Queues
use study_tech.Base.{
  ℕ, zero, suc, List, [], ◌∷◌, ◌++◌, Option, none, some, get_elem?, Bool, true, false, not, ◌&&◌,
  ◌||◌, ◌==◌, if◌then◌else◌,
}
use study_tech.Base.Int.{ℤ, pos, ◌+ℤ◌, ◌-ℤ◌, percent, ltb_ℤ, leb_ℤ}
use study_tech.Waypoints.State.{
  Axis, horizontal, vertical, Direction, up, down, left, right, Offset, number, percentage,
  bottom_in_view, right_in_view, Waypoint, Group, Context, Event, Frame, scroll_handler,
  resize_handler, flush_groups, World, Page, window, modify,
}
use study_tech.Waypoints.Group.{queue_trigger, clear_trigger_queues, flush_events}

-- A context is named by its index; `c.old_x` and the like are read from the table.
unfoldable pub same_axis : Axis → Axis → Bool
same_axis horizontal horizontal = true
same_axis vertical vertical = true
same_axis _ _ = false

-- `axis.forward` and `axis.backward`.
unfoldable pub forward : Axis → Direction
forward horizontal = right
forward vertical = down

unfoldable pub backward : Axis → Direction
backward horizontal = left
backward vertical = up

unfoldable pub keys_of : Axis → Context → List ℕ
keys_of horizontal c = c.horizontals
keys_of vertical c = c.verticals

unfoldable pub old_scroll : Axis → Context → ℤ
old_scroll horizontal c = c.old_x
old_scroll vertical c = c.old_y

unfoldable pub new_scroll : Page → Axis → Context → ℤ
new_scroll page horizontal c = page.scroll_left c.element
new_scroll page vertical c = page.scroll_top c.element

-- crossedForward || crossedBackward
unfoldable pub crossed : ℤ → ℤ → ℤ → Bool
crossed old new point =
    let was_before = ltb_ℤ old point in
    let now_after = leb_ℤ point new in was_before && now_after || not was_before && not now_after

-- The groups and the keys of `triggeredGroups`, in the order in which they are first met.
pub record Queued : Type 0 where
  pub groups : List Group
  pub triggered : List ℕ

unfoldable pub add_key : ℕ → List ℕ → List ℕ
add_key g [] = g ∷ []
add_key g (k ∷ ks) = if k == g then k ∷ ks else k ∷ add_key g ks

-- `waypoint.queueTrigger(direction); triggeredGroups[waypoint.group.id] = waypoint.group`
unfoldable pub queue_waypoint : ℕ → ℕ → Direction → Queued → Queued
queue_waypoint key group direction q = record {
  groups = modify group (queue_trigger key direction) q.groups;
  triggered = add_key group q.triggered;
}

-- One waypoint of the inner loop of handleScroll.
unfoldable pub scroll_waypoint : List Waypoint → ℤ → ℤ → Direction → ℕ → Queued → Queued
scroll_waypoint table old new direction key q = elim (get_elem? table key) [
  | none ↦ q
  | some w ↦ elim w.trigger_point [
    | none ↦ q
    | some point ↦ if crossed old new point then queue_waypoint key w.group direction q else q
  ]
]

unfoldable pub scroll_keys : List Waypoint → ℤ → ℤ → Direction → List ℕ → Queued → Queued
scroll_keys table old new direction [] q = q
scroll_keys table old new direction (key ∷ keys) q =
    scroll_keys table old new direction keys (scroll_waypoint table old new direction key q)

-- One axis of handleScroll.
unfoldable pub scroll_axis : List Waypoint → Page → Axis → Context → Queued → Queued
scroll_axis table page axis c q =
    let old = old_scroll axis c in
    let new = new_scroll page axis c in
    let direction = if ltb_ℤ old new then forward axis else backward axis in
    scroll_keys table old new direction (keys_of axis c) q

-- `flushTriggers` of each triggered group: the calls, and the groups with their queues cleared.
unfoldable pub flush_all : List Waypoint → List ℕ → List Group → List Event
flush_all table [] groups = []
flush_all table (g ∷ gs) groups =
    (elim (get_elem? groups g) [ none ↦ [] | some group ↦ flush_events table group ])
    ++ flush_all table gs groups

unfoldable pub clear_all : List ℕ → List Group → List Group
clear_all [] groups = groups
clear_all (g ∷ gs) groups = clear_all gs (modify g clear_trigger_queues groups)

-- The two axes of handleScroll.
unfoldable pub queued_by : Page → Context → World → Queued
queued_by page c s =
    let start : Queued = record { groups = s.groups; triggered = [] } in
    scroll_axis s.waypoints page vertical c (scroll_axis s.waypoints page horizontal c start)

-- `this.oldScroll = …`
unfoldable pub seen : Page → Context → Context
seen page c = record c { old_x = new_scroll page horizontal c; old_y = new_scroll page vertical c }

-- Context.handleScroll of the context `c` with index `i`; a callback changes no waypoint.
unfoldable pub scroll_context : Page → ℕ → Context → World → World
scroll_context page i c s =
    let q = queued_by page c s in
    record s {
      groups = clear_all q.triggered q.groups;
      events = s.events ++ flush_all s.waypoints q.triggered q.groups;
      contexts = modify i (seen page) s.contexts;
    }

unfoldable pub handle_scroll : Page → ℕ → World → World
handle_scroll page i s = elim (get_elem? s.contexts i) [
  | none ↦ s
  | some c ↦ scroll_context page i c s
]
