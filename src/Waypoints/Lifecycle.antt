-- ===== src/Waypoints/Lifecycle.antt =====
-- Waypoint and Context: creation, removal, enabling, and the throttled handlers.
pub mod Throttle
use study_tech.Base.{
  ℕ, zero, suc, ◌+◌, List, [], ◌∷◌, ◌++◌, Option, none, some, get_elem?, length, Bool, true, false,
  not, ◌&&◌, ◌||◌, ◌==◌, if◌then◌else◌,
}
use study_tech.Base.Int.{ℤ}
use study_tech.Waypoints.State.{
  Axis, horizontal, vertical, Direction, Offset, Waypoint, Group, Context, Event, Frame,
  scroll_handler, resize_handler, flush_groups, World, Page, window, modify,
}
use study_tech.Waypoints.Group
use study_tech.Waypoints.Group.{new_group, erase_key}
use study_tech.Waypoints.Context.{same_axis, handle_scroll, flush_all, clear_all}
use study_tech.Waypoints.Refresh.{refresh}

-- The options of a waypoint.
pub record Options : Type 0 where
  pub element : ℕ
  pub context : ℕ
  pub group : ℕ
  pub axis : Axis
  pub offset : Offset
  pub continuous : Bool
  pub enabled : Bool

-- groups[axis][name]
unfoldable pub find_group : ℕ → Axis → List Group → Option ℕ
find_group name axis [] = none
find_group name axis (g ∷ gs) =
    if g.name == name && same_axis g.axis axis
    then some 0
    else (elim (find_group name axis gs) [ none ↦ none | some i ↦ some (suc i) ])

-- Group.findOrCreate: the table, and the index of the group.
unfoldable pub find_or_create_group : ℕ → Axis → List Group → List Group × ℕ
find_or_create_group name axis groups = elim (find_group name axis groups) [
  | some i ↦ (groups, i)
  | none ↦ (groups ++ new_group name axis ∷ [], length groups)
]

-- Context.findByElement: `element.waypointContextKey` is the key of the context that was last
-- created for the element, and `contexts` may have it no more.
unfoldable pub last_context : ℕ → List Context → Option (ℕ × Bool)
last_context element [] = none
last_context element (c ∷ cs) = elim (last_context element cs) [
  | some (i, live) ↦ some (suc i, live)
  | none ↦ if c.element == element then some (0, c.live) else none
]

unfoldable pub find_context : ℕ → List Context → Option ℕ
find_context element contexts = elim (last_context element contexts) [
  | none ↦ none
  | some (i, live) ↦ if live then some i else none
]

abbrev pub new_context : Page → ℕ → Context
new_context page element = record {
  element = element;
  did_scroll = false;
  did_resize = false;
  old_x = page.scroll_left element;
  old_y = page.scroll_top element;
  horizontals = [];
  verticals = [];
  live = true;
}

-- The constructor Context: the first one makes another, for the window.
unfoldable pub create_context : Page → ℕ → World → World
create_context page element s =
    let own = s.contexts ++ new_context page element ∷ [] in
    record s {
      contexts = if s.window_context then own else own ++ new_context page window ∷ [];
      window_context = true;
    }

-- Context.findOrCreateByElement
unfoldable pub find_or_create_context : Page → ℕ → World → World × ℕ
find_or_create_context page element s = elim (find_context element s.contexts) [
  | some i ↦ (s, i)
  | none ↦ (create_context page element s, length s.contexts)
]

-- Context.add, before its refresh
unfoldable pub add_to_context : Axis → ℕ → Context → Context
add_to_context horizontal key c = record c { horizontals = c.horizontals ++ key ∷ [] }
add_to_context vertical key c = record c { verticals = c.verticals ++ key ∷ [] }

-- The constructor Waypoint: its key is the number of waypoints made before.
unfoldable pub create : Page → Options → World → World
create page o s =
    let key = length s.waypoints in
    let (groups, g) = find_or_create_group o.group o.axis s.groups in
    let (t, c) = find_or_create_context page o.context (record s { groups = groups }) in
    let waypoint : Waypoint = record {
      element = o.element;
      axis = o.axis;
      group = g;
      context = c;
      offset = o.offset;
      continuous = o.continuous;
      enabled = o.enabled;
      trigger_point = none;
    } in
    let added = record t {
      waypoints = t.waypoints ++ waypoint ∷ [];
      groups = modify g (Group.add key) t.groups;
      contexts = modify c (add_to_context o.axis key) t.contexts;
    } in
    let refreshed = refresh page c added in record refreshed { all = refreshed.all ++ key ∷ [] }

-- Context.remove and checkEmpty: a context with no waypoint leaves the table, but the window's.
unfoldable pub is_empty : List ℕ → Bool
is_empty [] = true
is_empty _ = false

unfoldable pub check_empty : Context → Context
check_empty c =
    if is_empty c.horizontals && is_empty c.verticals && not (c.element == window)
    then record c { live = false }
    else c

unfoldable pub remove_from_context : Axis → ℕ → Context → Context
remove_from_context horizontal key c =
    check_empty (record c { horizontals = erase_key key c.horizontals })
remove_from_context vertical key c =
    check_empty (record c { verticals = erase_key key c.verticals })

-- Waypoint.destroy
unfoldable pub destroy : ℕ → World → World
destroy key s = elim (get_elem? s.waypoints key) [
  | none ↦ s
  | some w ↦ record s {
    contexts = modify w.context (remove_from_context w.axis key) s.contexts;
    groups = modify w.group (Group.remove key) s.groups;
    all = erase_key key s.all;
  }
]

-- Waypoint.disable
unfoldable pub disable : ℕ → World → World
disable key s = record s { waypoints = modify key (λ w. record w { enabled = false }) s.waypoints }

-- `waypoint.enabled = true`
unfoldable pub switch_on : ℕ → World → World
switch_on key s = record s { waypoints = modify key (λ w. record w { enabled = true }) s.waypoints }

-- Waypoint.enable: the context is refreshed first, while the waypoint is still off.
unfoldable pub enable : Page → ℕ → World → World
enable page key s = elim (get_elem? s.waypoints key) [
  | none ↦ s
  | some w ↦ switch_on key (refresh page w.context s)
]

-- Context.refreshAll: the contexts that are in the table, in the order of their keys.
unfoldable pub refresh_from : Page → ℕ → ℕ → World → World
refresh_from page i zero s = s
refresh_from page i (suc left) s =
    refresh_from page (suc i) left
      (elim (get_elem? s.contexts i) [ none ↦ s | some c ↦ if c.live then refresh page i s else s ])

unfoldable pub refresh_all : Page → World → World
refresh_all page s = refresh_from page 0 (length s.contexts) s

-- The scroll event of a context: one frame is asked for at a time, but on a touch device.
unfoldable pub on_scroll : Page → ℕ → World → World
on_scroll page i s = elim (get_elem? s.contexts i) [
  | none ↦ s
  | some c ↦
      if not c.did_scroll || page.is_touch
      then record s {
        contexts = modify i (λ d. record d { did_scroll = true }) s.contexts;
        frames = s.frames ++ scroll_handler i ∷ [];
      }
      else s
]

unfoldable pub on_resize : ℕ → World → World
on_resize i s = elim (get_elem? s.contexts i) [
  | none ↦ s
  | some c ↦ if c.did_resize then s else record s {
    contexts = modify i (λ d. record d { did_resize = true }) s.contexts;
    frames = s.frames ++ resize_handler i ∷ [];
  }
]

-- One callback of `requestAnimationFrame`.
unfoldable pub run_frame : Page → Frame → World → World
run_frame page (scroll_handler i) s =
    let t = handle_scroll page i s in
    record t { contexts = modify i (λ d. record d { did_scroll = false }) t.contexts }
run_frame page (resize_handler i) s =
    let t = refresh_all page s in
    record t { contexts = modify i (λ d. record d { did_resize = false }) t.contexts }
run_frame page (flush_groups gs) s = record s {
  groups = clear_all gs s.groups;
  events = s.events ++ flush_all s.waypoints gs s.groups;
}

-- The oldest frame that waits.
unfoldable pub next_frame : Page → World → World
next_frame page s = elim s.frames [
  | [] ↦ s
  | f ∷ rest ↦ run_frame page f (record s { frames = rest })
]

-- Waypoint.invokeAll over a list of keys that is taken first.
unfoldable pub invoke_all : (ℕ → World → World) → List ℕ → World → World
invoke_all method [] s = s
invoke_all method (key ∷ keys) s = invoke_all method keys (method key s)

-- Waypoint.destroyAll, Waypoint.disableAll
unfoldable pub destroy_all : World → World
destroy_all s = invoke_all destroy s.all s

unfoldable pub disable_all : World → World
disable_all s = invoke_all disable s.all s

-- Waypoint.enableAll: every context is refreshed, and then every waypoint is switched on.
unfoldable pub enable_all : Page → World → World
enable_all page s = let t = refresh_all page s in invoke_all switch_on t.all t

-- Context.destroy: its vertical waypoints, then its horizontal ones.
unfoldable pub destroy_context : ℕ → World → World
destroy_context i s = elim (get_elem? s.contexts i) [
  | none ↦ s
  | some c ↦ invoke_all destroy (c.verticals ++ c.horizontals) s
]
