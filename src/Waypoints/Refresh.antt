-- ===== src/Waypoints/Refresh.antt =====
-- Context.refresh: the trigger points anew, and what moves across the scroll position by that.
pub mod Boundary
use study_tech.Base.{
  ℕ, zero, suc, List, [], ◌∷◌, ◌++◌, Option, none, some, get_elem?, Bool, true, false, not, ◌&&◌,
  ◌||◌, ◌==◌, if◌then◌else◌,
}
use study_tech.Base.Int.{ℤ, pos, ◌+ℤ◌, ◌-ℤ◌, percent, ltb_ℤ, leb_ℤ}
use study_tech.Waypoints.State.{
  Axis, horizontal, vertical, Direction, Offset, number, percentage, bottom_in_view, right_in_view,
  Waypoint, Group, Context, Frame, flush_groups, World, Page, window, modify,
}
use study_tech.Waypoints.Context.{
  forward, backward, keys_of, old_scroll, Queued, queue_waypoint, handle_scroll, flush_all,
  clear_all,
}

-- `axis.contextOffset`, `axis.contextScroll` and `axis.contextDimension`.
unfoldable pub context_offset : Page → Axis → Context → ℤ
context_offset page horizontal c = if c.element == window then pos 0 else page.offset_left c.element
context_offset page vertical c = if c.element == window then pos 0 else page.offset_top c.element

unfoldable pub context_scroll : Axis → Context → ℤ
context_scroll axis c = if c.element == window then pos 0 else old_scroll axis c

unfoldable pub dimension : Page → Axis → Context → ℕ
dimension page horizontal c = page.inner_width c.element
dimension page vertical c = page.inner_height c.element

-- The window has offset 0.
unfoldable pub element_offset : Page → Axis → ℕ → ℤ
element_offset page horizontal e = if e == window then pos 0 else page.offset_left e
element_offset page vertical e = if e == window then pos 0 else page.offset_top e

unfoldable pub adjustment : Page → Axis → Context → Waypoint → ℤ
adjustment page axis c w = elim w.offset [
  | number a ↦ a
  | percentage a ↦ percent (dimension page axis c) a
  | bottom_in_view ↦ pos (page.inner_height c.element) -ℤ pos (page.outer_height w.element)
  | right_in_view ↦ pos (page.inner_width c.element) -ℤ pos (page.outer_width w.element)
]

-- `Math.floor` changes nothing: positions are whole pixels here.
unfoldable pub trigger_point_at : Page → Axis → Context → Waypoint → ℤ
trigger_point_at page axis c w =
    element_offset page axis w.element
    +ℤ (context_scroll axis c -ℤ context_offset page axis c)
    -ℤ adjustment page axis c w

-- What a waypoint whose trigger point goes from `old` to `new` queues at scroll position `scroll`.
unfoldable pub moved : Axis → Option ℤ → ℤ → ℤ → Option Direction
moved axis none new scroll = if leb_ℤ new scroll then some (forward axis) else none
moved axis (some old) new scroll =
    let was_before = ltb_ℤ old scroll in
    let now_after = leb_ℤ scroll new in
    if was_before && now_after
    then some (backward axis)
    else if not was_before && not now_after
    then some (forward axis)
    else none

pub record Refreshed : Type 0 where
  pub table : List Waypoint
  pub queued : Queued

-- One waypoint of the inner loop.
unfoldable pub refresh_waypoint : Page → Axis → Context → ℕ → Refreshed → Refreshed
refresh_waypoint page axis c key r = elim (get_elem? r.table key) [
  | none ↦ r
  | some w ↦
      let new = trigger_point_at page axis c w in
      record {
        table = modify key (λ v. record v { trigger_point = some new }) r.table;
        queued = elim (moved axis w.trigger_point new (old_scroll axis c)) [
          | none ↦ r.queued
          | some direction ↦ queue_waypoint key w.group direction r.queued
        ];
      }
]

unfoldable pub refresh_keys : Page → Axis → Context → List ℕ → Refreshed → Refreshed
refresh_keys page axis c [] r = r
refresh_keys page axis c (key ∷ keys) r =
    refresh_keys page axis c keys (refresh_waypoint page axis c key r)

-- Context.refresh of the context `i`: the flush is left to the next animation frame.
unfoldable pub refresh : Page → ℕ → World → World
refresh page i s =
    let t = handle_scroll page i s in
    elim (get_elem? t.contexts i) [
      | none ↦ t
      | some c ↦
          let start : Refreshed = record {
            table = t.waypoints;
            queued = record { groups = t.groups; triggered = [] };
          } in
          let across = refresh_keys page horizontal c (keys_of horizontal c) start in
          let r = refresh_keys page vertical c (keys_of vertical c) across in
          record t {
            waypoints = r.table;
            groups = r.queued.groups;
            frames = t.frames ++ flush_groups r.queued.triggered ∷ [];
          }
    ]
