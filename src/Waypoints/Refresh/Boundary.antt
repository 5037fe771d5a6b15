-- ===== src/Waypoints/Refresh/Boundary.antt =====
-- What Context.refresh takes for a crossing of the scroll position, against what handleScroll does.
use study_tech.Base.{
  if◌then◌else◌, ◌≡◌, arith, Option, none, some, Bool, true, false, ◌&&◌, ◌⊎◌, ◌↔◌,
}
use study_tech.Base.Int.{ltb_ℤ, ℤ, leb_ℤ, ◌<ℤ◌}
use study_tech.Waypoints.State.{Axis, Direction}
use study_tech.Waypoints.Context.{crossed, forward, backward}
use study_tech.Waypoints.Refresh.{moved}

-- handleScroll counts a trigger point as passed when the scroll position has reached it.
abbrev pub passed : ℤ → ℤ → Bool
passed point scroll = leb_ℤ point scroll

-- The direction in which a waypoint goes from `before` to `after`.
abbrev pub change : Axis → Bool → Bool → Option Direction
change axis false true = some (forward axis)
change axis true false = some (backward axis)
change axis _ _ = none

-- Off the scroll position itself.
abbrev pub IsOff : ℤ → ℤ → Type 0
IsOff p scroll = (p <ℤ scroll) ⊎ (scroll <ℤ p)

-- Where the old and the new trigger point differ from the scroll position, a refresh triggers
-- exactly the waypoint that it takes from passed to not passed, or back, in that direction; with no
-- old trigger point, the waypoint counts as not passed before.
pub moved-eq-change :
    (axis : Axis) (old new scroll : ℤ)
    → IsOff old scroll
    → IsOff new scroll
    → (moved axis (some old) new scroll ≡ change axis (passed old scroll) (passed new scroll))
      × (moved axis none new scroll ≡ change axis false (passed new scroll))
unfolding moved
moved-eq-change axis old new scroll h k = ground arith

-- The trigger point is the scroll position itself.
abbrev pub is_at : ℤ → ℤ → Bool
is_at p scroll = leb_ℤ p scroll && leb_ℤ scroll p

-- A refresh of a waypoint that had a trigger point agrees with handleScroll on whether and where to
-- the waypoint crosses exactly if both the old and the new trigger point are at the scroll position,
-- or neither is.
pub moved-eq-change_iff :
    (axis : Axis) (old new scroll : ℤ)
    → (moved axis (some old) new scroll ≡ change axis (passed old scroll) (passed new scroll))
      ↔ (is_at old scroll ≡ is_at new scroll)
unfolding moved
moved-eq-change_iff axis old new scroll = (λ h. ground arith, λ h. ground arith)

-- A scroll from `old` to `new` queues a waypoint exactly if it goes from not passed to passed or back,
-- and in that direction.
pub crossed-eq-change :
    (axis : Axis) (old new point : ℤ)
    → (if crossed old new point
        then some (if ltb_ℤ old new then forward axis else backward axis)
        else none)
      ≡ change axis (passed point old) (passed point new)
unfolding crossed
crossed-eq-change axis old new point = ground arith
