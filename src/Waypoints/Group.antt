-- ===== src/Waypoints/Group.antt =====
-- Waypoint.Group: the queues of waypoints to trigger, and the order of a group's waypoints.
pub mod Sort
pub mod Flush
use study_tech.Base.{
  ℕ, zero, suc, ◌+◌, ◌-◌, List, [], ◌∷◌, ◌++◌, Option, none, some, get_elem?, length, Bool, true,
  false, ◌||◌, ◌==◌, if◌then◌else◌,
}
use study_tech.Base.Int.{ℤ, pos, leb_ℤ}
use study_tech.Waypoints.State.{Axis, Direction, up, down, left, right, Waypoint, Group, Event}

abbrev pub no_queues : Direction → List ℕ
no_queues d = []

-- The constructor.
abbrev pub new_group : ℕ → Axis → Group
new_group name axis = record { name = name; axis = axis; waypoints = []; queue = no_queues }

unfoldable pub same_direction : Direction → Direction → Bool
same_direction up up = true
same_direction down down = true
same_direction left left = true
same_direction right right = true
same_direction _ _ = false

-- Group.add
unfoldable pub add : ℕ → Group → Group
add key g = record g { waypoints = g.waypoints ++ key ∷ [] }

-- `splice` at the first index of `key`, as Group.remove does where `inArray` finds it.
unfoldable pub erase_key : ℕ → List ℕ → List ℕ
erase_key key [] = []
erase_key key (k ∷ ks) = if k == key then ks else k ∷ erase_key key ks

-- Group.remove
unfoldable pub remove : ℕ → Group → Group
remove key g = record g { waypoints = erase_key key g.waypoints }

-- Group.queueTrigger
unfoldable pub queue_trigger : ℕ → Direction → Group → Group
queue_trigger key direction g = record g {
  queue = λ d. if same_direction d direction then g.queue d ++ key ∷ [] else g.queue d;
}

-- Group.clearTriggerQueues
abbrev pub clear_trigger_queues : Group → Group
clear_trigger_queues g = record g { queue = no_queues }

-- `Array.prototype.sort`, which is stable; `before x y` says that `x` may stay in front of `y`.
unfoldable pub insert_by {ℓ} : {A : Type ℓ} → (A → A → Bool) → A → List A → List A
insert_by before x [] = x ∷ []
insert_by before x (y ∷ ys) = if before x y then x ∷ y ∷ ys else y ∷ insert_by before x ys

unfoldable pub sort_by {ℓ} : {A : Type ℓ} → (A → A → Bool) → List A → List A
sort_by before [] = []
sort_by before (x ∷ xs) = insert_by before x (sort_by before xs)

module _ (table : List Waypoint) where
  -- A subtraction reads `null` as 0.
  unfoldable pub point : ℕ → ℤ
  point key = elim (get_elem? table key) [
    | none ↦ pos 0
    | some w ↦ elim w.trigger_point [ none ↦ pos 0 | some p ↦ p ]
  ]

  -- byTriggerPoint, byReverseTriggerPoint
  abbrev pub by_trigger_point : ℕ → ℕ → Bool
  by_trigger_point a b = leb_ℤ (point a) (point b)

  abbrev pub by_reverse_trigger_point : ℕ → ℕ → Bool
  by_reverse_trigger_point a b = leb_ℤ (point b) (point a)

  -- Waypoint.trigger: the handler is called if the waypoint is enabled.
  unfoldable pub trigger : ℕ → Direction → List Event
  trigger key direction = elim (get_elem? table key) [
    | none ↦ []
    | some w ↦ if w.enabled then record { key = key; direction = direction } ∷ [] else []
  ]

  unfoldable pub is_continuous : ℕ → Bool
  is_continuous key = elim (get_elem? table key) [ none ↦ false | some w ↦ w.continuous ]

  -- The loop over a sorted queue: the last waypoint, and those with `continuous`.
  unfoldable pub fire : Direction → List ℕ → List Event
  fire direction [] = []
  fire direction (k ∷ []) = trigger k direction
  fire direction (k ∷ l ∷ ks) =
      (if is_continuous k then trigger k direction else []) ++ fire direction (l ∷ ks)

  unfoldable pub order : Direction → ℕ → ℕ → Bool
  order up = by_reverse_trigger_point
  order left = by_reverse_trigger_point
  order _ = by_trigger_point

  unfoldable pub fire_queue : Direction → Group → List Event
  fire_queue direction g = fire direction (sort_by (order direction) (g.queue direction))

  -- The calls that Group.flushTriggers makes; it then clears the queues.
  unfoldable pub flush_events : Group → List Event
  flush_events g =
      fire_queue up g ++ (fire_queue down g ++ (fire_queue left g ++ fire_queue right g))

  -- Group.next and Group.previous; the group's array is sorted in place.
  unfoldable pub sort_group : Group → Group
  sort_group g = record g { waypoints = sort_by by_trigger_point g.waypoints }

  -- `inArray`, where `none` is -1.
  unfoldable pub index_of : ℕ → List ℕ → Option ℕ
  index_of key [] = none
  index_of key (k ∷ ks) =
      if k == key then some 0 else (elim (index_of key ks) [ none ↦ none | some i ↦ some (suc i) ])

  -- At a waypoint that is not in the array the index is -1, and the next one is the first.
  unfoldable pub next : ℕ → Group → Option ℕ
  next key g =
      let sorted = (sort_group g).waypoints in
      elim (index_of key sorted) [ none ↦ get_elem? sorted 0 | some i ↦ get_elem? sorted (suc i) ]

  unfoldable pub previous : ℕ → Group → Option ℕ
  previous key g =
      let sorted = (sort_group g).waypoints in
      elim (index_of key sorted) [
        | none ↦ none
        | some i ↦ elim i [ zero ↦ none | suc j ↦ get_elem? sorted j ]
      ]

-- Group.first and Group.last
unfoldable pub first : Group → Option ℕ
first g = get_elem? g.waypoints 0

unfoldable pub last : Group → Option ℕ
last g = get_elem? g.waypoints (length g.waypoints - 1)
