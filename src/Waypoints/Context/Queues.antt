-- ===== src/Waypoints/Context/Queues.antt =====
-- Which waypoints handleScroll queues, for each group and direction.
use mathlib.Core.Path.{subst}
use mathlib.Core.List.{append-nil, append_assoc}
use study_tech.Base.{
  ℕ, List, [], ◌∷◌, ◌++◌, ◌≡◌, ◌≢◌, refl, sym, ◌∙◌, ap, arith, none, some, get_elem?, Bool, false,
  ◌&&◌, ◌==◌, ==_iff, if◌then◌else◌, Bool-cases, Option-cases, inl, inr,
}
use study_tech.Base.Int.{ℤ, ltb_ℤ}
use study_tech.Waypoints.State.{
  Axis, horizontal, vertical, Direction, Waypoint, Group, Context, World, Page,
}
use study_tech.Waypoints.Table.{get_elem?-modify_self, get_elem?-modify_ne}
use study_tech.Waypoints.Group.{queue_trigger, same_direction}
use study_tech.Waypoints.Context.{
  forward, backward, keys_of, old_scroll, new_scroll, crossed, Queued, queue_waypoint,
  scroll_waypoint, scroll_keys, scroll_axis, queued_by,
}

-- The waypoint `key` is of the group `g`, has a trigger point, and the scroll crosses that.
unfoldable pub hits : List Waypoint → ℤ → ℤ → ℕ → ℕ → Bool
hits table old new g key = elim (get_elem? table key) [
  | none ↦ false
  | some w ↦ elim w.trigger_point [ none ↦ false | some p ↦ crossed old new p && (w.group == g) ]
]

abbrev pub filter : (ℕ → Bool) → List ℕ → List ℕ
filter p [] = []
filter p (k ∷ ks) = if p k then k ∷ filter p ks else filter p ks

-- The group `g` is there, and its queues are those of `before` with `added` behind.
abbrev pub IsQueued : List Group → ℕ → Group → (Direction → List ℕ) → Type 0
IsQueued groups g before added =
    (after : Group) × (get_elem? groups g ≡ some after)
    × ((e : Direction) → after.queue e ≡ before.queue e ++ added e)

abbrev only : Direction → List ℕ → Direction → List ℕ
only d ks e = if same_direction e d then ks else []

module _ (table : List Waypoint) (old new : ℤ) (d : Direction) (g : ℕ) where
  unchanged :
      (q : Queued) (before : Group)
      → get_elem? q.groups g ≡ some before
      → IsQueued q.groups g before (only d [])
  unchanged q before h = (before, h, λ e. sym (none_added e))
    where
      none_added : (e : Direction) → before.queue e ++ only d [] e ≡ before.queue e
      none_added e = elim (Bool-cases (same_direction e d)) [
        | inl k ↦ rw k (append-nil (before.queue e))
        | inr k ↦ rw k (append-nil (before.queue e))
      ]

  queue_waypoint-IsQueued :
      (key : ℕ) (q : Queued) (before : Group)
      → get_elem? q.groups g ≡ some before
      → IsQueued (queue_waypoint key g d q).groups g before (only d (key ∷ []))
  unfolding queue_waypoint queue_trigger
  queue_waypoint-IsQueued key q before h = (
    queue_trigger key d before,
    get_elem?-modify_self g (queue_trigger key d) q.groups before h,
    λ e. elim (Bool-cases (same_direction e d)) [
      | inl k ↦ rw (queue_trigger, k) refl
      | inr k ↦ rw (queue_trigger, k) (sym (append-nil (before.queue e)))
    ],
  )

  scroll_waypoint-IsQueued :
      (key : ℕ) (q : Queued) (before : Group)
      → get_elem? q.groups g ≡ some before
      → IsQueued
          (scroll_waypoint table old new d key q).groups
          g
          before
          (only d (if hits table old new g key then key ∷ [] else []))
  unfolding scroll_waypoint hits queue_waypoint
  scroll_waypoint-IsQueued key q before h = elim (Option-cases (get_elem? table key)) [
    | inl e ↦ rw (e, scroll_waypoint, hits) (unchanged q before h)
    | inr (w, e) ↦ elim (Option-cases w.trigger_point) [
      | inl n ↦ rw (e, scroll_waypoint, hits, n) (unchanged q before h)
      | inr (p, n) ↦ elim (Bool-cases (crossed old new p)) [
        | inr c ↦ rw (e, scroll_waypoint, hits, n, c) (unchanged q before h)
        | inl c ↦ elim (Bool-cases (w.group == g)) [
          | inl same ↦
              rw (e, scroll_waypoint, hits, n, c, same)
                (subst
                  (λ x. IsQueued (queue_waypoint key x d q).groups g before (only d (key ∷ [])))
                  (sym ((==_iff w.group g).0 same)) (queue_waypoint-IsQueued key q before h))
          | inr other ↦
              rw (e, scroll_waypoint, hits, n, c, other) (elsewhere w.group (ne w.group other))
        ]
      ]
    ]
  ]
    where
      ne : (i : ℕ) → (i == g) ≡ false → g ≢ i
      ne i k = ground arith

      elsewhere : (i : ℕ) → g ≢ i → IsQueued (queue_waypoint key i d q).groups g before (only d [])
      elsewhere i k =
          let (after, at, same) = unchanged q before h in
          (after, get_elem?-modify_ne i g (queue_trigger key d) q.groups k ∙ at, same)

  only-append : (xs ys : List ℕ) (e : Direction) → only d xs e ++ only d ys e ≡ only d (xs ++ ys) e
  only-append xs ys e = elim (Bool-cases (same_direction e d)) [
    | inl k ↦ rw k refl
    | inr k ↦ rw k refl
  ]

  filter-step :
      (p : ℕ → Bool) (k : ℕ) (ks : List ℕ)
      → (if p k then k ∷ [] else []) ++ filter p ks ≡ filter p (k ∷ ks)
  filter-step p k ks = elim (Bool-cases (p k)) [ inl e ↦ rw e refl | inr e ↦ rw e refl ]

  -- The loop over the waypoints of an axis queues for the group, in the one direction, those of its
  -- waypoints that are crossed, in the order in which they are looped over, and no others.
  pub scroll_keys-IsQueued :
      (keys : List ℕ) (q : Queued) (before : Group)
      → get_elem? q.groups g ≡ some before
      → IsQueued
          (scroll_keys table old new d keys q).groups
          g
          before
          (only d (filter (hits table old new g) keys))
  unfolding scroll_keys
  scroll_keys-IsQueued [] q before h = unchanged q before h
  scroll_keys-IsQueued (key ∷ keys) q before h =
      let (mid, at, first) = scroll_waypoint-IsQueued key q before h in
      let (after, there, second) =
        scroll_keys-IsQueued keys (scroll_waypoint table old new d key q) mid at in
      let p = hits table old new g in
      (
        after,
        there,
        λ e.
            second e
            ∙ ap (λ xs. xs ++ only d (filter p keys) e) (first e)
            ∙ append_assoc (before.queue e) _ _
            ∙ ap (λ xs. before.queue e ++ xs)
                (only-append (if p key then key ∷ [] else []) (filter p keys) e
                  ∙ ap (λ xs. only d xs e) (filter-step p key keys)),
      )

-- What an axis of a context queues for a group: its waypoints that are crossed from the position the
-- context has seen to the one of the page, in the direction of the scroll.
abbrev pub crossed_keys : World → Page → Axis → Context → ℕ → Direction → List ℕ
crossed_keys s page axis c g e =
    let old = old_scroll axis c in
    let new = new_scroll page axis c in
    only (if ltb_ℤ old new then forward axis else backward axis)
      (filter (hits s.waypoints old new g) (keys_of axis c)) e

-- handleScroll puts behind the queues of each group exactly its waypoints whose trigger points the
-- scroll crosses: the horizontal ones in the direction of that axis, then the vertical ones.
pub queued_by-IsQueued :
    (page : Page) (c : Context) (s : World) (g : ℕ) (before : Group)
    → get_elem? s.groups g ≡ some before
    → IsQueued
        (queued_by page c s).groups
        g
        before
        (λ e. crossed_keys s page horizontal c g e ++ crossed_keys s page vertical c g e)
unfolding queued_by scroll_axis
queued_by-IsQueued page c s g before h =
    let (mid, at, first) =
      scroll_keys-IsQueued s.waypoints _ _ _ g (keys_of horizontal c) _ before h in
    let (after, there, second) =
      scroll_keys-IsQueued s.waypoints _ _ _ g (keys_of vertical c) _ mid at in
    (
      after,
      there,
      λ e.
          second e
          ∙ ap (λ xs. xs ++ crossed_keys s page vertical c g e) (first e)
          ∙ append_assoc (before.queue e) _ _,
    )
