-- ===== src/Waypoints/Group/Flush.antt =====
-- What flushing a group calls: Group.flushTriggers.
use mathlib.Core.List.{Perm, cons≢nil}
use mathlib.Core.List.Perm
use mathlib.Core.Path.{subst}
use study_tech.Base.{
  ℕ, List, [], ◌∷◌, ◌++◌, ◌≡◌, refl, sym, ◌∙◌, ap, Bool, true, false, All, map, arith, some,
  get_elem?,
}
use study_tech.Base.Int.{ℤ, ◌≤ℤ◌}
use study_tech.Waypoints.State.{Direction, up, down, left, right, Waypoint, Group, Event}
use study_tech.Waypoints.Group.{point, sort_by, order, trigger, is_continuous, fire, fire_queue}
use study_tech.Waypoints.Group.Sort.{
  IsSorted, IsTotalPreorder, sort_by-Perm, sort_by-IsSorted, sort_by-All,
}

module _ (table : List Waypoint) where
  pub order-IsTotalPreorder : (d : Direction) → IsTotalPreorder (order table d)
  unfolding order
  order-IsTotalPreorder up = (λ x y h. ground arith, λ x y z h k. ground arith)
  order-IsTotalPreorder down = (λ x y h. ground arith, λ x y z h k. ground arith)
  order-IsTotalPreorder left = (λ x y h. ground arith, λ x y z h k. ground arith)
  order-IsTotalPreorder right = (λ x y h. ground arith, λ x y z h k. ground arith)

  -- The waypoint `key` is there, and its trigger point is `p`.
  abbrev pub HasPoint : ℕ → ℤ → Type 0
  HasPoint key p = (w : Waypoint) × (get_elem? table key ≡ some w) × (w.trigger_point ≡ some p)

  -- The waypoint is there, has a trigger point, is enabled, and has the given `continuous`.
  abbrev pub IsOn : Bool → ℕ → Type 0
  IsOn c key =
      (w : Waypoint) × (p : ℤ) × (get_elem? table key ≡ some w)
      × (w.trigger_point ≡ some p)
      × (w.enabled ≡ true)
      × (w.continuous ≡ c)

  trigger_on :
      (c : Bool) (d : Direction) (key : ℕ)
      → IsOn c key
      → (trigger table key d ≡ record { key = key; direction = d } ∷ [])
        × (is_continuous table key ≡ c)
  unfolding trigger is_continuous
  trigger_on c d key (w, p, e, at, on, k) = rw (trigger, is_continuous, e, on, k) (refl, refl)

  -- The trigger point `q` lies as far on in the direction as `p`, or further: upwards and to the left
  -- that is a smaller one, downwards and to the right a greater one.
  abbrev pub IsOnward : Direction → ℤ → ℤ → Type 0
  IsOnward up p q = q ≤ℤ p
  IsOnward down p q = p ≤ℤ q
  IsOnward left p q = q ≤ℤ p
  IsOnward right p q = p ≤ℤ q

  -- The trigger point of the waypoint `k` lies as far on as that of `j`, or further.
  abbrev pub IsBehind : Direction → ℕ → ℕ → Type 0
  IsBehind d j k = (p : ℤ) × (q : ℤ) × HasPoint j p × HasPoint k q × IsOnward d p q

  -- Each waypoint is behind all that follow it.
  abbrev pub AreOnward : Direction → List ℕ → Type 0
  AreOnward d [] = Unit
  AreOnward d (k ∷ ks) = All (λ j. IsBehind d k j) ks × AreOnward d ks

  point_at : (key : ℕ) (p : ℤ) → HasPoint key p → point table key ≡ p
  unfolding point
  point_at key p (w, e, at) = rw (point, e, at) refl

  IsOnward-order :
      (d : Direction) (j k : ℕ)
      → order table d j k ≡ true
      → IsOnward d (point table j) (point table k)
  unfolding order
  IsOnward-order up j k h = ground arith
  IsOnward-order down j k h = ground arith
  IsOnward-order left j k h = ground arith
  IsOnward-order right j k h = ground arith

  IsBehind-order :
      (c : Bool) (d : Direction) (j k : ℕ)
      → IsOn c j
      → IsOn c k
      → order table d j k ≡ true
      → IsBehind d j k
  IsBehind-order c d j k (v, p, ev, vp, _, _) (w, q, ew, wq, _, _) h =
      let m : HasPoint j p = (v, ev, vp) in
      let n : HasPoint k q = (w, ew, wq) in
      (p, q, m, n, (rw (point_at j p m, point_at k q n) at (IsOnward-order d j k h)))

  All-IsBehind :
      (c : Bool) (d : Direction) (j : ℕ) (ks : List ℕ)
      → IsOn c j
      → All (IsOn c) ks
      → All (λ k. order table d j k ≡ true) ks
      → All (λ k. IsBehind d j k) ks
  All-IsBehind c d j [] on h t = tt
  All-IsBehind c d j (k ∷ ks) on h t =
      (IsBehind-order c d j k on h.0 t.0, All-IsBehind c d j ks on h.1 t.1)

  IsSorted-AreOnward :
      (c : Bool) (d : Direction) (ks : List ℕ)
      → All (IsOn c) ks
      → IsSorted (order table d) ks
      → AreOnward d ks
  IsSorted-AreOnward c d [] h s = tt
  IsSorted-AreOnward c d (k ∷ ks) h s =
      (All-IsBehind c d k ks h.0 h.1 s.0, IsSorted-AreOnward c d ks h.1 s.1)

  -- All are behind the last.
  AreOnward-last :
      (d : Direction) (xs : List ℕ) (x : ℕ)
      → AreOnward d (xs ++ x ∷ [])
      → All (λ y. IsBehind d y x) xs
  AreOnward-last d [] x h = tt
  AreOnward-last d (y ∷ ys) x h = (All_last ys h.0, AreOnward-last d ys x h.1)
    where
      All_last : (zs : List ℕ) → All (λ z. IsBehind d y z) (zs ++ x ∷ []) → IsBehind d y x
      All_last [] k = k.0
      All_last (z ∷ zs) k = All_last zs k.1

  module _ (d : Direction) where
    abbrev pub event : ℕ → Event
    event key = record { key = key; direction = d }

    fire_continuous : (ks : List ℕ) → All (IsOn true) ks → fire table d ks ≡ map event ks
    unfolding fire
    fire_continuous [] h = refl
    fire_continuous (k ∷ []) h = (trigger_on true d k h.0).0
    fire_continuous (k ∷ l ∷ ks) h =
        let (t, c) = trigger_on true d k h.0 in
        rw (fire, t, c) (ap (λ es. event k ∷ es) (fire_continuous (l ∷ ks) h.1))

    -- Where all waypoints queued in a direction have a trigger point and are enabled and continuous,
    -- the flush calls each of them as often as it was queued, in the order of the trigger points in
    -- that direction: upwards and to the left the trigger points descend, downwards and to the right
    -- they ascend.
    pub fire_queue-AreOnward :
        (g : Group)
        → All (IsOn true) (g.queue d)
        → (ks : List ℕ) × (fire_queue table d g ≡ map event ks)
          × Perm ks (g.queue d)
          × AreOnward d ks
    unfolding fire_queue
    fire_queue-AreOnward g h =
        let before = order table d in
        let on = sort_by-All before (IsOn true) (g.queue d) h in
        (
          sort_by before (g.queue d),
          fire_continuous _ on,
          sort_by-Perm before (g.queue d),
          IsSorted-AreOnward true d _ on
              (sort_by-IsSorted before (order-IsTotalPreorder d) (g.queue d)),
        )

    fire_last :
        (k : ℕ) (ks : List ℕ)
        → All (IsOn false) (k ∷ ks)
        → (last : ℕ) × (js : List ℕ) × (k ∷ ks ≡ js ++ last ∷ [])
          × (fire table d (k ∷ ks) ≡ event last ∷ [])
    unfolding fire
    fire_last k [] h = (k, [], refl, (trigger_on false d k h.0).0)
    fire_last k (l ∷ ks) h =
        let (last, js, e, f) = fire_last l ks h.1 in
        (last, k ∷ js, ap (λ xs. k ∷ xs) e, rw (fire, (trigger_on false d k h.0).1) f)

    -- Where a queue is not empty and all its waypoints have a trigger point and are enabled, but none
    -- is continuous, the flush calls exactly one of them: one that all the others are behind, which
    -- means that its trigger point is the smallest upwards and to the left, and the greatest downwards
    -- and to the right.
    pub fire_queue_last :
        (g : Group) (k : ℕ) (queued : List ℕ)
        → g.queue d ≡ k ∷ queued
        → All (IsOn false) (g.queue d)
        → (last : ℕ) × (js : List ℕ) × (fire_queue table d g ≡ event last ∷ [])
          × Perm (js ++ last ∷ []) (g.queue d)
          × All (λ j. IsBehind d j last) js
    unfolding fire_queue
    fire_queue_last g k queued e h =
        let before = order table d in
        let on = sort_by-All before (IsOn false) (g.queue d) h in
        of_sorted (sort_by before (g.queue d)) (sort_by-Perm before (g.queue d)) on (
          IsSorted-AreOnward false d _ on
            (sort_by-IsSorted before (order-IsTotalPreorder d) (g.queue d)))
      where
        of_sorted :
            (ks : List ℕ)
            → Perm ks (g.queue d)
            → All (IsOn false) ks
            → AreOnward d ks
            → (last : ℕ) × (js : List ℕ) × (fire table d ks ≡ event last ∷ [])
              × Perm (js ++ last ∷ []) (g.queue d)
              × All (λ j. IsBehind d j last) js
        of_sorted [] perm on sorted = absurd (cons≢nil (sym (Perm.nil-eq perm ∙ e)))
        of_sorted (x ∷ xs) perm on sorted =
            let (last, js, same, f) = fire_last x xs on in
            (
              last,
              js,
              f,
              subst (λ zs. Perm zs (g.queue d)) same perm,
              AreOnward-last d js last (subst (AreOnward d) same sorted),
            )
