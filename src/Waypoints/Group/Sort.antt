-- ===== src/Waypoints/Group/Sort.antt =====
-- The stable sort that Group.sort and Group.flushTriggers use.
use mathlib.Core.List.{Perm}
use mathlib.Core.List.Perm
use study_tech.Base.{List, [], ◌∷◌, ◌≡◌, Bool, true, false, All, Bool-cases, inl, inr}
use study_tech.Waypoints.Group.{insert_by, sort_by}

module _ {ℓ} {A : Type ℓ} (before : A → A → Bool) where
  pub insert_by-Perm : (x : A) (xs : List A) → Perm (insert_by before x xs) (x ∷ xs)
  unfolding insert_by
  insert_by-Perm x [] = Perm.refl _
  insert_by-Perm x (y ∷ ys) = elim (Bool-cases (before x y)) [
    | inl e ↦ rw (insert_by, e) (Perm.refl _)
    | inr e ↦ rw (insert_by, e) (Perm.trans (Perm.cons y (insert_by-Perm x ys)) (Perm.swap x y ys))
  ]

  pub sort_by-Perm : (xs : List A) → Perm (sort_by before xs) xs
  unfolding sort_by
  sort_by-Perm [] = Perm.refl _
  sort_by-Perm (x ∷ xs) =
      Perm.trans (insert_by-Perm x (sort_by before xs)) (Perm.cons x (sort_by-Perm xs))

module _ {A : Type 0} (before : A → A → Bool) where
  -- Each element may stay in front of all that follow it.
  abbrev pub IsSorted : List A → Type 0
  IsSorted [] = Unit
  IsSorted (x ∷ xs) = All (λ y. before x y ≡ true) xs × IsSorted xs

  -- A test that orders any two elements, and is transitive.
  abbrev pub IsTotalPreorder : Type 0
  IsTotalPreorder =
      ((x y : A) → before x y ≡ false → before y x ≡ true)
      × ((x y z : A) → before x y ≡ true → before y z ≡ true → before x z ≡ true)

  insert_by-All :
      (P : A → Type 0) (x : A) (xs : List A) → P x → All P xs → All P (insert_by before x xs)
  unfolding insert_by
  insert_by-All P x [] h k = (h, tt)
  insert_by-All P x (y ∷ ys) h k = elim (Bool-cases (before x y)) [
    | inl e ↦ rw (insert_by, e) (h, k)
    | inr e ↦ rw (insert_by, e) (k.0, insert_by-All P x ys h k.1)
  ]

  module _ (order : IsTotalPreorder) where
    before-All :
        (x y : A) (ys : List A)
        → before x y ≡ true
        → All (λ z. before y z ≡ true) ys
        → All (λ z. before x z ≡ true) ys
    before-All x y [] h k = tt
    before-All x y (z ∷ ys) h k = (order.1 x y z h k.0, before-All x y ys h k.1)

    insert_by-IsSorted : (x : A) (xs : List A) → IsSorted xs → IsSorted (insert_by before x xs)
    unfolding insert_by
    insert_by-IsSorted x [] h = (tt, tt)
    insert_by-IsSorted x (y ∷ ys) h = elim (Bool-cases (before x y)) [
      | inl e ↦ rw (insert_by, e) ((e, before-All x y ys e h.0), h)
      | inr e ↦
          rw (insert_by, e)
            (
              insert_by-All (λ z. before y z ≡ true) x ys (order.0 x y e) h.0,
              insert_by-IsSorted x ys h.1,
            )
    ]

    pub sort_by-IsSorted : (xs : List A) → IsSorted (sort_by before xs)
    unfolding sort_by
    sort_by-IsSorted [] = tt
    sort_by-IsSorted (x ∷ xs) = insert_by-IsSorted x (sort_by before xs) (sort_by-IsSorted xs)

  pub sort_by-All : (P : A → Type 0) (xs : List A) → All P xs → All P (sort_by before xs)
  unfolding sort_by
  sort_by-All P [] h = tt
  sort_by-All P (x ∷ xs) h = insert_by-All P x (sort_by before xs) h.0 (sort_by-All P xs h.1)
