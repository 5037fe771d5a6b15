-- ===== src/Waypoints/Lifecycle/Throttle/Asked.antt =====
-- A frame that is asked for, and one whose callback has run.
use mathlib.Core.Path.{subst}
use study_tech.Base.{
  ℕ, ◌≡◌, ◌≢◌, refl, sym, ◌∙◌, ap, arith, [], ◌∷◌, ◌++◌, some, get_elem?, true, false, ◌⊎◌, inl,
  inr,
}
use study_tech.Waypoints.State.{Context, Frame, World, modify}
use study_tech.Waypoints.Lifecycle.Throttle.{
  Kind, flag, asks, bit, waiting, pending, IsThrottled, waiting-append, pending-modify_same,
  pending-modify_ne, pending-modify_clear, pending-modify_set, pending_at, pending_le,
}
use study_tech.Waypoints.Lifecycle.Throttle.Keeps.{Keeps}

eq-cases : (i j : ℕ) → (i ≡ j) ⊎ (i ≢ j)
eq-cases i j = ground arith

module _ (k : Kind) (f : Context → Context) (frame : Frame) (i : ℕ) where
  -- The frame is asked for by the handler of this kind and of the context `i` alone, and the change
  -- to the context leaves the other flag.
  abbrev pub IsOf : Type 0
  IsOf =
      (asks k i frame ≡ true)
      × ((j : ℕ) → j ≢ i → asks k j frame ≡ false)
      × ((l : Kind)
          → (l ≡ k)
            ⊎ (((j : ℕ) → asks l j frame ≡ false) × ((d : Context) → flag l (f d) ≡ flag l d)))

  module _ (is : IsOf) (s : World) where
    asked :
        (c : Context)
        → ((d : Context) → flag k (f d) ≡ true)
        → get_elem? s.contexts i ≡ some c
        → flag k c ≡ false
        → IsThrottled s
        → (j : ℕ) → waiting k j (s.frames ++ frame ∷ []) ≡ pending k j (modify i f s.contexts)
    asked c set e off h j = elim (eq-cases j i) [
      | inl same ↦
          subst (λ x. waiting k x (s.frames ++ frame ∷ []) ≡ pending k x (modify i f s.contexts))
            (sym same)
            (waiting-append k i s.frames frame
              ∙ (rw (is.0, h k i, pending_at k i s.contexts c e, off) refl)
              ∙ sym (pending-modify_set k f i s.contexts c set e))
      | inr other ↦
          waiting-append k j s.frames frame
          ∙ (rw (is.1 j other, h k j, pending-modify_ne k f j i s.contexts other) (omega arith))
    ]

    pub asked-IsThrottled :
        (c : Context)
        → ((d : Context) → flag k (f d) ≡ true)
        → get_elem? s.contexts i ≡ some c
        → flag k c ≡ false
        → IsThrottled s
        → IsThrottled
            (record s { contexts = modify i f s.contexts; frames = s.frames ++ frame ∷ [] })
    asked-IsThrottled c set e off h l j = elim (is.2 l) [
      | inl same ↦
          subst (λ m. waiting m j (s.frames ++ frame ∷ []) ≡ pending m j (modify i f s.contexts))
            (sym same) (asked c set e off h j)
      | inr (never, keep) ↦
          waiting-append l j s.frames frame
          ∙ (rw (never j, h l j, pending-modify_same l f j i s.contexts keep) (omega arith))
    ]

    -- The frame has been taken from those that wait, and `t` is the world when its callback has done
    -- all but reset the flag.
    module _ (t : World) (keeps : Keeps s t) (clear : (d : Context) → flag k (f d) ≡ false) where
      ran :
          IsThrottled (record s { frames = frame ∷ s.frames })
          → (j : ℕ) → waiting k j t.frames ≡ pending k j (modify i f t.contexts)
      ran h j = elim (eq-cases j i) [
        | inl same ↦
            subst (λ x. waiting k x t.frames ≡ pending k x (modify i f t.contexts)) (sym same)
              (rw (pending-modify_clear k f i t.contexts clear)
                (omega (arith, (keeps k i).0, ap bit is.0, h k i, pending_le k i s.contexts)))
        | inr other ↦
            rw (pending-modify_ne k f j i t.contexts other)
              (omega (arith, (keeps k j).0, (keeps k j).1, ap bit (is.1 j other), h k j))
      ]

      pub ran-IsThrottled :
          IsThrottled (record s { frames = frame ∷ s.frames })
          → IsThrottled (record t { contexts = modify i f t.contexts })
      ran-IsThrottled h l j = elim (is.2 l) [
        | inl same ↦
            subst (λ m. waiting m j t.frames ≡ pending m j (modify i f t.contexts)) (sym same)
              (ran h j)
        | inr (never, keep) ↦
            rw (pending-modify_same l f j i t.contexts keep)
              (omega (arith, (keeps l j).0, (keeps l j).1, ap bit (never j), h l j))
      ]
