-- ===== src/Waypoints/Lifecycle/Throttle.antt =====
-- The frames that the throttled scroll and resize handlers ask for.
pub mod Keeps
pub mod Asked
pub mod Steps
use study_tech.Base.{
  ℕ, zero, suc, ◌+◌, ◌≡◌, ◌≢◌, ◌<◌, refl, sym, ◌∙◌, ap, arith, List, [], ◌∷◌, ◌++◌, Option, some,
  get_elem?, Bool, true, false, ◌&&◌, not, ◌==◌, if◌then◌else◌, Bool-cases, ◌⊎◌, inl, inr,
}
use study_tech.Waypoints.State.{
  Context, Frame, scroll_handler, resize_handler, flush_groups, World, modify,
}

pub data Kind : Type 0 where
  scroll resize : Kind

abbrev pub flag : Kind → Context → Bool
flag scroll c = c.did_scroll
flag resize c = c.did_resize

pub flag_same :
    (k : Kind) (c d : Context)
    → c.did_scroll ≡ d.did_scroll
    → c.did_resize ≡ d.did_resize
    → flag k c ≡ flag k d
flag_same scroll c d e f = e
flag_same resize c d e f = f

-- The frame is the one that the handler of this kind asks for, for the context `i`.
abbrev pub asks : Kind → ℕ → Frame → Bool
asks scroll i (scroll_handler j) = j == i
asks resize i (resize_handler j) = j == i
asks _ i _ = false

abbrev pub bit : Bool → ℕ
bit b = if b then 1 else 0

-- How many frames of this kind wait for the context `i`.
abbrev pub waiting : Kind → ℕ → List Frame → ℕ
waiting k i [] = 0
waiting k i (f ∷ fs) = bit (asks k i f) + waiting k i fs

-- 1 where the flag of the context `i` is set.
abbrev pub pending : Kind → ℕ → List Context → ℕ
pending k i [] = 0
pending k zero (c ∷ cs) = bit (flag k c)
pending k (suc i) (c ∷ cs) = pending k i cs

-- One frame waits for each flag that is set, and none where it is not.
abbrev pub IsThrottled : World → Type 0
IsThrottled s = (k : Kind) (i : ℕ) → waiting k i s.frames ≡ pending k i s.contexts

pub waiting-append :
    (k : Kind) (i : ℕ) (fs : List Frame) (f : Frame)
    → waiting k i (fs ++ f ∷ []) ≡ waiting k i fs + bit (asks k i f)
waiting-append k i [] f = omega arith
waiting-append k i (g ∷ fs) f = omega (arith, waiting-append k i fs f)

pub pending-append :
    (k : Kind) (i : ℕ) (cs : List Context) (c : Context)
    → flag k c ≡ false
    → pending k i (cs ++ c ∷ []) ≡ pending k i cs
pending-append k zero [] c h = rw h refl
pending-append k (suc i) [] c h = refl
pending-append k zero (d ∷ cs) c h = refl
pending-append k (suc i) (d ∷ cs) c h = pending-append k i cs c h

module _ (k : Kind) (f : Context → Context) where
  pub pending-modify_same :
      (i j : ℕ) (cs : List Context)
      → ((c : Context) → flag k (f c) ≡ flag k c)
      → pending k i (modify j f cs) ≡ pending k i cs
  unfolding modify
  pending-modify_same i j [] h = refl
  pending-modify_same zero zero (c ∷ cs) h = ap bit (h c)
  pending-modify_same zero (suc j) (c ∷ cs) h = refl
  pending-modify_same (suc i) zero (c ∷ cs) h = refl
  pending-modify_same (suc i) (suc j) (c ∷ cs) h = pending-modify_same i j cs h

  pub pending-modify_ne :
      (i j : ℕ) (cs : List Context) → i ≢ j → pending k i (modify j f cs) ≡ pending k i cs
  unfolding modify
  pending-modify_ne i j [] h = refl
  pending-modify_ne zero zero (c ∷ cs) h = absurd (h refl)
  pending-modify_ne zero (suc j) (c ∷ cs) h = refl
  pending-modify_ne (suc i) zero (c ∷ cs) h = refl
  pending-modify_ne (suc i) (suc j) (c ∷ cs) h = pending-modify_ne i j cs (λ e. h (ap suc e))

  pub pending-modify_clear :
      (i : ℕ) (cs : List Context)
      → ((c : Context) → flag k (f c) ≡ false)
      → pending k i (modify i f cs) ≡ 0
  unfolding modify
  pending-modify_clear i [] h = refl
  pending-modify_clear zero (c ∷ cs) h = ap bit (h c)
  pending-modify_clear (suc i) (c ∷ cs) h = pending-modify_clear i cs h

  pub pending-modify_set :
      (i : ℕ) (cs : List Context) (c : Context)
      → ((d : Context) → flag k (f d) ≡ true)
      → get_elem? cs i ≡ some c
      → pending k i (modify i f cs) ≡ 1
  unfolding modify
  pending-modify_set i [] c h e = cc
  pending-modify_set zero (d ∷ cs) c h e = ap bit (h d)
  pending-modify_set (suc i) (d ∷ cs) c h e = pending-modify_set i cs c h e

pub pending_at :
    (k : Kind) (i : ℕ) (cs : List Context) (c : Context)
    → get_elem? cs i ≡ some c
    → pending k i cs ≡ bit (flag k c)
pending_at k i [] c e = cc
pending_at k zero (d ∷ cs) c e = cc
pending_at k (suc i) (d ∷ cs) c e = pending_at k i cs c e

pub pending_le : (k : Kind) (i : ℕ) (cs : List Context) → pending k i cs < 2
pending_le k i [] = omega arith
pending_le k zero (c ∷ cs) = ground arith
pending_le k (suc i) (c ∷ cs) = pending_le k i cs

pub waiting_flush :
    (k : Kind) (i : ℕ) (fs : List Frame) (gs : List ℕ)
    → waiting k i (fs ++ flush_groups gs ∷ []) ≡ waiting k i fs
waiting_flush scroll i fs gs = omega (arith, waiting-append scroll i fs (flush_groups gs))
waiting_flush resize i fs gs = omega (arith, waiting-append resize i fs (flush_groups gs))
