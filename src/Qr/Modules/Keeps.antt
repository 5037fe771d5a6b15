-- ===== src/Qr/Modules/Keeps.antt =====
-- Steps that set modules inside of the square, and set back none.
use study_tech.Base.{
  ℕ, zero, suc, ◌≤◌, ◌<◌, ◌≡◌, refl, sym, arith, ◌⊎◌, inl, inr, Bool, true, false, ◌==◌, ◌&&◌,
  if◌then◌else◌, List, [], ◌∷◌, All, Bool-cases, ==_iff,
}
use study_tech.Qr.Modules.{Modules, set_module, is_unset, for_below, for_each}

-- From `m` on, `n` is the number of rows and columns.
pub record Keeps (n : ℕ) (m after : Modules) : Type 0 where
  pub grows : (i j : ℕ) → is_unset (m i j) ≡ false → is_unset (after i j) ≡ false
  pub stays : (i j : ℕ) → (n ≤ i) ⊎ (n ≤ j) → after i j ≡ m i j

pub Keeps-refl : (n : ℕ) (m : Modules) → Keeps n m m
Keeps-refl n m = record { grows = λ i j h. h; stays = λ i j h. refl }

pub Keeps-trans : {n : ℕ} {a b c : Modules} → Keeps n a b → Keeps n b c → Keeps n a c
Keeps-trans p q = record {
  grows = λ i j h. q.grows i j (p.grows i j h);
  stays = λ i j h. rw (q.stays i j h) (p.stays i j h);
}

pub if-Keeps :
    {n : ℕ} {m a b : Modules} (c : Bool)
    → (c ≡ true → Keeps n m a)
    → (c ≡ false → Keeps n m b)
    → Keeps n m (if c then a else b)
if-Keeps true p q = p refl
if-Keeps false p q = q refl

set_module-grows :
    (r c : ℕ) (v : Bool) (m : Modules) (i j : ℕ)
    → is_unset (m i j) ≡ false
    → is_unset (set_module r c v m i j) ≡ false
unfolding set_module
set_module-grows r c v m i j h = elim (Bool-cases ((i == r) && (j == c))) [
  | inl e ↦ rw e refl
  | inr e ↦ rw e h
]

elsewhere : (n r c i j : ℕ) → r < n → c < n → (n ≤ i) ⊎ (n ≤ j) → ((i == r) && (j == c)) ≡ false
elsewhere n r c i j rh ch (inl h) = ground arith
elsewhere n r c i j rh ch (inr h) = ground arith

pub set_module-Keeps :
    {n r c : ℕ} (v : Bool) (m : Modules) → r < n → c < n → Keeps n m (set_module r c v m)
unfolding set_module
set_module-Keeps {n} {r} {c} v m rh ch = record {
  grows = set_module-grows r c v m;
  stays = λ i j h. rw (elsewhere n r c i j rh ch h) refl;
}

pub set_module_set : (r c : ℕ) (v : Bool) (m : Modules) → is_unset (set_module r c v m r c) ≡ false
unfolding set_module
set_module_set r c v m = elim (Bool-cases ((r == r) && (c == c))) [
  | inl e ↦ rw e refl
  | inr e ↦ absurd (ground arith)
]

module _ {n : ℕ} {body : ℕ → Modules → Modules} where
  pub for_below-Keeps :
      (k : ℕ)
      → ((i : ℕ) → i < k → (m : Modules) → Keeps n m (body i m))
      → (m : Modules) → Keeps n m (for_below k body m)
  unfolding for_below
  for_below-Keeps zero h m = Keeps-refl n m
  for_below-Keeps (suc k) h m =
      Keeps-trans (for_below-Keeps k (λ i lt. h i (omega arith)) m) (h k (omega arith) _)

  -- A module that one round sets is set at the end.
  pub for_below_set :
      (k : ℕ)
      → ((i : ℕ) → i < k → (m : Modules) → Keeps n m (body i m))
      → (i r c : ℕ) → i < k
      → ((m : Modules) → is_unset (body i m r c) ≡ false)
      → (m : Modules) → is_unset (for_below k body m r c) ≡ false
  unfolding for_below
  for_below_set zero h i r c lt hit m = absurd (omega arith)
  for_below_set (suc k) h i r c lt hit m = elim (Bool-cases (i == k)) [
    | inl e ↦ rw (sym ((==_iff i k).0 e)) (hit _)
    | inr e ↦
        (h k (omega arith) _).grows r c
          (for_below_set k (λ i lt. h i (omega arith)) i r c (ground arith) hit m)
  ]

  pub for_each-Keeps :
      (P : ℕ → Type 0) (xs : List ℕ)
      → All P xs
      → ((x : ℕ) → P x → (m : Modules) → Keeps n m (body x m))
      → (m : Modules) → Keeps n m (for_each xs body m)
  unfolding for_each
  for_each-Keeps P [] a h m = Keeps-refl n m
  for_each-Keeps P (x ∷ xs) (px, rest) h m = Keeps-trans (h x px m) (for_each-Keeps P xs rest h _)
