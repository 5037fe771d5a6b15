-- ===== src/Waypoints/Table.antt =====
-- Changes to one entry of a table.
use study_tech.Base.{
  ℕ, zero, suc, List, [], ◌∷◌, ◌++◌, ◌≡◌, ◌≢◌, refl, ap, none, some, get_elem?, length,
}
use study_tech.Waypoints.State.{modify}

module _ {ℓ} {A : Type ℓ} where
  pub get_elem?-modify_self :
      (i : ℕ) (f : A → A) (xs : List A) (x : A)
      → get_elem? xs i ≡ some x
      → get_elem? (modify i f xs) i ≡ some (f x)
  unfolding modify
  get_elem?-modify_self i f [] x h = cc
  get_elem?-modify_self zero f (y ∷ ys) x h = cc
  get_elem?-modify_self (suc i) f (y ∷ ys) x h = get_elem?-modify_self i f ys x h

  pub get_elem?-modify-none :
      (i : ℕ) (f : A → A) (xs : List A) → get_elem? xs i ≡ none → get_elem? (modify i f xs) i ≡ none
  unfolding modify
  get_elem?-modify-none i f [] h = refl
  get_elem?-modify-none zero f (y ∷ ys) h = cc
  get_elem?-modify-none (suc i) f (y ∷ ys) h = get_elem?-modify-none i f ys h

  pub get_elem?-modify_ne :
      (i j : ℕ) (f : A → A) (xs : List A) → j ≢ i → get_elem? (modify i f xs) j ≡ get_elem? xs j
  unfolding modify
  get_elem?-modify_ne i j f [] h = refl
  get_elem?-modify_ne zero zero f (y ∷ ys) h = absurd (h refl)
  get_elem?-modify_ne zero (suc j) f (y ∷ ys) h = refl
  get_elem?-modify_ne (suc i) zero f (y ∷ ys) h = refl
  get_elem?-modify_ne (suc i) (suc j) f (y ∷ ys) h =
      get_elem?-modify_ne i j f ys (λ e. h (ap suc e))

  pub length-modify : (i : ℕ) (f : A → A) (xs : List A) → length (modify i f xs) ≡ length xs
  unfolding modify
  length-modify i f [] = refl
  length-modify zero f (y ∷ ys) = refl
  length-modify (suc i) f (y ∷ ys) = ap suc (length-modify i f ys)

  pub get_elem?-append_left :
      (xs ys : List A) (i : ℕ) (x : A) → get_elem? xs i ≡ some x → get_elem? (xs ++ ys) i ≡ some x
  get_elem?-append_left [] ys i x h = cc
  get_elem?-append_left (y ∷ xs) ys zero x h = h
  get_elem?-append_left (y ∷ xs) ys (suc i) x h = get_elem?-append_left xs ys i x h
