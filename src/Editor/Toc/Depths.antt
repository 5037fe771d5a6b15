-- ===== src/Editor/Toc/Depths.antt =====
-- How deep the entries of the table of contents stand.
use study_tech.Base.{
  ℕ, zero, suc, ◌+◌, ◌-◌, ◌<◌, ◌≤◌, ◌≡◌, refl, ◌∙◌, ap, arith, List, [], ◌∷◌, ◌++◌, Option, none,
  some, true, false, ltb, map, Bool-cases, inl, inr,
}
use study_tech.Editor.Toc.{
  Entry, Tag, open_item, close_item, repeat, closing, toc_from, markdown_to_c,
}

-- The depths at which items open, from depth `d`; `none` where a tag closes what is not open.
unfoldable pub depths : ℕ → List Tag → Option (List ℕ)
depths d [] = some []
depths d (open_item e ∷ ts) = elim (depths (suc d) ts) [ none ↦ none | some ds ↦ some (d ∷ ds) ]
depths zero (close_item ∷ ts) = none
depths (suc d) (close_item ∷ ts) = depths d ts

depths-repeat :
    (n d m : ℕ) (ts : List Tag) → m ≡ n + d → depths m (repeat n close_item ++ ts) ≡ depths d ts
unfolding depths repeat
depths-repeat zero d m ts h = ap (λ x. depths x ts) (omega (arith, h))
depths-repeat (suc n) d zero ts h = absurd (omega (arith, h))
depths-repeat (suc n) d (suc m) ts h = depths-repeat n d m ts (omega (arith, h))

one_suc : (c : ℕ) (us : List Tag) → depths (suc c) (close_item ∷ us) ≡ depths c us
unfolding depths
one_suc c us = refl

opened :
    (d : ℕ) (e : Entry) (ts : List Tag) (ds : List ℕ)
    → depths (suc d) ts ≡ some ds
    → depths d (open_item e ∷ ts) ≡ some (d ∷ ds)
unfolding depths
opened d e ts ds h = rw h refl

not_below : (start level : ℕ) → start ≤ level → ltb level start ≡ false
not_below start level h = ground arith

module _ (last level base d : ℕ) (ts : List Tag) where
  -- The tags before an entry close as many items as lead from depth `d` to its own.
  depths-closing :
      d ≡ suc (last - base)
      → base ≤ last
      → level ≤ suc last
      → base ≤ level
      → depths d (closing last level ++ ts) ≡ depths (level - base) ts
  unfolding closing
  depths-closing e low step above = elim (Bool-cases (ltb last level)) [
    | inl deeper ↦
        let lt : last < level = ground arith in
        rw (closing, deeper) (ap (λ x. depths x ts) (omega arith))
    | inr other ↦
        let le : level ≤ last = ground arith in
        elim (Bool-cases (ltb level last)) [
          | inl back ↦
              rw (closing, other, back)
                (depths-repeat (last - level + 1) (level - base) d ts (omega arith))
          | inr same ↦
              let ge : last ≤ level = ground arith in
              rw (closing, other, same) (one (level - base) d ts (omega arith))
        ]
  ]
    where
      one : (c m : ℕ) (us : List Tag) → m ≡ suc c → depths m (close_item ∷ us) ≡ depths c us
      one c m us h = rw h (one_suc c us)

-- With one level more at most than the entry before, and none below `base`.
abbrev pub IsStepped : ℕ → ℕ → List Entry → Type 0
IsStepped base last [] = Unit
IsStepped base last (e ∷ es) = ((e.level ≤ suc last) × (base ≤ e.level)) × IsStepped base e.level es

depths-toc_from :
    (start base : ℕ) (es : List Entry) (last d : ℕ)
    → start ≤ base
    → base ≤ last
    → d ≡ suc (last - base)
    → IsStepped base last es
    → depths d (toc_from start last es) ≡ some (map (λ e. e.level - base) es)
unfolding toc_from depths
depths-toc_from start base [] last d h k m s = refl
depths-toc_from start base (e ∷ es) last d h k m s =
    let low : start ≤ e.level = omega (arith, h, s.0.1) in
    rw (toc_from, not_below start e.level low)
      (depths-closing last e.level base d _ m k s.0.0 s.0.1
        ∙ opened (e.level - base) e (toc_from start e.level es) (map (λ x. x.level - base) es)
            (depths-toc_from start base es e.level (suc (e.level - base)) h s.0.1 refl s.1))

first_entry :
    (start : ℕ) (e : Entry) (es : List Entry)
    → start ≤ e.level
    → 1 ≤ e.level
    → IsStepped e.level e.level es
    → depths 0 (toc_from start 0 (e ∷ es)) ≡ some (map (λ x. x.level - e.level) (e ∷ es))
unfolding toc_from closing
first_entry start e es h one s =
    let deeper : ltb 0 e.level ≡ true = ground arith in
    rw (toc_from, not_below start e.level h, closing, deeper)
      (opened 0 e (toc_from start e.level es) (map (λ x. x.level - e.level) es)
          (depths-toc_from start e.level es e.level 1 h (omega arith) (omega arith) s)
        ∙ ap (λ n. some (n ∷ map (λ x. x.level - e.level) es)) (omega arith))

-- A table of contents whose first entry has a level from 1 and at least the start level, and in
-- which no level is more than one deeper than the one before, or below the first, opens every entry
-- at the depth of its level above the first, and closes nothing that is not open.
pub depths-markdown_to_c :
    (start : ℕ) (e : Entry) (es : List Entry)
    → start ≤ e.level
    → 1 ≤ e.level
    → IsStepped e.level e.level es
    → depths 0 (markdown_to_c start (e ∷ es)) ≡ some (map (λ x. x.level - e.level) (e ∷ es))
unfolding markdown_to_c
depths-markdown_to_c zero e es h one s = first_entry 1 e es one one s
depths-markdown_to_c (suc n) e es h one s = first_entry (suc n) e es h one s

too_many : (n : ℕ) (ts : List Tag) → 3 ≤ n → depths 2 (repeat n close_item ++ ts) ≡ none
unfolding depths repeat
too_many zero ts h = absurd (omega arith)
too_many (suc zero) ts h = absurd (omega arith)
too_many (suc (suc zero)) ts h = absurd (omega arith)
too_many (suc (suc (suc n))) ts h = refl

toc_kept :
    (last : ℕ) (e : Entry) (es : List Entry)
    → 1 ≤ e.level
    → toc_from 1 last (e ∷ es) ≡ closing last e.level ++ open_item e ∷ toc_from 1 e.level es
unfolding toc_from
toc_kept last e es h = rw (toc_from, not_below 1 e.level h) refl

closing_deeper : (last level : ℕ) → last < level → closing last level ≡ []
unfolding closing
closing_deeper last level h =
    let deeper : ltb last level ≡ true = ground arith in rw (closing, deeper) refl

closing_back :
    (last level : ℕ) → level < last → closing last level ≡ repeat (last - level + 1) close_item
unfolding closing
closing_back last level h =
    let other : ltb last level ≡ false = ground arith in
    let back : ltb level last ≡ true = ground arith in rw (closing, other, back) refl

unopened :
    (d : ℕ) (e : Entry) (ts : List Tag)
    → depths (suc d) ts ≡ none
    → depths d (open_item e ∷ ts) ≡ none
unfolding depths
unopened d e ts h = rw h refl

-- With start level 1, where the levels of three entries go from one (at least 1) to another that is
-- two or more deeper and back to it, the tags close more items than are open.
pub depths-markdown_to_c_skipped :
    (x y z : Entry)
    → 1 ≤ x.level
    → x.level + 2 ≤ y.level
    → z.level ≡ x.level
    → depths 0 (markdown_to_c 1 (x ∷ y ∷ z ∷ [])) ≡ none
unfolding markdown_to_c toc_from
depths-markdown_to_c_skipped x y z one skip same =
    rw
      (
        toc_kept 0 x (y ∷ z ∷ []) one,
        closing_deeper 0 x.level one,
        toc_kept x.level y (z ∷ []) (omega arith),
        closing_deeper x.level y.level (omega arith),
        toc_kept y.level z [] (omega arith),
        closing_back y.level z.level (omega arith),
      )
      (unopened 0 x _
        (unopened 1 y _ (too_many (y.level - z.level + 1) (open_item z ∷ []) (omega arith))))
