-- ===== src/Editor/Text.antt =====
-- Texts as UTF-16 units: lines, and positions by line and column.
use study_tech.Base.{
  ℕ, suc, ◌+◌, ◌≡◌, refl, ◌∙◌, ap, arith, List, [], ◌∷◌, ◌++◌, length, false, ◌==◌, if◌then◌else◌,
  All, Bool-cases, inl, inr,
}

abbrev pub Text : Type 0
Text = List ℕ

abbrev pub newline : ℕ
newline = 10

-- A position of CodeMirror: its line and the units before it on that line.
pub record Pos : Type 0 where
  pub line : ℕ
  pub ch : ℕ

-- Where a text that starts at `p` ends.
unfoldable pub end_from : Pos → Text → Pos
end_from p [] = p
end_from p (c ∷ cs) =
    if c == newline
    then end_from (record { line = suc p.line; ch = 0 }) cs
    else end_from (record { line = p.line; ch = suc p.ch }) cs

-- The position behind a text that stands in front of it.
abbrev pub position : Text → Pos
position before = end_from (record { line = 0; ch = 0 }) before

abbrev pub IsInline : Text → Type 0
IsInline t = All (λ c. (c == newline) ≡ false) t

pub end_from-append : (p : Pos) (s t : Text) → end_from p (s ++ t) ≡ end_from (end_from p s) t
unfolding end_from
end_from-append p [] t = refl
end_from-append p (c ∷ s) t = elim (Bool-cases (c == newline)) [
  | inl e ↦ rw (end_from, e) (end_from-append _ s t)
  | inr e ↦ rw (end_from, e) (end_from-append _ s t)
]

end_from_inline :
    (p : Pos) (t : Text)
    → IsInline t
    → end_from p t ≡ record { line = p.line; ch = p.ch + length t }
unfolding end_from
end_from_inline p [] h = ap (λ n. record { line = p.line; ch = n }) (omega arith)
end_from_inline p (c ∷ t) h =
    rw (end_from, h.0)
      (end_from_inline _ t h.1 ∙ ap (λ n. record { line = p.line; ch = n }) (omega arith))

-- Inline text moves the position along its line.
pub position-append :
    (s t : Text)
    → IsInline t
    → position (s ++ t) ≡ record { line = (position s).line; ch = (position s).ch + length t }
position-append s t h = end_from-append _ s t ∙ end_from_inline (position s) t h

-- split("\n")
unfoldable pub add_to_first : ℕ → List Text → List Text
add_to_first c [] = (c ∷ []) ∷ []
add_to_first c (l ∷ ls) = (c ∷ l) ∷ ls

unfoldable pub split_lines : Text → List Text
split_lines [] = [] ∷ []
split_lines (c ∷ cs) =
    let rest = split_lines cs in if c == newline then [] ∷ rest else add_to_first c rest

-- join("\n")
unfoldable pub join_lines : List Text → Text
join_lines [] = []
join_lines (l ∷ []) = l
join_lines (l ∷ m ∷ ls) = l ++ newline ∷ join_lines (m ∷ ls)

split_lines_inline : (t : Text) → IsInline t → split_lines t ≡ t ∷ []
unfolding split_lines add_to_first
split_lines_inline [] h = refl
split_lines_inline (c ∷ t) h = rw (split_lines, h.0, split_lines_inline t h.1) refl

pub split_lines-append :
    (t u : Text) → IsInline t → split_lines (t ++ newline ∷ u) ≡ t ∷ split_lines u
unfolding split_lines add_to_first
split_lines-append [] u h = refl
split_lines-append (c ∷ t) u h = rw (split_lines, h.0, split_lines-append t u h.1) refl

-- Lines that have no newline are read back from their join.
pub split_lines-join_lines :
    (l : Text) (ls : List Text) → All IsInline (l ∷ ls) → split_lines (join_lines (l ∷ ls)) ≡ l ∷ ls
unfolding join_lines
split_lines-join_lines l [] h = split_lines_inline l h.0
split_lines-join_lines l (m ∷ ls) h =
    split_lines-append l (join_lines (m ∷ ls)) h.0
    ∙ ap (λ xs. l ∷ xs) (split_lines-join_lines m ls h.1)
