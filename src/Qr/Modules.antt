-- ===== src/Qr/Modules.antt =====
-- QRCodeModel's modules, and isDark: the square that the code fills cell by cell.
pub mod Keeps
pub mod Patterns
pub mod Position
use study_tech.Base.{
  ℕ, zero, suc, Bool, true, false, Option, none, some, ◌==◌, ◌&&◌, ◌||◌, leb, if◌then◌else◌, List,
  [], ◌∷◌,
}
use study_tech.Qr.Result.{Result, ok, err, out_of_bounds, type_error}

-- `none` is `null`, and what is outside of the square.
abbrev pub Modules : Type 0
Modules = ℕ → ℕ → Option Bool

abbrev pub blank : Modules
blank row col = none

-- modules[row][col] = value
unfoldable pub set_module : ℕ → ℕ → Bool → Modules → Modules
set_module row col value m i j = if (i == row) && (j == col) then some value else m i j

abbrev pub is_unset : Option Bool → Bool
is_unset none = true
is_unset (some v) = false

-- for (i = 0; i < n; i++)
unfoldable pub for_below {ℓ} : {S : Type ℓ} → ℕ → (ℕ → S → S) → S → S
for_below zero body s = s
for_below (suc n) body s = body n (for_below n body s)

-- A loop over an array.
unfoldable pub for_each {ℓ} : {S : Type ℓ} → List ℕ → (ℕ → S → S) → S → S
for_each [] body s = s
for_each (x ∷ xs) body s = for_each xs body (body x s)

-- A module that is still `null` is as good as light where it is read.
abbrev pub truth : Option Bool → Bool
truth none = false
truth (some v) = v

-- isDark, for a row and a column from 0 on.
unfoldable pub is_dark : ℕ → Modules → ℕ → ℕ → Result (Option Bool)
is_dark module_count m row col =
    if leb module_count row || leb module_count col
    then err (out_of_bounds row col)
    else ok (m row col)
