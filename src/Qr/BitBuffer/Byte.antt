-- ===== src/Qr/BitBuffer/Byte.antt =====
-- What `putBit` does to the one byte that it changes, checked at every byte and every bit.
use study_tech.Base.{
  ℕ, ◌-◌, ◌%◌, ◌^◌, ◌<◌, bit_and, bit_or, Bool, true, false, ◌&&◌, ◌||◌, not, ◌≡◌, refl, arith, ltb,
  ◌==◌, if◌then◌else◌, ◌>>>◌, all_below, all_below-at, ==_iff, ltb→lt,
}

-- Bit `j` of a byte, counted from the highest.
abbrev pub bit_at : ℕ → ℕ → Bool
bit_at byte j = bit_and (byte >>> (7 - j)) 1 == 1

abbrev same : Bool → Bool → Bool
same true b = b
same false b = not b

-- From bit `k` on a byte is empty.
abbrev pub IsClean : ℕ → ℕ → Type 0
IsClean byte k = byte % 2 ^ (8 - k) ≡ 0

-- The byte after `putBit` has put `bit` at place `k`.
unfoldable pub stored : ℕ → ℕ → Bool → ℕ
stored k byte bit = if bit then bit_or byte (0x80 >>> k) else byte

abbrev keeps : Bool → ℕ → ℕ → ℕ → Bool
keeps bit k byte j =
    not (byte % 2 ^ (8 - k) == 0)
    || (let w = stored k byte bit in
        same (bit_at w j) (if j == k then bit else bit_at byte j)
        && (ltb w 256 && (w % 2 ^ (7 - k) == 0)))

table :
    (bit : Bool)
    → all_below 8 (λ k. all_below 256 (λ byte. all_below 8 (λ j. keeps bit k byte j))) ≡ true
unfolding all_below stored
table true = refl
table false = refl

keeps_lem : (bit : Bool) (k byte j : ℕ) → k < 8 → byte < 256 → j < 8 → keeps bit k byte j ≡ true
keeps_lem bit k byte j k_lt byte_lt j_lt =
    all_below-at 8 _ j (all_below-at 256 _ byte (all_below-at 8 _ k (table bit) k_lt) byte_lt) j_lt

split :
    (clean got want below empty : Bool)
    → (not clean || same got want && (below && empty)) ≡ true
    → clean ≡ true
    → (got ≡ want) × (below ≡ true) × (empty ≡ true)
split clean got want below empty h c = ground arith

pub record IsStored (bit : Bool) (k byte j : ℕ) : Type 0 where
  pub bits : bit_at (stored k byte bit) j ≡ (if j == k then bit else bit_at byte j)
  pub below : stored k byte bit < 256
  pub clean : stored k byte bit % 2 ^ (7 - k) ≡ 0

-- In a byte that is empty from place `k` on, that place alone changes.
pub stored_lem :
    (bit : Bool) (k byte j : ℕ)
    → k < 8
    → byte < 256
    → j < 8
    → IsClean byte k
    → IsStored bit k byte j
stored_lem bit k byte j k_lt byte_lt j_lt c =
    let (got, below, empty) =
      split _ _ _ _ _ (keeps_lem bit k byte j k_lt byte_lt j_lt) ((==_iff _ _).1 c) in
    record { bits = got; below = ltb→lt _ _ below; clean = (==_iff _ _).0 empty }
