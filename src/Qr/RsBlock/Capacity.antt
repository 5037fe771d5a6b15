-- ===== src/Qr/RsBlock/Capacity.antt =====
-- The block table against the geometry of the symbol.
use study_tech.Base.{
  ℕ, zero, suc, ◌+◌, ◌-◌, ◌*◌, ◌/◌, ◌≤◌, ◌<◌, List, [], ◌∷◌, ◌≡◌, refl, arith, ltb, leb, ◌==◌, ◌&&◌,
  ◌||◌, All, if◌then◌else◌, true, false, Bool, all_below, all_below-at, ==_iff, &&-eq-true,
  Bool-cases, inl, inr,
}
use study_tech.Qr.Result.{Result, ok, err}
use study_tech.Qr.RsBlock.{RsBlock, get_rs_blocks, level_h}

unfoldable pub total_of : List RsBlock → ℕ
total_of [] = 0
total_of (b ∷ bs) = b.total_count + total_of bs

unfoldable pub data_of : List RsBlock → ℕ
data_of [] = 0
data_of (b ∷ bs) = b.data_count + data_of bs

-- The codewords of a symbol of type `t`: a square of 17 + 4 * t modules without the finder and
-- alignment patterns, the timing lines, and the format and version areas, in bytes.
unfoldable pub raw_codewords : ℕ → ℕ
raw_codewords t =
    let aligns = t / 7 + 2 in
    let free = (16 * t + 128) * t + 64 in
    let aligned = if leb 2 t then free + 55 - (25 * aligns - 10) * aligns else free in
    (if leb 7 t then aligned - 36 else aligned) / 8

all_split : List RsBlock → Bool
all_split [] = true
all_split (b ∷ bs) = leb 1 b.data_count && ltb b.data_count b.total_count && all_split bs

judge : ℕ → Result (List RsBlock) → Bool
unfolding total_of raw_codewords all_split
judge t (ok bs) = (total_of bs == raw_codewords t) && all_split bs
judge t (err _) = false

fills : ℕ → ℕ → Bool
unfolding get_rs_blocks judge
fills t level = judge (suc t) (get_rs_blocks (suc t) level)

table : all_below 40 (λ t. all_below 4 (λ level. (t == 14 && level == 2) || fills t level)) ≡ true
unfolding all_below fills
table = refl

all_split_sound :
    (bs : List RsBlock)
    → all_split bs ≡ true
    → All (λ b. (1 ≤ b.data_count) × (b.data_count < b.total_count)) bs
unfolding all_split
all_split_sound [] h = tt
all_split_sound (b ∷ bs) h =
    let (first, rest) = &&-eq-true _ (all_split bs) h in (ground arith, all_split_sound bs rest)

-- The blocks `bs` fill a symbol of type `t`, and each has data and error codewords.
pub record IsFull (t : ℕ) (bs : List RsBlock) : Type 0 where
  pub total : total_of bs ≡ raw_codewords t
  pub split : All (λ b. (1 ≤ b.data_count) × (b.data_count < b.total_count)) bs

judge_sound :
    (t : ℕ) (r : Result (List RsBlock))
    → judge t r ≡ true
    → (bs : List RsBlock) × (r ≡ ok bs) × IsFull t bs
unfolding judge
judge_sound t (ok bs) h =
    let (total, split) = &&-eq-true (total_of bs == raw_codewords t) (all_split bs) h in
    (bs, refl, record { total = (==_iff _ _).0 total; split = all_split_sound bs split })
judge_sound t (err _) h = cc

pub or_right : (a b : Bool) → a ≡ false → (a || b) ≡ true → b ≡ true
or_right a b e h = ground arith

pub elsewhere :
    (t level : ℕ) → ¬ ((suc t ≡ 15) × (level ≡ level_h)) → (t == 14 && level == 2) ≡ false
elsewhere t level ne = elim (Bool-cases (t == 14 && level == 2)) [
  | inl at ↦ absurd (ne (ground arith))
  | inr e ↦ e
]

-- At every type from 1 to 40 and every level the table has blocks that fill the symbol, but at
-- type 15 and level H.
pub get_rs_blocks-IsFull :
    (t level : ℕ)
    → 1 ≤ t
    → t ≤ 40
    → level < 4
    → ¬ ((t ≡ 15) × (level ≡ level_h))
    → (bs : List RsBlock) × (get_rs_blocks t level ≡ ok bs) × IsFull t bs
unfolding fills
get_rs_blocks-IsFull zero level lo hi l ne = absurd (omega arith)
get_rs_blocks-IsFull (suc t) level lo hi l ne =
    judge_sound (suc t) _ (
      or_right _ _ (elsewhere t level ne) (all_below-at 4 _ level (all_below-at 40 _ t table hi) l))
