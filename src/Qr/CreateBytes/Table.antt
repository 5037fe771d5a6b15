-- ===== src/Qr/CreateBytes/Table.antt =====
-- Every block of the table has data codewords, and at most 30 error correction codewords.
use study_tech.Base.{
  ℕ, zero, suc, ◌-◌, ◌≤◌, ◌<◌, ◌≡◌, refl, arith, Bool, true, leb, ◌&&◌, List, [], ◌∷◌, All,
  all_below, all_below-at, &&-eq-true, leb→le,
}
use study_tech.Qr.Result.{Result, ok, err}
use study_tech.Qr.RsBlock.{RsBlock, get_rs_blocks}
use study_tech.Qr.CreateBytes.Blocks.{Splits}

all_split : List RsBlock → Bool
all_split [] = true
all_split (r ∷ rs) =
    (leb r.data_count r.total_count && leb (r.total_count - r.data_count) 30) && all_split rs

judge : Result (List RsBlock) → Bool
unfolding all_split
judge (ok rs) = all_split rs
judge (err e) = true

row : ℕ → ℕ → Bool
unfolding judge get_rs_blocks
row t level = judge (get_rs_blocks (suc t) level)

table : all_below 40 (λ t. all_below 4 (row t)) ≡ true
unfolding all_below row
table = refl

all_split_sound : (rs : List RsBlock) → all_split rs ≡ true → All Splits rs
unfolding all_split
all_split_sound [] h = tt
all_split_sound (r ∷ rs) h =
    let (first, rest) = &&-eq-true _ _ h in
    let (lo, hi) = &&-eq-true _ _ first in
    ((leb→le _ _ lo, leb→le _ 30 hi), all_split_sound rs rest)

judge_sound :
    (r : Result (List RsBlock)) → judge r ≡ true → (rs : List RsBlock) → r ≡ ok rs → All Splits rs
unfolding judge
judge_sound (ok qs) h rs e = rw⁻¹ (ok_eq e) (all_split_sound qs h)
  where
    ok_eq : ok qs ≡ ok rs → qs ≡ rs
    ok_eq e = cc
judge_sound (err d) h rs e = cc

pub get_rs_blocks-Splits :
    (t level : ℕ) (rs : List RsBlock)
    → 1 ≤ t
    → t ≤ 40
    → level < 4
    → get_rs_blocks t level ≡ ok rs
    → All Splits rs
unfolding row
get_rs_blocks-Splits zero level rs lo hi l e = absurd (omega arith)
get_rs_blocks-Splits (suc t) level rs lo hi l e =
    judge_sound _ (all_below-at 4 (row t) level (all_below-at 40 _ t table hi) l) rs e
