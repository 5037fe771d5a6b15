-- ===== src/Qr/CreateBytes/Words.antt =====
-- All blocks of createBytes: which bytes they hold, and that they are words of the code.
use study_tech.Base.{ℕ, ◌+◌, ◌-◌, ◌≡◌, refl, List, [], ◌∷◌, some, All}
use study_tech.Qr.Result.{ok}
use study_tech.Qr.RsBlock.{RsBlock}
use study_tech.Qr.CreateBytes.{Block, data_codewords, push, blocks_of}
use study_tech.Qr.CreateBytes.Blocks.{Splits, data_codewords-IsByte}
use study_tech.Qr.CreateBytes.Codeword.{IsCodeword, block_of-IsCodeword}

-- Each block has the next bytes as its data, and is a word of the Reed-Solomon code.
abbrev pub AreWords : List ℕ → ℕ → List RsBlock → List Block → Type 0
AreWords bytes offset [] [] = Unit
AreWords bytes offset (r ∷ rs) (b ∷ bs) =
    IsCodeword (data_codewords bytes offset r.data_count) (r.total_count - r.data_count) b
    × AreWords bytes (offset + r.data_count) rs bs
AreWords bytes offset [] (b ∷ bs) = ⊥
AreWords bytes offset (r ∷ rs) [] = ⊥

pub blocks_of-AreWords :
    (bytes : List ℕ) (offset : ℕ) (rs : List RsBlock)
    → All Splits rs
    → (bs : List Block) × (blocks_of bytes offset rs ≡ ok (some bs)) × AreWords bytes offset rs bs
unfolding blocks_of push
blocks_of-AreWords bytes offset [] h = ([], refl, tt)
blocks_of-AreWords bytes offset (r ∷ rs) ((lo, hi), hs) =
    let (b, is, word) =
      block_of-IsCodeword (data_codewords bytes offset r.data_count) (r.total_count - r.data_count)
        hi (data_codewords-IsByte bytes offset r.data_count) in
    let (bs, are, words) = blocks_of-AreWords bytes (offset + r.data_count) rs hs in
    (b ∷ bs, rw (is, are) refl, (word, words))
