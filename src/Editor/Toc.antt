-- ===== src/Editor/Toc.antt =====
-- markdownToCRenderer: the table of contents as the tags that it writes one after the other. What
-- stands around the list (the container, the dropdown) is jQuery's.
pub mod Depths
use study_tech.Base.{
  ℕ, zero, suc, ◌+◌, ◌-◌, List, [], ◌∷◌, ◌++◌, Bool, true, false, ltb, if◌then◌else◌,
}
use study_tech.Editor.Text.{Text}

-- An element of `toc`.
pub record Entry : Type 0 where
  pub text : Text
  pub level : ℕ

-- `<li><a class="toc-level-…" href="#…" level="…">…</a><ul>` and `</ul></li>`
pub data Tag : Type 0 where
  open_item : Entry → Tag
  close_item : Tag

unfoldable pub repeat : ℕ → Tag → List Tag
repeat zero t = []
repeat (suc n) t = t ∷ repeat n t

-- The tags before an entry of a level.
unfoldable pub closing : ℕ → ℕ → List Tag
closing last_level level =
    if ltb last_level level
    then []
    else if ltb level last_level
    then repeat (last_level - level + 1) close_item
    else close_item ∷ []

-- The loop.
unfoldable pub toc_from : ℕ → ℕ → List Entry → List Tag
toc_from start_level last_level [] = []
toc_from start_level last_level (e ∷ es) =
    let skipped = toc_from start_level last_level es in
    let rest = toc_from start_level e.level es in
    if ltb e.level start_level then skipped else closing last_level e.level ++ open_item e ∷ rest

-- `startLevel || 1`
unfoldable pub markdown_to_c : ℕ → List Entry → List Tag
markdown_to_c zero toc = toc_from 1 0 toc
markdown_to_c (suc n) toc = toc_from (suc n) 0 toc
