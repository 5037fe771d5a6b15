-- ===== src/Editor/ContentTests.antt =====
-- The table of contents and the date, at concrete inputs.
use study_tech.Base.{ℕ, ◌+◌, ◌-◌, ◌≡◌, ◌++◌, refl, arith, [], ◌∷◌, none, some, map, length}
use study_tech.Editor.Toolbar.{decimal, decimal_on}
use study_tech.Editor.Toolbar.Decimal.{value}
use study_tech.Editor.Toc.{Entry, markdown_to_c}
use study_tech.Editor.Toc.Depths.{depths, depths-markdown_to_c, depths-markdown_to_c_skipped}
use study_tech.Editor.Text.{split_lines}
use study_tech.Editor.Plugins.Table.{Align, copies, row_line, head_line, table_text}
use study_tech.Editor.Plugins.Table.Lines.{bars, table_text-lines}
use study_tech.Editor.Date.{Now, full, slice, date_format, month_day, hms, add_zero}
use study_tech.Editor.Date.Full.{date_format-full}

abbrev entry : ℕ → Entry
entry level = record { text = 97 ∷ []; level = level }

depths-markdown_to_c_example :
    depths 0 (markdown_to_c 1 (entry 2 ∷ entry 3 ∷ entry 2 ∷ []))
    ≡ some (map (λ x. x.level - 2) (entry 2 ∷ entry 3 ∷ entry 2 ∷ []))
depths-markdown_to_c_example =
    depths-markdown_to_c 1 (entry 2) (entry 3 ∷ entry 2 ∷ []) (omega arith) (omega arith)
      ((omega arith, omega arith), ((omega arith, omega arith), tt))

depths-markdown_to_c_skipped_example :
    depths 0 (markdown_to_c 1 (entry 1 ∷ entry 4 ∷ entry 1 ∷ [])) ≡ none
depths-markdown_to_c_skipped_example =
    depths-markdown_to_c_skipped (entry 1) (entry 4) (entry 1) (omega arith) (omega arith) refl

abbrev now : Now
now = record {
  year = 2020;
  month = 1;
  date = 29;
  week_day = 6;
  hours = 9;
  minutes = 5;
  seconds = 30;
  milliseconds = 7;
  time = 0;
  utc = [];
}

date_format-full_example :
    (length (date_format now full) ≡ 19)
    × (value (slice 0 4 (date_format now full)) ≡ 2020)
    × (value (slice 5 7 (date_format now full)) ≡ 2)
    × (value (slice 8 10 (date_format now full)) ≡ 29)
    × (value (slice 11 13 (date_format now full)) ≡ 9)
    × (value (slice 14 16 (date_format now full)) ≡ 5)
    × (value (slice 17 19 (date_format now full)) ≡ 30)
date_format-full_example =
    date_format-full now
      ((omega arith, omega arith), omega arith, omega arith, omega arith, omega arith, omega arith)

-- "2020-02-29 09:05:30"
full_text :
    date_format now full
    ≡ 50 ∷ 48 ∷ 50 ∷ 48 ∷ 45 ∷ 48 ∷ 50 ∷ 45 ∷ 50 ∷ 57 ∷ 32 ∷ 48 ∷ 57 ∷ 58 ∷ 48 ∷ 53 ∷ 58 ∷ 51 ∷ 48
      ∷ []
unfolding date_format month_day hms add_zero decimal decimal_on
full_text = refl

table_text-lines_example :
    (split_lines (table_text 3 2 Align.center)
      ≡ row_line 2 ∷ head_line 2 Align.center ∷ copies (3 - 1) (row_line 2) ++ [] ∷ [])
    × (bars (row_line 2) ≡ 2 + 1)
    × (bars (head_line 2 Align.center) ≡ 2 + 1)
table_text-lines_example = table_text-lines 3 2 Align.center (omega arith) (omega arith)
