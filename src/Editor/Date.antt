-- ===== src/Editor/Date.antt =====
-- editormd.dateFormat and the toolbar's datetime. What `new Date()` answers is the record Now.
pub mod Full
use study_tech.Base.{
  ℕ, zero, suc, ◌+◌, ◌-◌, List, [], ◌∷◌, ◌++◌, Bool, true, false, ltb, if◌then◌else◌, get_or,
}
use study_tech.Editor.Text.{Text}
use study_tech.Editor.CodeMirror.{CodeMirror}
use study_tech.Editor.Toolbar.{decimal}

pub record Now : Type 0 where
  pub year : ℕ
  -- from 0
  pub month : ℕ
  pub date : ℕ
  pub week_day : ℕ
  pub hours : ℕ
  pub minutes : ℕ
  pub seconds : ℕ
  pub milliseconds : ℕ
  pub time : ℕ
  pub utc : Text

-- The cases of the switch; any text that names none of them is `full`.
pub data Format : Type 0 where
  unix_time utc_time yy yyyy mm cn_wd wd dd hh ii ss ms ymd fymd full_ms full : Format

unfoldable pub take : ℕ → Text → Text
take zero t = []
take (suc n) [] = []
take (suc n) (c ∷ t) = c ∷ take n t

unfoldable pub drop : ℕ → Text → Text
drop zero t = t
drop (suc n) [] = []
drop (suc n) (c ∷ t) = drop n t

unfoldable pub slice : ℕ → ℕ → Text → Text
slice from to t = take (to - from) (drop from t)

unfoldable pub add_zero : ℕ → Text
add_zero d = if ltb d 10 then 48 ∷ decimal d else decimal d

abbrev undefined : Text
undefined = 117 ∷ 110 ∷ 100 ∷ 101 ∷ 102 ∷ 105 ∷ 110 ∷ 101 ∷ 100 ∷ []

abbrev pub cn_week_days : List Text
cn_week_days =
    (26085 ∷ [])
    ∷ (19968 ∷ [])
    ∷ (20108 ∷ [])
    ∷ (19977 ∷ [])
    ∷ (22235 ∷ [])
    ∷ (20116 ∷ [])
    ∷ (20845 ∷ [])
    ∷ []

abbrev pub week_days : List Text
week_days =
    (83 ∷ 117 ∷ 110 ∷ 100 ∷ 97 ∷ 121 ∷ [])
    ∷ (77 ∷ 111 ∷ 110 ∷ 100 ∷ 97 ∷ 121 ∷ [])
    ∷ (84 ∷ 117 ∷ 101 ∷ 115 ∷ 100 ∷ 97 ∷ 121 ∷ [])
    ∷ (87 ∷ 101 ∷ 100 ∷ 110 ∷ 101 ∷ 115 ∷ 100 ∷ 97 ∷ 121 ∷ [])
    ∷ (84 ∷ 104 ∷ 117 ∷ 114 ∷ 115 ∷ 100 ∷ 97 ∷ 121 ∷ [])
    ∷ (70 ∷ 114 ∷ 105 ∷ 100 ∷ 97 ∷ 121 ∷ [])
    ∷ (83 ∷ 97 ∷ 116 ∷ 117 ∷ 114 ∷ 100 ∷ 97 ∷ 121 ∷ [])
    ∷ []

module _ (now : Now) where
  unfoldable pub year2 : Text
  year2 = slice 2 4 (decimal now.year)

  unfoldable pub month_day : Text
  month_day = add_zero (now.month + 1) ++ 45 ∷ add_zero now.date

  unfoldable pub hms : Text
  hms = add_zero now.hours ++ 58 ∷ (add_zero now.minutes ++ 58 ∷ add_zero now.seconds)

  unfoldable pub date_format : Format → Text
  date_format unix_time = decimal now.time
  date_format utc_time = now.utc
  date_format yy = year2
  date_format yyyy = decimal now.year
  date_format mm = add_zero (now.month + 1)
  date_format cn_wd = 26143 ∷ 26399 ∷ get_or cn_week_days now.week_day undefined
  date_format wd = get_or week_days now.week_day undefined
  date_format dd = add_zero now.date
  date_format hh = add_zero now.hours
  date_format ii = add_zero now.minutes
  date_format ss = add_zero now.seconds
  date_format ms = add_zero now.milliseconds
  date_format ymd = year2 ++ 45 ∷ month_day
  date_format fymd = decimal now.year ++ 45 ∷ month_day
  date_format full_ms =
      (decimal now.year ++ 45 ∷ month_day) ++ 32 ∷ (hms ++ 32 ∷ add_zero now.milliseconds)
  date_format full = (decimal now.year ++ 45 ∷ month_day) ++ 32 ∷ hms

  -- toolbarHandlers.datetime; `chinese` is whether the language is zh-cn or zh-tw.
  unfoldable pub datetime : (cm : CodeMirror) → Bool → cm.State → cm.State
  datetime cm chinese s =
      cm.replace_selection (date_format full ++ 32 ∷ date_format (if chinese then cn_wd else wd)) s
