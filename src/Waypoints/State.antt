-- ===== src/Waypoints/State.antt =====
-- The objects of jquery.waypoints.js. A waypoint, a group and a context are referred to by their
-- index in the tables of the world, as the code's objects refer to one another.
use study_tech.Base.{ℕ, zero, suc, Bool, List, [], ◌∷◌, Option}
use study_tech.Base.Int.{ℤ}

pub data Axis : Type 0 where
  horizontal vertical : Axis

pub data Direction : Type 0 where
  up down left right : Direction

-- `options.offset`: a number, a text that `parseFloat` reads, with or without '%', or a function.
-- The two functions of `Waypoint.offsetAliases` are constructors, and any other gives a number.
pub data Offset : Type 0 where
  number : ℤ → Offset
  percentage : ℤ → Offset
  bottom_in_view right_in_view : Offset

-- `trigger_point` is `null` until the first refresh.
pub record Waypoint : Type 0 where
  pub element : ℕ
  pub axis : Axis
  pub group : ℕ
  pub context : ℕ
  pub offset : Offset
  pub continuous : Bool
  pub enabled : Bool
  pub trigger_point : Option ℤ

pub record Group : Type 0 where
  pub name : ℕ
  pub axis : Axis
  pub waypoints : List ℕ
  pub queue : Direction → List ℕ

pub record Context : Type 0 where
  pub element : ℕ
  pub did_scroll : Bool
  pub did_resize : Bool
  pub old_x : ℤ
  pub old_y : ℤ
  pub horizontals : List ℕ
  pub verticals : List ℕ
  -- whether the table `contexts` still has it
  pub live : Bool

-- A call of a handler: the callback of a waypoint, with a direction.
pub record Event : Type 0 where
  pub key : ℕ
  pub direction : Direction

-- What `requestAnimationFrame` has been given.
pub data Frame : Type 0 where
  scroll_handler resize_handler : ℕ → Frame
  flush_groups : List ℕ → Frame

pub record World : Type 0 where
  -- by `keyCounter`, those that were destroyed too
  pub waypoints : List Waypoint
  -- the keys of `allWaypoints`
  pub all : List ℕ
  pub groups : List Group
  pub contexts : List Context
  -- `Waypoint.windowContext`
  pub window_context : Bool
  pub events : List Event
  pub frames : List Frame

-- What the adapter and the browser answer: sizes and positions by element, 0 for the window.
pub record Page : Type 0 where
  pub scroll_left : ℕ → ℤ
  pub scroll_top : ℕ → ℤ
  pub offset_left : ℕ → ℤ
  pub offset_top : ℕ → ℤ
  pub inner_width : ℕ → ℕ
  pub inner_height : ℕ → ℕ
  pub outer_width : ℕ → ℕ
  pub outer_height : ℕ → ℕ
  pub is_touch : Bool

-- The window as an element.
abbrev pub window : ℕ
window = 0

-- A change to one entry of a table.
unfoldable pub modify {ℓ} : {A : Type ℓ} → ℕ → (A → A) → List A → List A
modify i f [] = []
modify zero f (x ∷ xs) = f x ∷ xs
modify (suc i) f (x ∷ xs) = x ∷ modify i f xs
