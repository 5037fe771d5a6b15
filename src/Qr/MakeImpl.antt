-- ===== src/Qr/MakeImpl.antt =====
-- QRCodeModel.makeImpl, getBestMaskPattern and make, with createData as a whole.
pub mod Square
pub mod Full
pub mod Best
pub mod Made
use study_tech.Base.{
  ℕ, zero, suc, ◌+◌, ◌-◌, ◌*◌, Bool, true, false, ◌||◌, ◌==◌, leb, ltb, if◌then◌else◌, List, Option,
  none, some,
}
use study_tech.Qr.BitBuffer.{BitBuffer}
use study_tech.Qr.Result.{Result, ok, err, ◌>>=◌}
use study_tech.Qr.RsBlock.{get_rs_blocks}
use study_tech.Qr.Polynomial.{Polynomial}
use study_tech.Qr.CreateData.{Segment, data_bits}
use study_tech.Qr.CreateBytes.{create_bytes}
use study_tech.Qr.Modules.{Modules, blank}
use study_tech.Qr.Modules.Position.{get_pattern_position}
use study_tech.Qr.Modules.Patterns.{
  setup_position_probe_pattern, setup_timing_pattern, setup_position_adjust_pattern,
  setup_type_number, setup_type_info,
}
use study_tech.Qr.MapData.{get_mask, map_data}
use study_tech.Qr.LostPoint.{get_lost_point}

pub record QrCodeModel : Type 0 where
  pub type_number : ℕ
  pub error_correct_level : ℕ
  pub modules : Modules
  pub module_count : ℕ
  -- `none` is `null`.
  pub data_cache : Option Polynomial
  pub data_list : List Segment

-- The constructor, and what `addData` has put in the list.
abbrev pub new_model : ℕ → ℕ → List Segment → QrCodeModel
new_model type_number level list = record {
  type_number = type_number;
  error_correct_level = level;
  modules = blank;
  module_count = 0;
  data_cache = none;
  data_list = list;
}

unfoldable pub with_bytes : ℕ → ℕ → Option BitBuffer → Result (Option Polynomial)
unfolding get_rs_blocks create_bytes
with_bytes type_number level none = ok none
with_bytes type_number level (some buffer) = get_rs_blocks type_number level >>= create_bytes buffer

-- QRCodeModel.createData; `none` stands for loops that do not end.
unfoldable pub create_data : ℕ → ℕ → List Segment → Result (Option Polynomial)
unfolding with_bytes
create_data type_number level list =
    data_bits type_number level list >>= with_bytes type_number level

-- if (this.dataCache == null) this.dataCache = …
unfoldable pub cached : QrCodeModel → Option Polynomial → Result (Option Polynomial)
unfolding create_data
cached q none = create_data q.type_number q.error_correct_level q.data_list
cached q (some codewords) = ok (some codewords)

-- The modules before mapData.
unfoldable pub patterns : ℕ → ℕ → List ℕ → Bool → ℕ → Modules
unfolding setup_position_probe_pattern setup_timing_pattern setup_position_adjust_pattern
    setup_type_info setup_type_number
patterns type_number level pos test mask_pattern =
    let module_count = type_number * 4 + 17 in
    let finders = setup_position_probe_pattern module_count 0 (module_count - 7) (
      setup_position_probe_pattern module_count (module_count - 7) 0
        (setup_position_probe_pattern module_count 0 0 blank)) in
    let lines = setup_timing_pattern module_count (setup_position_adjust_pattern pos finders) in
    let info = setup_type_info module_count level test mask_pattern lines in
    if leb 7 type_number then setup_type_number module_count type_number test info else info

unfoldable pub mapped :
    QrCodeModel → List ℕ → Bool → ℕ → Option Polynomial → Result (Option QrCodeModel)
unfolding patterns get_mask map_data
mapped q pos test mask_pattern none = ok none
mapped q pos test mask_pattern (some codewords) = get_mask mask_pattern >>= λ mask.
    let module_count = q.type_number * 4 + 17 in
    ok (
      some (record {
        type_number = q.type_number;
        error_correct_level = q.error_correct_level;
        modules =
            map_data codewords mask module_count
              (patterns q.type_number q.error_correct_level pos test mask_pattern);
        module_count = module_count;
        data_cache = some codewords;
        data_list = q.data_list;
      }))

unfoldable pub make_impl : Bool → ℕ → QrCodeModel → Result (Option QrCodeModel)
unfolding cached mapped get_pattern_position
make_impl test mask_pattern q = get_pattern_position q.type_number >>= λ pos.
    cached q q.data_cache >>= mapped q pos test mask_pattern

-- The variables of getBestMaskPattern.
pub record Choice : Type 0 where
  pub min_lost_point : ℕ
  pub pattern : ℕ

-- if (i == 0 || minLostPoint > lostPoint) …
unfoldable pub better : ℕ → ℕ → Choice → Choice
better i lost_point choice =
    if (i == 0) || ltb lost_point choice.min_lost_point
    then record { min_lost_point = lost_point; pattern = i }
    else choice

-- What follows a call, unless a loop in it did not end.
unfoldable pub and_then {ℓ κ} :
    {A : Type ℓ} {B : Type κ} → (A → Result (Option B)) → Option A → Result (Option B)
and_then f none = ok none
and_then f (some a) = f a

-- The loop from `i` on, with `left` rounds to go.
unfoldable pub best_from : ℕ → ℕ → Choice → QrCodeModel → Result (Option (Choice × QrCodeModel))
unfolding better and_then make_impl get_lost_point
best_from zero i choice q = ok (some (choice, q))
best_from (suc left) i choice q =
    make_impl true i q
    >>= and_then (λ made.
      best_from left (i + 1) (better i (get_lost_point made.module_count made.modules) choice) made)

-- getBestMaskPattern, and the model as the last round leaves it.
unfoldable pub get_best_mask_pattern : QrCodeModel → Result (Option (Choice × QrCodeModel))
unfolding best_from
get_best_mask_pattern q = best_from 8 0 (record { min_lost_point = 0; pattern = 0 }) q

unfoldable pub make : QrCodeModel → Result (Option QrCodeModel)
unfolding get_best_mask_pattern and_then make_impl
make q = get_best_mask_pattern q >>= and_then (λ best. make_impl false best.0.pattern best.1)
