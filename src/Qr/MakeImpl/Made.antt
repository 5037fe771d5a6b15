-- ===== src/Qr/MakeImpl/Made.antt =====
-- `make` draws with the pattern that getBestMaskPattern chooses.
use study_tech.Base.{
  ℕ, ◌+◌, ◌*◌, ◌≤◌, ◌<◌, ◌≡◌, refl, arith, true, false, List, Option, none, some, All,
}
use study_tech.Qr.Result.{Result, ok, err, >>=_ok}
use study_tech.Qr.Polynomial.{Polynomial}
use study_tech.Qr.CreateData.{Segment}
use study_tech.Qr.LostPoint.{get_lost_point}
use study_tech.Qr.Modules.Position.{Inside, get_pattern_position, get_pattern_position-Inside}
use study_tech.Qr.MakeImpl.{QrCodeModel, and_then, make_impl, get_best_mask_pattern, make, cached}
use study_tech.Qr.MakeImpl.Full.{IsReady, IsSymbol, symbol, symbol-IsSymbol, make_impl-eq-symbol}
use study_tech.Qr.MakeImpl.Best.{IsChoice, IsSearched, trial_points, best_from-IsSearched}

-- The lost points of the symbol that a call of makeImpl leaves.
unfoldable pub points_of : Result (Option QrCodeModel) → ℕ
points_of (ok (some q)) = get_lost_point q.module_count q.modules
points_of (ok none) = 0
points_of (err e) = 0

-- What `make` leaves of a model `q`: the symbol of the first pattern whose trial has the fewest lost
-- points.
pub record IsMade (codewords : Polynomial) (q : QrCodeModel) (r : Result (Option QrCodeModel))
    : Type 0 where
  pub pattern : ℕ
  pub made : QrCodeModel
  pub known : pattern < 8
  pub result : r ≡ ok (some made)
  pub drawn : make_impl false pattern q ≡ ok (some made)
  pub full : IsSymbol q.type_number codewords made
  pub least :
      (p : ℕ) → p < 8 → points_of (make_impl true pattern q) ≤ points_of (make_impl true p q)
  pub first :
      (p : ℕ) → p < pattern → points_of (make_impl true pattern q) < points_of (make_impl true p q)

module _ (t level : ℕ) (list : List Segment) (codewords : Polynomial) (pos : List ℕ) where
  points_of-eq-trial_points :
      (q : QrCodeModel)
      → get_pattern_position t ≡ ok pos
      → IsReady t level list codewords q
      → (p : ℕ) → p < 8
      → points_of (make_impl true p q) ≡ trial_points t level list codewords pos p
  unfolding points_of trial_points symbol
  points_of-eq-trial_points q e ready p h =
      rw (make_impl-eq-symbol t level list codewords pos true p q e ready h) refl

  start-IsChoice :
      IsChoice
        (trial_points t level list codewords pos)
        0
        (record { min_lost_point = 0; pattern = 0 })
  start-IsChoice = record {
    own = λ h. absurd (omega arith);
    least = λ r h. absurd (omega arith);
    first = λ r h. absurd (omega arith);
  }

module _ (q : QrCodeModel) (codewords : Polynomial) where
  q-IsReady :
      cached q q.data_cache ≡ ok (some codewords)
      → IsReady q.type_number q.error_correct_level q.data_list codewords q
  q-IsReady e = record { same_type = refl; same_level = refl; same_list = refl; ready = e }

  searched :
      (pos : List ℕ)
      → get_pattern_position q.type_number ≡ ok pos
      → cached q q.data_cache ≡ ok (some codewords)
      → IsSearched q.type_number q.error_correct_level q.data_list codewords pos 8
          (get_best_mask_pattern q)
  unfolding get_best_mask_pattern
  searched pos e ready =
      best_from-IsSearched _ _ _ codewords pos 8 0 _ q e refl
        (start-IsChoice q.type_number q.error_correct_level q.data_list codewords pos)
        (q-IsReady ready)

  positions-IsMade :
      (pos : List ℕ)
      → 1 ≤ q.type_number
      → get_pattern_position q.type_number ≡ ok pos
      → All (Inside (q.type_number * 4 + 17)) pos
      → cached q q.data_cache ≡ ok (some codewords)
      → IsMade codewords q (make q)
  unfolding make and_then
  positions-IsMade pos lo e inside ready =
      let t = q.type_number in
      let level = q.error_correct_level in
      let list = q.data_list in
      let s = searched pos e ready in
      let (known, own) = s.choice.own (omega arith) in
      let points = points_of-eq-trial_points t level list codewords pos q e (q-IsReady ready) in
      record {
        pattern = s.best.pattern;
        made = symbol t level list codewords pos false s.best.pattern;
        known = known;
        result =
            >>=_ok _ s.found
              (make_impl-eq-symbol t level list codewords pos false _ s.last e s.ready known);
        drawn = make_impl-eq-symbol t level list codewords pos false _ q e (q-IsReady ready) known;
        full = symbol-IsSymbol t level list codewords pos false _ lo inside;
        least =
            λ p h. omega (arith, points s.best.pattern known, points p h, own, s.choice.least p h);
        first = λ p h.
            omega
              (arith, points s.best.pattern known, points p (omega arith), own, s.choice.first p h);
      }

-- For every type from 1 to 40 whose codewords are known, `make` ends and sets each module of the
-- symbol and none outside, with the first pattern whose trial has the fewest lost points.
pub make-IsMade :
    (q : QrCodeModel) (codewords : Polynomial)
    → 1 ≤ q.type_number
    → q.type_number ≤ 40
    → cached q q.data_cache ≡ ok (some codewords)
    → IsMade codewords q (make q)
make-IsMade q codewords lo hi ready =
    let (pos, e, inside) = get_pattern_position-Inside q.type_number lo hi in
    positions-IsMade q codewords pos lo e inside ready
