-- ===== src/Qr/MakeImpl/Full.antt =====
-- What makeImpl makes of a model whose codewords are known.
use study_tech.Base.{
  ℕ, zero, suc, ◌+◌, ◌*◌, ◌≤◌, ◌<◌, ◌≡◌, refl, ap, arith, ◌⊎◌, ◌∙◌, Bool, true, false, List, some,
  All,
}
use study_tech.Qr.Result.{Result, ok, err, >>=_ok}
use study_tech.Qr.Polynomial.{Polynomial}
use study_tech.Qr.CreateData.{Segment}
use study_tech.Qr.Modules.{is_unset}
use study_tech.Qr.Modules.Position.{Inside, get_pattern_position}
use study_tech.Qr.MapData.{get_mask, map_data}
use study_tech.Qr.MakeImpl.{QrCodeModel, cached, patterns, mapped, make_impl}
use study_tech.Qr.MakeImpl.Square.{whole-Keeps, whole_set}

chosen : Result (ℕ → ℕ → Bool) → ℕ → ℕ → Bool
chosen (ok mask) i j = mask i j
chosen (err e) i j = false

-- getMask at a pattern that it knows.
unfoldable pub mask_of : ℕ → ℕ → ℕ → Bool
unfolding chosen
mask_of pattern = chosen (get_mask pattern)

pub get_mask-eq-mask_of : (p : ℕ) → p < 8 → get_mask p ≡ ok (mask_of p)
unfolding get_mask mask_of chosen
get_mask-eq-mask_of zero h = refl
get_mask-eq-mask_of (suc zero) h = refl
get_mask-eq-mask_of (suc (suc zero)) h = refl
get_mask-eq-mask_of (suc (suc (suc zero))) h = refl
get_mask-eq-mask_of (suc (suc (suc (suc zero)))) h = refl
get_mask-eq-mask_of (suc (suc (suc (suc (suc zero))))) h = refl
get_mask-eq-mask_of (suc (suc (suc (suc (suc (suc zero)))))) h = refl
get_mask-eq-mask_of (suc (suc (suc (suc (suc (suc (suc zero))))))) h = refl
get_mask-eq-mask_of (suc (suc (suc (suc (suc (suc (suc (suc p)))))))) h = absurd (omega arith)

-- A symbol of type `t` with codewords: the modules inside are set, and none outside.
pub record IsSymbol (t : ℕ) (codewords : Polynomial) (q : QrCodeModel) : Type 0 where
  pub count : q.module_count ≡ t * 4 + 17
  pub cache : q.data_cache ≡ some codewords
  pub filled :
      (i j : ℕ) → i < q.module_count → j < q.module_count → is_unset (q.modules i j) ≡ false
  pub outside :
      (i j : ℕ) → (q.module_count ≤ i) ⊎ (q.module_count ≤ j) → is_unset (q.modules i j) ≡ true

module _ (t level : ℕ) (list : List Segment) (codewords : Polynomial) where
  -- A model from which makeImpl gets these codewords.
  pub record IsReady (q : QrCodeModel) : Type 0 where
    pub same_type : q.type_number ≡ t
    pub same_level : q.error_correct_level ≡ level
    pub same_list : q.data_list ≡ list
    pub ready : cached q q.data_cache ≡ ok (some codewords)

  -- The model that makeImpl leaves.
  unfoldable pub symbol : List ℕ → Bool → ℕ → QrCodeModel
  unfolding mask_of
  symbol pos test pattern = record {
    type_number = t;
    error_correct_level = level;
    modules = map_data codewords (mask_of pattern) (t * 4 + 17) (patterns t level pos test pattern);
    module_count = t * 4 + 17;
    data_cache = some codewords;
    data_list = list;
  }

  pub symbol-IsReady :
      (pos : List ℕ) (test : Bool) (pattern : ℕ) → IsReady (symbol pos test pattern)
  unfolding symbol cached
  symbol-IsReady pos test pattern = record {
    same_type = refl;
    same_level = refl;
    same_list = refl;
    ready = refl;
  }

  mapped-eq-symbol :
      (pos : List ℕ) (test : Bool) (pattern : ℕ) (q : QrCodeModel)
      → IsReady q
      → pattern < 8
      → mapped q pos test pattern (some codewords) ≡ ok (some (symbol pos test pattern))
  unfolding mapped symbol
  mapped-eq-symbol pos test pattern q r h =
      rw (get_mask-eq-mask_of pattern h, r.same_type, r.same_level, r.same_list) refl

  pub make_impl-eq-symbol :
      (pos : List ℕ) (test : Bool) (pattern : ℕ) (q : QrCodeModel)
      → get_pattern_position t ≡ ok pos
      → IsReady q
      → pattern < 8
      → make_impl test pattern q ≡ ok (some (symbol pos test pattern))
  unfolding make_impl
  make_impl-eq-symbol pos test pattern q e r h =
      >>=_ok _ (ap get_pattern_position r.same_type ∙ e)
        (>>=_ok _ r.ready (mapped-eq-symbol pos test pattern q r h))

  pub symbol-IsSymbol :
      (pos : List ℕ) (test : Bool) (pattern : ℕ)
      → 1 ≤ t
      → All (Inside (t * 4 + 17)) pos
      → IsSymbol t codewords (symbol pos test pattern)
  unfolding symbol
  symbol-IsSymbol pos test pattern lo inside = record {
    count = refl;
    cache = refl;
    filled = whole_set t pos lo inside level test pattern codewords (mask_of pattern);
    outside = λ i j h.
        rw
          ((whole-Keeps t pos lo inside level test pattern codewords (mask_of pattern)).stays i j h)
          refl;
  }
