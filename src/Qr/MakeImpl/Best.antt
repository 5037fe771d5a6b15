-- ===== src/Qr/MakeImpl/Best.antt =====
-- getBestMaskPattern chooses the first pattern with the fewest lost points.
use study_tech.Base.{
  ℕ, zero, suc, ◌+◌, ◌*◌, ◌≤◌, ◌<◌, ◌≡◌, refl, sym, arith, inl, inr, true, false, ◌||◌, ◌==◌, ltb,
  List, Option, some, Bool-cases, ==_iff,
}
use study_tech.Qr.Result.{Result, ok}
use study_tech.Qr.Polynomial.{Polynomial}
use study_tech.Qr.CreateData.{Segment}
use study_tech.Qr.LostPoint.{get_lost_point}
use study_tech.Qr.Modules.Position.{get_pattern_position}
use study_tech.Qr.MakeImpl.{QrCodeModel, Choice, better, and_then, best_from}
use study_tech.Qr.MakeImpl.Full.{IsReady, symbol, symbol-IsReady, make_impl-eq-symbol}

le_of_lt : (a b : ℕ) → a < b → a ≤ b
le_of_lt a b h = omega arith

module _ (points : ℕ → ℕ) where
  -- The choice after the patterns below `i`.
  pub record IsChoice (i : ℕ) (c : Choice) : Type 0 where
    pub own : 1 ≤ i → (c.pattern < i) × (c.min_lost_point ≡ points c.pattern)
    pub least : (r : ℕ) → r < i → c.min_lost_point ≤ points r
    pub first : (r : ℕ) → r < c.pattern → c.min_lost_point < points r

  up_to :
      (i m : ℕ)
      → ((r : ℕ) → r < i → m ≤ points r)
      → m ≤ points i
      → (r : ℕ) → r < i + 1
      → m ≤ points r
  up_to i m below here r h = elim (Bool-cases (r == i)) [
    | inl e ↦ rw ((==_iff r i).0 e) here
    | inr e ↦ below r (ground arith)
  ]

  beaten :
      (i m r : ℕ)
      → ((i == 0) || ltb (points i) m) ≡ true
      → r < i
      → m ≤ points r
      → points i < points r
  beaten i m r e h l = ground arith

  unbeaten : (i m : ℕ) → ((i == 0) || ltb (points i) m) ≡ false → (1 ≤ i) × (m ≤ points i)
  unbeaten i m e = ground arith

  IsChoice-at : {i k : ℕ} (c : Choice) → i ≡ k → IsChoice i c → IsChoice k c
  IsChoice-at c e h = rw (sym e) h

  better-IsChoice : (i : ℕ) (c : Choice) → IsChoice i c → IsChoice (i + 1) (better i (points i) c)
  unfolding better
  better-IsChoice i c h = elim (Bool-cases ((i == 0) || ltb (points i) c.min_lost_point)) [
    | inl e ↦
        let below : (r : ℕ) → r < i → points i < points r =
          λ r l. beaten i c.min_lost_point r e l (h.least r l) in
        rw e (record {
          own = λ l. (omega arith, refl);
          least = up_to i (points i) (λ r l. le_of_lt _ _ (below r l)) (omega arith);
          first = below;
        })
    | inr e ↦
        let (pos, least) = unbeaten i c.min_lost_point e in
        let (inside, own) = h.own pos in
        rw e (record {
          own = λ l. (omega arith, own);
          least = up_to i c.min_lost_point h.least least;
          first = h.first;
        })
  ]

module _ (t level : ℕ) (list : List Segment) (codewords : Polynomial) (pos : List ℕ) where
  -- The lost points of the trial symbol with a pattern.
  unfoldable pub trial_points : ℕ → ℕ
  trial_points p = get_lost_point (t * 4 + 17) (symbol t level list codewords pos true p).modules

  pub record IsSearched (i : ℕ) (r : Result (Option (Choice × QrCodeModel))) : Type 0 where
    pub best : Choice
    pub last : QrCodeModel
    pub found : r ≡ ok (some (best, last))
    pub choice : IsChoice trial_points i best
    pub ready : IsReady t level list codewords last

  pub best_from-IsSearched :
      (left i : ℕ) (c : Choice) (q : QrCodeModel)
      → get_pattern_position t ≡ ok pos
      → i + left ≡ 8
      → IsChoice trial_points i c
      → IsReady t level list codewords q
      → IsSearched 8 (best_from left i c q)
  unfolding best_from and_then symbol trial_points
  best_from-IsSearched zero i c q e h choice ready = record {
    best = c;
    last = q;
    found = refl;
    choice = IsChoice-at trial_points c (omega arith) choice;
    ready = ready;
  }
  best_from-IsSearched (suc left) i c q e h choice ready =
      rw (make_impl-eq-symbol t level list codewords pos true i q e ready (omega arith)) (
        best_from-IsSearched left (i + 1) _ _ e (omega arith)
          (better-IsChoice trial_points i c choice)
          (symbol-IsReady t level list codewords pos true i))
