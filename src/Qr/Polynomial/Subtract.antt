-- ===== src/Qr/Polynomial/Subtract.antt =====
-- The subtraction of a multiple of the divisor in `mod`: it throws nothing, and leaves bytes.
use study_tech.Base.{
  ℕ, zero, suc, ◌+◌, ◌/◌, ◌≤◌, ◌<◌, ◌≡◌, refl, arith, ◌∙◌, bit_xor, Bool, true, false, ◌&&◌, ◌==◌,
  ltb, List, [], ◌∷◌, Option, none, some, All, length, get_or, set, all_below, all_below-at, ==_iff,
  &&-eq-true, ltb→lt, length-set, get_or-set_ne,
}
use study_tech.Base.Int.{ℤ}
use study_tech.Qr.Result.{Result, ok, err}
use study_tech.Qr.Field.{octet, glog, gexp, gexp_pos, raise, lower}
use study_tech.Qr.Field.Table.{exp_table}
use study_tech.Qr.Polynomial.{Polynomial, xor_at, difference, shifted, subtract}
use study_tech.Qr.Polynomial.Generator.{Nonzero}

-- A byte, or `undefined`, which a bit operation reads as 0.
abbrev pub IsByte : Option ℕ → Type 0
IsByte c = octet c < 256

xor_table : all_below 256 (λ a. all_below 256 (λ b. ltb (bit_xor a b) 256)) ≡ true
unfolding all_below
xor_table = refl

pub xor_byte : (a b : ℕ) → a < 256 → b < 256 → bit_xor a b < 256
xor_byte a b ah bh =
    ltb→lt _ 256
      (all_below-at 256 (λ b. ltb (bit_xor a b) 256) b (all_below-at 256 _ a xor_table ah) bh)

all_small : List ℕ → Bool
all_small [] = true
all_small (x ∷ xs) = ltb x 256 && all_small xs

small_at : (xs : List ℕ) (i : ℕ) → all_small xs ≡ true → get_or xs i 0 < 256
unfolding all_small
small_at [] i h = omega arith
small_at (x ∷ xs) zero h = ltb→lt x 256 (&&-eq-true _ _ h).0
small_at (x ∷ xs) (suc i) h = small_at xs i (&&-eq-true _ _ h).1

exp_small : all_small exp_table ≡ true
unfolding all_small
exp_small = refl

pub exp_table-small : (i : ℕ) → get_or exp_table i 0 < 256
exp_table-small i = small_at exp_table i exp_small

gexp_pos-IsByte : (n : ℤ) → IsByte (gexp_pos n)
unfolding gexp_pos octet
gexp_pos-IsByte (ℤ.pos n) = small_at exp_table (lower (n / 255) n) exp_small
gexp_pos-IsByte (ℤ.negsuc n) = omega arith

gexp-IsByte : (s : Option ℤ) → IsByte (gexp s)
unfolding gexp octet
gexp-IsByte none = omega arith
gexp-IsByte (some (ℤ.pos n)) = gexp_pos-IsByte (ℤ.pos n)
gexp-IsByte (some (ℤ.negsuc n)) = gexp_pos-IsByte (raise (n / 255 + 1) (ℤ.negsuc n))

-- The logarithm of `x`, and what `mod` makes of a first coefficient `x`.
cancels : ℕ → Result (Option ℕ) → Bool
unfolding octet gexp shifted difference
cancels x (ok (some l)) =
    bit_xor x (octet (gexp (shifted (some 0) (difference (some l) (some 0))))) == 0
cancels x (ok none) = false
cancels x (err e) = false

cancel_at : ℕ → Bool
unfolding glog cancels
cancel_at x = cancels (suc x) (glog (some (suc x)))

cancel_table : all_below 255 cancel_at ≡ true
unfolding all_below cancel_at
cancel_table = refl

pub record HasLog (x : ℕ) : Type 0 where
  pub log : ℕ
  pub is_log : glog (some x) ≡ ok (some log)
  pub cancel : bit_xor x (octet (gexp (shifted (some 0) (difference (some log) (some 0))))) ≡ 0

cancels_sound : (x : ℕ) → cancels x (glog (some x)) ≡ true → HasLog x
unfolding cancels
cancels_sound x h = go (glog (some x)) refl h
  where
    go : (r : Result (Option ℕ)) → glog (some x) ≡ r → cancels x r ≡ true → HasLog x
    go (ok (some l)) e h = record { log = l; is_log = e; cancel = (==_iff _ 0).0 h }
    go (ok none) e h = cc
    go (err d) e h = cc

pub has_log : (x : ℕ) → 1 ≤ x → x < 256 → HasLog x
unfolding cancel_at
has_log zero lo hi = absurd (omega arith)
has_log (suc x) lo hi =
    cancels_sound (suc x) (all_below-at 255 cancel_at x cancel_table (omega arith))

pub get_or-IsByte : (a : Polynomial) (i : ℕ) → All IsByte a → octet (get_or a i none) < 256
unfolding octet
get_or-IsByte [] i h = omega arith
get_or-IsByte (c ∷ cs) zero (h, hs) = h
get_or-IsByte (c ∷ cs) (suc i) (h, hs) = get_or-IsByte cs i hs

set-IsByte :
    (a : Polynomial) (i : ℕ) (c : Option ℕ) → All IsByte a → IsByte c → All IsByte (set a i c)
set-IsByte [] i c h hc = tt
set-IsByte (x ∷ xs) zero c (h, hs) hc = (hc, hs)
set-IsByte (x ∷ xs) (suc i) c (h, hs) hc = (h, set-IsByte xs i c hs hc)

pub xor_at-IsByte :
    (a : Polynomial) (i : ℕ) (c : Option ℕ) → All IsByte a → IsByte c → All IsByte (xor_at a i c)
unfolding xor_at octet
xor_at-IsByte a i c h hc = set-IsByte a i _ h (xor_byte _ _ (get_or-IsByte a i h) hc)

-- What `subtract` leaves from element `i` on.
pub record IsSubtracted (i : ℕ) (a : Polynomial) (r : Result Polynomial) : Type 0 where
  pub num : Polynomial
  pub result : r ≡ ok num
  pub same_length : length num ≡ length a
  pub bytes : All IsByte num
  pub before : (j : ℕ) → j < i → get_or num j none ≡ get_or a j none

IsSubtracted-step :
    (i : ℕ) (a : Polynomial) (v : Option ℕ) (r : Result Polynomial)
    → IsSubtracted (i + 1) (xor_at a i v) r
    → IsSubtracted i a r
unfolding xor_at
IsSubtracted-step i a v r s = record {
  num = s.num;
  result = s.result;
  same_length = s.same_length ∙ length-set a i _;
  bytes = s.bytes;
  before =
      λ j lt. s.before j (omega arith) ∙ get_or-set_ne a i j _ none (λ e. absurd (omega arith));
}

pub subtract-IsSubtracted :
    (ratio : Option ℤ) (es : Polynomial) (i : ℕ) (a : Polynomial)
    → All Nonzero es
    → All IsByte a
    → IsSubtracted i a (subtract ratio es i a)
unfolding subtract
subtract-IsSubtracted ratio [] i a n h = record {
  num = a;
  result = refl;
  same_length = refl;
  bytes = h;
  before = λ j lt. refl;
}
subtract-IsSubtracted ratio (e ∷ es) i a ((x, is, lo, hi), ns) h =
    let log = has_log x lo hi in
    let v = gexp (shifted (some log.log) ratio) in
    rw (is, log.is_log)
      (IsSubtracted-step i a v _ (
        subtract-IsSubtracted ratio es (i + 1) (xor_at a i v) ns
          (xor_at-IsByte a i v h (gexp-IsByte (shifted (some log.log) ratio)))))
