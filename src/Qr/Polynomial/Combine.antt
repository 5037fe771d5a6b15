-- ===== src/Qr/Polynomial/Combine.antt =====
-- One call of `mod` as a whole: it takes a multiple of the divisor away.
use study_tech.Base.{
  ℕ, zero, suc, ◌+◌, ◌≤◌, ◌<◌, bit_xor, ◌≡◌, refl, sym, ap, ap₂, ◌∙◌, arith, [], ◌∷◌, ◌++◌, Option,
  none, some, All, length, get_or, set, leb, true, false,
}
use study_tech.Base.Int.{ℤ, pos, sub_ℕ, ◌+ℤ◌}
use study_tech.Qr.Result.{ok, ◌>>=◌, >>=_ok}
use study_tech.Qr.Field.{octet, glog, gexp, sum}
use study_tech.Qr.Field.Product.{product, by_logs, by_logs-eq-product}
use study_tech.Qr.Field.Laws.{product-zero}
use study_tech.Qr.Polynomial.{
  Polynomial, new_polynomial, xor_at, difference, shifted, subtract, reduce,
}
use study_tech.Qr.Polynomial.Generator.{Nonzero}
use study_tech.Qr.Polynomial.Subtract.{IsByte, HasLog, has_log}
use study_tech.Qr.Polynomial.Reduce.{reduce_ratio, glog-none, leads_zero}
use study_tech.Qr.Polynomial.Value.{combine}

set-append :
    (pre cs : Polynomial) (c v : Option ℕ) → set (pre ++ c ∷ cs) (length pre) v ≡ pre ++ v ∷ cs
set-append [] cs c v = refl
set-append (p ∷ pre) cs c v = ap (λ t. p ∷ t) (set-append pre cs c v)

pub get_or-append :
    (pre cs : Polynomial) (c d : Option ℕ) → get_or (pre ++ c ∷ cs) (length pre) d ≡ c
get_or-append [] cs c d = refl
get_or-append (p ∷ pre) cs c d = get_or-append pre cs c d

pub append_one : (pre cs : Polynomial) (v : Option ℕ) → (pre ++ v ∷ []) ++ cs ≡ pre ++ v ∷ cs
append_one [] cs v = refl
append_one (p ∷ pre) cs v = ap (λ t. p ∷ t) (append_one pre cs v)

pub length-append_one : (pre : Polynomial) (v : Option ℕ) → length (pre ++ v ∷ []) ≡ length pre + 1
length-append_one [] v = refl
length-append_one (p ∷ pre) v = omega (arith, length-append_one pre v)

-- The power of a logarithm and `ratio` is the product with `c`.
abbrev pub Multiplies : Option ℤ → ℕ → Type 0
Multiplies ratio c =
    (e l : ℕ)
    → 1 ≤ e
    → e < 256
    → glog (some e) ≡ ok (some l)
    → octet (gexp (shifted (some l) ratio)) ≡ product e c

xor_at-append :
    (pre cs : Polynomial) (c v : Option ℕ)
    → xor_at (pre ++ c ∷ cs) (length pre) v ≡ (pre ++ some (bit_xor (octet c) (octet v)) ∷ []) ++ cs
unfolding xor_at
xor_at-append pre cs c v =
    ap (λ (t : Option ℕ). set (pre ++ c ∷ cs) (length pre) (some (bit_xor (octet t) (octet v))))
      (get_or-append pre cs c none)
    ∙ set-append pre cs c _
    ∙ sym (append_one pre cs _)

octet_of : (x : ℕ) (e : Option ℕ) → e ≡ some x → x ≡ octet e
unfolding octet
octet_of x e is = rw is refl

subtract-combine :
    (ratio : Option ℤ) (k : ℕ)
    → Multiplies ratio k
    → (es : Polynomial) → All Nonzero es
    → (pre cs : Polynomial) → length es ≤ length cs
    → subtract ratio es (length pre) (pre ++ cs) ≡ ok (pre ++ combine k es cs)
unfolding subtract combine
subtract-combine ratio k m [] n pre cs h = refl
subtract-combine ratio k m (e ∷ es) n pre [] h = absurd (omega arith)
subtract-combine ratio k m (e ∷ es) ((x, is, lo, hi), ns) pre (c ∷ cs) h =
    let log = has_log x lo hi in
    let v = gexp (shifted (some log.log) ratio) in
    let one = some (bit_xor (octet c) (octet v)) in
    >>=_ok _ (ap glog is ∙ log.is_log) (
      ap₂ (subtract ratio es) (sym (length-append_one pre one)) (xor_at-append pre cs c v)
      ∙ subtract-combine ratio k m es ns (pre ++ one ∷ []) cs (omega arith)
      ∙ ap ok (
          append_one pre (combine k es cs) one
          ∙ ap (λ (t : ℕ). pre ++ some (bit_xor (octet c) t) ∷ combine k es cs)
              (m x log.log lo hi log.is_log ∙ ap (λ (t : ℕ). product t k) (octet_of x e is))))

none-Multiplies : Multiplies none 0
unfolding shifted gexp octet
none-Multiplies e l lo hi g = sym (product-zero e)

sub_ℕ-zero : (a : ℕ) → sub_ℕ a 0 ≡ pos a
sub_ℕ-zero a = let e : leb 0 a ≡ true = ground arith in rw e (ap pos (omega arith))

shifted-difference :
    (l x : ℕ) → shifted (some l) (difference (some x) (some 0)) ≡ sum (some l) (some x)
unfolding shifted difference sum ◌+ℤ◌
shifted-difference l x =
    ap (λ (t : ℤ). some (pos l +ℤ t)) (sub_ℕ-zero x) ∙ ap some (sub_ℕ-zero (l + x))

-- The logarithms of `e` and `x`, and what the code makes of them.
by_logs-eq-sum :
    (e x l k : ℕ)
    → glog (some e) ≡ ok (some l)
    → glog (some x) ≡ ok (some k)
    → by_logs e x ≡ ok (gexp (sum (some l) (some k)))
unfolding by_logs
by_logs-eq-sum e x l k p q = >>=_ok _ p (>>=_ok _ q refl)

octet-ok : (o : Option ℕ) (n : ℕ) → ok o ≡ ok (some n) → octet o ≡ n
unfolding octet
octet-ok o n e = let same : o ≡ some n = cc in rw same refl

log-Multiplies :
    (x : ℕ) → 1 ≤ x → x < 256 → (log : HasLog x) → Multiplies (difference (some log.log) (some 0)) x
log-Multiplies x xlo xhi log e l lo hi g =
    ap (λ (t : Option ℤ). octet (gexp t)) (shifted-difference l log.log)
    ∙ octet-ok _ (product e x)
        (sym (by_logs-eq-sum e x l log.log g log.is_log) ∙ by_logs-eq-product e x lo hi xlo xhi)

module _ (rest : Polynomial) (nonzero : All Nonzero rest) where
  combined : Option ℕ → Polynomial → Polynomial
  combined c cs = new_polynomial (combine (octet c) (some 1 ∷ rest) (c ∷ cs)) 0

  reduce-eq :
      (c : Option ℕ) (cs : Polynomial) (x : Option ℕ)
      → glog c ≡ ok x
      → length rest ≤ length cs
      → Multiplies (difference x (some 0)) (octet c)
      → reduce (c ∷ cs) (some 1 ∷ rest) ≡ ok (combined c cs)
  unfolding combined
  reduce-eq c cs x e h m =
      reduce_ratio rest nonzero c cs x e
      ∙ ap (λ r. r >>= λ num. ok (new_polynomial num 0))
          (subtract-combine (difference x (some 0)) (octet c) m (some 1 ∷ rest)
            ((1, refl, omega arith, omega arith), nonzero) [] (c ∷ cs) (omega arith))

  pub reduce-combine :
      (c : Option ℕ) (cs : Polynomial)
      → leads_zero (c ∷ cs) ≡ false
      → IsByte c
      → length rest ≤ length cs
      → reduce (c ∷ cs) (some 1 ∷ rest)
        ≡ ok (new_polynomial (combine (octet c) (some 1 ∷ rest) (c ∷ cs)) 0)
  unfolding combined leads_zero octet difference
  reduce-combine none cs l b h = reduce-eq none cs none glog-none h none-Multiplies
  reduce-combine (some zero) cs l b h = cc
  reduce-combine (some (suc x)) cs l b h =
      let log = has_log (suc x) (omega arith) b in
      reduce-eq (some (suc x)) cs (some log.log) log.is_log h
        (log-Multiplies (suc x) (omega arith) b log)
