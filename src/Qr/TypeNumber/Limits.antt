-- ===== src/Qr/TypeNumber/Limits.antt =====
-- What _getTypeNumber chooses, and the limit table against the block table.
use study_tech.Base.{
  ℕ, zero, suc, ◌+◌, ◌-◌, ◌*◌, ◌/◌, ◌≤◌, ◌<◌, List, [], ◌∷◌, ◌≡◌, refl, ◌⊎◌, inl, inr, arith,
  length, get_or, ltb, leb, ◌==◌, ◌&&◌, ◌||◌, true, false, Bool, all_below, all_below-at, ==_iff,
  leb→le, Bool-cases,
}
use study_tech.Qr.Result.{Result, ok, err, type_error}
use study_tech.Qr.RsBlock.{RsBlock, get_rs_blocks, level_h}
use study_tech.Qr.RsBlock.Capacity.{data_of, or_right, elsewhere}
use study_tech.Qr.TypeNumber.{limit, type_loop, type_of_length, get_length_in_bits, mode_8bit_byte}
use study_tech.Qr.TypeNumber.Table.{limit_length}

-- The table's limit at a type and a level.
unfoldable pub limit_at : ℕ → ℕ → ℕ
unfolding limit
limit_at t level = limit (get_or limit_length (t - 1) []) level

module _ (level len : ℕ) (four : level < 4) where
  -- The loop over `rows` from type `n` stops at type `t`.
  record Stops (rows : List (List ℕ)) (n t : ℕ) : Type 0 where
    k : ℕ
    place : t ≡ n + k
    inside : k < length rows
    fits : len ≤ limit (get_or rows k []) level
    before : (j : ℕ) → j < k → limit (get_or rows j []) level < len

  abbrev Fails : List (List ℕ) → Type 0
  Fails rows = (j : ℕ) → j < length rows → limit (get_or rows j []) level < len

  Stops-cons :
      {row : List ℕ} {rows : List (List ℕ)} {n t : ℕ}
      → limit row level < len
      → Stops rows (n + 1) t
      → Stops (row ∷ rows) n t
  Stops-cons {row} {rows} h s = record {
    k = suc s.k;
    place = omega (arith, s.place);
    inside = omega (arith, s.inside);
    fits = s.fits;
    before = before_suc;
  }
    where
      before_suc : (j : ℕ) → j < suc s.k → limit (get_or (row ∷ rows) j []) level < len
      before_suc zero p = h
      before_suc (suc j) p = s.before j (omega arith)

  Fails-cons :
      (row : List ℕ) (rows : List (List ℕ))
      → limit row level < len
      → Fails rows
      → Fails (row ∷ rows)
  Fails-cons row rows h f zero p = h
  Fails-cons row rows h f (suc j) p = f j (omega arith)

  loop_lem :
      (rows : List (List ℕ)) (n : ℕ)
      → ((t : ℕ) × (type_loop level len rows n ≡ ok t) × Stops rows n t)
        ⊎ ((type_loop level len rows n ≡ err type_error) × Fails rows)
  unfolding type_loop
  loop_lem [] n = inr (ground arith, λ j p. absurd (omega arith))
  loop_lem (row ∷ rows) n = elim (Bool-cases (leb len (limit row level))) [
    | inl here ↦ inl (
      n,
      rw here,
      record {
        k = 0;
        place = omega arith;
        inside = omega arith;
        fits = leb→le _ _ here;
        before = λ j p. absurd (omega arith);
      },
    )
    | inr later ↦ elim (loop_lem rows (n + 1)) [
      | inl (t, e, s) ↦ inl (t, rw (later, e) refl, Stops-cons (ground arith) s)
      | inr (e, f) ↦ inr (rw (later, e) refl, Fails-cons row rows (ground arith) f)
    ]
  ]

-- `t` is the smallest type number whose limit at the level is not below `len`.
pub record IsSmallest (level len t : ℕ) : Type 0 where
  pub low : 1 ≤ t
  pub high : t ≤ 40
  pub holds : len ≤ limit_at t level
  pub least : (s : ℕ) → 1 ≤ s → s < t → limit_at s level < len

-- At each of the four levels a length either gets the smallest type that holds it, or is over the
-- limit of every type: then a TypeError is thrown, and never "Too long data".
pub type_of_length_lem :
    (level len : ℕ)
    → level < 4
    → ((t : ℕ) × (type_of_length level len ≡ ok t) × IsSmallest level len t)
      ⊎ ((type_of_length level len ≡ err type_error)
          × ((t : ℕ) → 1 ≤ t → t ≤ 40 → limit_at t level < len))
unfolding type_of_length limit_at
type_of_length_lem level len four = elim (loop_lem level len four limit_length 1) [
  | inl (t, e, s) ↦
      let small : ltb 40 t ≡ false = ground (arith, s.place, s.inside) in
      inl (
        t,
        rw (e, small),
        record {
          low = omega (arith, s.place);
          high = omega (arith, s.place, s.inside);
          holds = let e : t - 1 ≡ s.k = omega (arith, s.place) in rw e s.fits;
          least = λ u lo lt. s.before (u - 1) (omega (arith, s.place));
        },
      )
  | inr (e, f) ↦ inr (rw e, λ t lo hi. f (t - 1) (omega arith))
]

-- The bytes that fit into the data codewords behind the mode and a length of `bits` bits.
unfoldable pub byte_capacity : List RsBlock → ℕ → ℕ
byte_capacity bs bits = (8 * data_of bs - 4 - bits) / 8

pub capacity_bits :
    (bs : List RsBlock) (bits len : ℕ)
    → 1 ≤ byte_capacity bs bits
    → len ≤ byte_capacity bs bits
    → 4 + bits + 8 * len ≤ data_of bs * 8
unfolding byte_capacity
capacity_bits bs bits len pos h = omega arith

judge : ℕ → Result ℕ → Result (List RsBlock) → Bool
unfolding byte_capacity
judge lim (ok bits) (ok bs) = lim == byte_capacity bs bits
judge lim _ _ = false

judge_sound :
    (lim : ℕ) (r : Result ℕ) (q : Result (List RsBlock))
    → judge lim r q ≡ true
    → (bits : ℕ) × (bs : List RsBlock) × (r ≡ ok bits) × (q ≡ ok bs) × (lim ≡ byte_capacity bs bits)
unfolding judge
judge_sound lim (ok bits) (ok bs) h = (bits, bs, refl, refl, (==_iff _ _).0 h)
judge_sound lim (ok bits) (err e) h = cc
judge_sound lim (err e) q h = cc

agrees : ℕ → ℕ → Bool
unfolding judge limit_at get_length_in_bits get_rs_blocks data_of
agrees t level =
    judge (limit_at t level) (get_length_in_bits mode_8bit_byte t) (get_rs_blocks t level)

table :
    all_below 40 (λ t. all_below 4 (λ level. (t == 14 && level == 2) || agrees (suc t) level))
    ≡ true
unfolding all_below agrees
table = refl

-- The limit of each type and level is exactly what its blocks hold, but at type 15 and level H.
pub limit_at-eq-byte_capacity :
    (t level : ℕ)
    → 1 ≤ t
    → t ≤ 40
    → level < 4
    → ¬ ((t ≡ 15) × (level ≡ level_h))
    → (bits : ℕ) × (bs : List RsBlock) × (get_length_in_bits mode_8bit_byte t ≡ ok bits)
      × (get_rs_blocks t level ≡ ok bs)
      × (limit_at t level ≡ byte_capacity bs bits)
unfolding agrees
limit_at-eq-byte_capacity zero level lo hi l ne = absurd (omega arith)
limit_at-eq-byte_capacity (suc t) level lo hi l ne =
    judge_sound _ _ _ (
      or_right _ _ (elsewhere t level ne) (all_below-at 4 _ level (all_below-at 40 _ t table hi) l))
