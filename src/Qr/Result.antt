-- ===== src/Qr/Result.antt =====
-- What the code throws, and the results of code that may throw.
use study_tech.Base.{ℕ, ◌≡◌}

pub data Error : Type 0 where
  -- new Error("code length overflow. (" + bits + ">" + capacity + ")")
  code_length_overflow : ℕ → ℕ → Error
  -- new Error("bad rs block @ typeNumber:" + typeNumber + "/errorCorrectLevel:" + level)
  bad_rs_block : ℕ → ℕ → Error
  -- new Error("mode:" + mode), new Error("type:" + type), new Error("bad maskPattern:" + pattern)
  bad_mode : ℕ → Error
  bad_type : ℕ → Error
  bad_mask_pattern : ℕ → Error
  -- new Error("glog(" + n + ")")
  bad_glog : ℕ → Error
  -- new Error("Too long data")
  too_long_data : Error
  -- new Error(row + "," + col)
  out_of_bounds : ℕ → ℕ → Error
  -- thrown by the language: a property of `undefined`, and a lone surrogate in `encodeURI`
  type_error : Error
  uri_error : Error

pub data Result {ℓ} (A : Type ℓ) : Type ℓ where
  ok : A → Result A
  err : Error → Result A

infixl 5 ◌>>=◌
abbrev pub ◌>>=◌ {ℓ κ} : {A : Type ℓ} {B : Type κ} → Result A → (A → Result B) → Result B
ok a >>= f = f a
err e >>= f = err e

pub >>=_ok {ℓ κ} :
    {A : Type ℓ} {B : Type κ} {r : Result A} {a : A} {b : Result B} (f : A → Result B)
    → r ≡ ok a
    → f a ≡ b
    → (r >>= f) ≡ b
>>=_ok f e h = rw e h
