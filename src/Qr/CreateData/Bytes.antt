-- ===== src/Qr/CreateData/Bytes.antt =====
-- Bytes in a buffer, and what `write` adds.
use study_tech.Base.{ℕ, ◌+◌, ◌*◌, ◌≤◌, ◌<◌, List, [], ◌∷◌, ◌≡◌, ◌∙◌, arith, length, All}
use study_tech.Qr.BitBuffer.{BitBuffer, put}
use study_tech.Qr.BitBuffer.Laws.{IsValid}
use study_tech.Qr.BitBuffer.Put.{
  read, Extends, Extends-refl, Extends-trans, read-Extends, Adds, put-Adds,
}
use study_tech.Qr.CreateData.{write}

-- The bytes `xs` stand in `b` from bit `i` on.
abbrev pub Holds : BitBuffer → ℕ → List ℕ → Type 0
Holds b i [] = Unit
Holds b i (x ∷ xs) = (read b i 8 ≡ x) × Holds b (i + 8) xs

pub Holds-Extends :
    {b c : BitBuffer}
    → Extends b c
    → (i : ℕ) (xs : List ℕ) → i + 8 * length xs ≤ b.length
    → Holds b i xs
    → Holds c i xs
Holds-Extends e i [] h held = tt
Holds-Extends e i (x ∷ xs) h (first, rest) =
    (read-Extends e i 8 (omega arith) ∙ first, Holds-Extends e (i + 8) xs (omega arith) rest)

pub put-byte : (x : ℕ) {b : BitBuffer} → x < 256 → IsValid b → Adds b x 8 (put b x 8)
put-byte x h v = put-Adds 8 x (omega arith) (omega arith) v

-- `c` is `b` with the bytes `xs` added.
pub record AddsBytes (b : BitBuffer) (xs : List ℕ) (c : BitBuffer) : Type 0 where
  pub extends : Extends b c
  pub added : c.length ≡ b.length + 8 * length xs
  pub held : Holds c b.length xs

pub AddsBytes-cons :
    {b c d : BitBuffer} {x : ℕ} {xs : List ℕ}
    → x < 256
    → Adds b x 8 c
    → AddsBytes c xs d
    → AddsBytes b (x ∷ xs) d
AddsBytes-cons {b} {c} {d} {x} {xs} h a r = record {
  extends = Extends-trans a.extends r.extends;
  added = omega (arith, a.added, r.added);
  held = (
    read-Extends r.extends b.length 8 (omega (arith, a.added)) ∙ a.number ∙ (omega arith),
    rw a.added at r.held,
  );
}

pub AddsBytes-nil : {b : BitBuffer} → IsValid b → AddsBytes b [] b
AddsBytes-nil v = record { extends = Extends-refl v; added = omega arith; held = tt }

pub write-AddsBytes :
    (xs : List ℕ) {b : BitBuffer} → All (λ x. x < 256) xs → IsValid b → AddsBytes b xs (write xs b)
unfolding write
write-AddsBytes [] h v = AddsBytes-nil v
write-AddsBytes (x ∷ xs) (lt, h) v =
    let first = put-byte x lt v in
    AddsBytes-cons lt first (write-AddsBytes xs h first.extends.valid)
