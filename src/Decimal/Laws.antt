-- ===== src/Decimal/Laws.antt =====
-- The digits of a number determine it, and hold no dash.
use Prim.Native.Nat.{ℕ, zero, suc, ◌+◌, ◌*◌, ◌-◌, ◌/◌, ◌%◌, ◌<◌}
use Prim.Native.Char.{code}
use Prim.Native.String.{String, [], ◌∷◌}
use mathlib.Core.Path.{◌≡◌, ap, ◌∙◌}
use mathlib.Core.Logic.{◌≢◌, inl, inr}
use native.Mathlib.Omega.{arith}
use yanta.Prelude.{ltb, Bool-cases}
use yanta.Decimal.{digit, show_before, show}

code-digit : (d : ℕ) → d < 10 → code (digit d) ≡ d + 48
code-digit zero h = omega arith
code-digit (suc zero) h = omega arith
code-digit (suc (suc zero)) h = omega arith
code-digit (suc (suc (suc zero))) h = omega arith
code-digit (suc (suc (suc (suc zero)))) h = omega arith
code-digit (suc (suc (suc (suc (suc zero))))) h = omega arith
code-digit (suc (suc (suc (suc (suc (suc zero)))))) h = omega arith
code-digit (suc (suc (suc (suc (suc (suc (suc zero))))))) h = omega arith
code-digit (suc (suc (suc (suc (suc (suc (suc (suc zero)))))))) h = omega arith
code-digit (suc (suc (suc (suc (suc (suc (suc (suc (suc zero))))))))) h = omega arith
code-digit (suc (suc (suc (suc (suc (suc (suc (suc (suc (suc n)))))))))) h = absurd (omega arith)

-- The number that a text of digits stands for, behind `acc`.
read_from : ℕ → String → ℕ
read_from acc [] = acc
read_from acc (c ∷ s) = read_from (acc * 10 + (code c - 48)) s

pub read : String → ℕ
read s = read_from 0 s

read-show_before :
    (fuel n : ℕ) (acc : String) → n < fuel → read_from 0 (show_before fuel n acc) ≡ read_from n acc
unfolding read_from show_before
read-show_before zero n acc h = absurd (omega arith)
read-show_before (suc fuel) n acc h = elim (Bool-cases (ltb n 10)) [
  | inl one ↦ rw one (ap (λ k. read_from k acc) (omega (arith, code-digit n (ground arith))))
  | inr more ↦ rw more (
      read-show_before fuel (n / 10) (digit (n % 10) ∷ acc) (ground arith)
      ∙ ap (λ k. read_from k acc) (omega (arith, code-digit (n % 10) (omega arith))))
]

-- Reading back the printed digits gives the number.
pub read-show : (n : ℕ) → read (show n) ≡ n
unfolding read show read_from
read-show n = read-show_before (suc n) n [] (omega arith)

abbrev pub NoDash : String → Type 0
NoDash [] = Unit
NoDash (c ∷ s) = (code c ≢ b'-') × NoDash s

digit-ne-dash : (n : ℕ) → code (digit n) ≢ b'-'
digit-ne-dash zero = omega arith
digit-ne-dash (suc zero) = omega arith
digit-ne-dash (suc (suc zero)) = omega arith
digit-ne-dash (suc (suc (suc zero))) = omega arith
digit-ne-dash (suc (suc (suc (suc zero)))) = omega arith
digit-ne-dash (suc (suc (suc (suc (suc zero))))) = omega arith
digit-ne-dash (suc (suc (suc (suc (suc (suc zero)))))) = omega arith
digit-ne-dash (suc (suc (suc (suc (suc (suc (suc zero))))))) = omega arith
digit-ne-dash (suc (suc (suc (suc (suc (suc (suc (suc zero)))))))) = omega arith
digit-ne-dash (suc (suc (suc (suc (suc (suc (suc (suc (suc n))))))))) = omega arith

NoDash-show_before : (fuel n : ℕ) (acc : String) → NoDash acc → NoDash (show_before fuel n acc)
unfolding show_before
NoDash-show_before zero n acc h = h
NoDash-show_before (suc fuel) n acc h = elim (Bool-cases (ltb n 10)) [
  | inl one ↦ rw one (digit-ne-dash n, h)
  | inr more ↦
      rw more (NoDash-show_before fuel (n / 10) (digit (n % 10) ∷ acc) (digit-ne-dash (n % 10), h))
]

pub NoDash-show : (n : ℕ) → NoDash (show n)
unfolding show
NoDash-show n = NoDash-show_before (suc n) n [] tt
