-- ===== src/Decimal.antt =====
-- Numbers as JavaScript prints them into a text: decimal digits without leading zeros.
pub mod Laws
use Prim.Native.Nat.{ℕ, zero, suc, ◌/◌, ◌%◌}
use Prim.Native.Char.{Char}
use Prim.Native.String.{String, [], ◌∷◌}
use yanta.Prelude.{ltb, if◌then◌else◌}

abbrev pub digit : ℕ → Char
digit zero = "0"
digit (suc zero) = "1"
digit (suc (suc zero)) = "2"
digit (suc (suc (suc zero))) = "3"
digit (suc (suc (suc (suc zero)))) = "4"
digit (suc (suc (suc (suc (suc zero))))) = "5"
digit (suc (suc (suc (suc (suc (suc zero)))))) = "6"
digit (suc (suc (suc (suc (suc (suc (suc zero))))))) = "7"
digit (suc (suc (suc (suc (suc (suc (suc (suc zero)))))))) = "8"
digit _ = "9"

-- Digits before `acc`; a number has fewer digits than its successor's value, which is the fuel.
show_before : ℕ → ℕ → String → String
show_before zero n acc = acc
show_before (suc fuel) n acc =
    let rest = show_before fuel (n / 10) (digit (n % 10) ∷ acc) in
    if ltb n 10 then digit n ∷ acc else rest

unfoldable pub show : ℕ → String
unfolding show_before
show n = show_before (suc n) n []
