-- ===== src/Base/Format.antt =====
-- `%d` of `fmt.Sprintf`, and the integers of an `int32`.
pub mod Decimal
use Prim.Native.Nat.{ℕ, zero, suc, ◌/◌, ◌%◌}
use Prim.Native.String.{String, ◌++◌ as ◌<>◌}
use mathlib.Core.Path.{◌≡◌, refl}

-- `negsuc n` is -(n + 1).
pub data ℤ : Type 0 where
  pos : ℕ → ℤ
  negsuc : ℕ → ℤ

digit : ℕ → String
digit zero = "0"
digit (suc zero) = "1"
digit (suc (suc zero)) = "2"
digit (suc (suc (suc zero))) = "3"
digit (suc (suc (suc (suc zero)))) = "4"
digit (suc (suc (suc (suc (suc zero))))) = "5"
digit (suc (suc (suc (suc (suc (suc zero)))))) = "6"
digit (suc (suc (suc (suc (suc (suc (suc zero))))))) = "7"
digit (suc (suc (suc (suc (suc (suc (suc (suc zero)))))))) = "8"
digit _ = "9"

-- The digits of `n` before `rest`; one round of fuel for each digit.
digits : ℕ → ℕ → String → String
unfolding digit
digits zero n rest = rest
digits (suc fuel) n rest = elim (n / 10) [
  | zero ↦ digit n <> rest
  | suc m ↦ digits fuel (suc m) (digit (n % 10) <> rest)
]

-- `%d` of a number that is not negative. A number has fewer digits than its successor has units.
unfoldable pub decimal : ℕ → String
unfolding digits
decimal n = digits (suc n) n ""

-- `%d`
unfoldable pub format_int : ℤ → String
unfolding decimal
format_int (pos n) = decimal n
format_int (negsuc n) = "-" <> decimal (suc n)

format_int_values : format_int (pos 9443) ≡ "9443"
unfolding format_int
format_int_values = refl

format_int_negative : format_int (negsuc 19) ≡ "-20"
unfolding format_int
format_int_negative = refl
