-- ===== src/Base/Format/Decimal.antt =====
-- `%d` can be read back: no two numbers have the same digits.
use Prim.Native.Nat.{ℕ, zero, suc, ◌+◌, ◌-◌, ◌*◌, ◌/◌, ◌%◌, ◌<◌}
use Prim.Native.String.{String, ◌++◌ as ◌<>◌}
use Prim.Native.Char.{Char, code}
use mathlib.Core.Path.{◌≡◌, ap, sym, ◌∙◌}
use native.Mathlib.Omega.{arith}
use mathlib.Core.Option.{Option, some, none}
use text.Mathlib.TextLemmas.{cons-append, nil-append, append_cancel_left}
use observability_ui_operato.Base.Tests.{if◌then◌else◌}
use observability_ui_operato.Base.Time.{nat_eq}
use observability_ui_operato.Base.Format.{digit, digits, decimal}

-- The number that digits spell behind `n`.
pub value : ℕ → String → ℕ
value n String.[] = n
value n (String.◌∷◌ c s) = value (n * 10 + (code c - b'0')) s

value-one :
    (n : ℕ) (c : Char) (rest : String)
    → value n (String.◌∷◌ c String.[] <> rest) ≡ value (n * 10 + (code c - b'0')) rest
unfolding value
value-one n c rest = rw (cons-append c String.[] rest, nil-append rest)

value-digit :
    (n d : ℕ) (rest : String) → d < 10 → value n (digit d <> rest) ≡ value (n * 10 + d) rest
unfolding digit
value-digit n zero rest h = value-one n "0" rest
value-digit n (suc zero) rest h = value-one n "1" rest
value-digit n (suc (suc zero)) rest h = value-one n "2" rest
value-digit n (suc (suc (suc zero))) rest h = value-one n "3" rest
value-digit n (suc (suc (suc (suc zero)))) rest h = value-one n "4" rest
value-digit n (suc (suc (suc (suc (suc zero))))) rest h = value-one n "5" rest
value-digit n (suc (suc (suc (suc (suc (suc zero)))))) rest h = value-one n "6" rest
value-digit n (suc (suc (suc (suc (suc (suc (suc zero))))))) rest h = value-one n "7" rest
value-digit n (suc (suc (suc (suc (suc (suc (suc (suc zero)))))))) rest h = value-one n "8" rest
value-digit n (suc (suc (suc (suc (suc (suc (suc (suc (suc zero))))))))) rest h =
    value-one n "9" rest
value-digit n (suc (suc (suc (suc (suc (suc (suc (suc (suc (suc d)))))))))) rest h =
    absurd (omega arith)

value-digits : (fuel n : ℕ) (rest : String) → n < fuel → value 0 (digits fuel n rest) ≡ value n rest
unfolding digits
value-digits zero n rest h = absurd (omega arith)
value-digits (suc fuel) n rest h = ground (
  arith,
  value-digit 0 n rest,
  value-digit (n / 10) (n % 10) rest,
  value-digits fuel (n / 10) (digit (n % 10) <> rest),
)

pub value-decimal : (n : ℕ) → value 0 (decimal n) ≡ n
unfolding decimal value
value-decimal n = value-digits (suc n) n "" (omega arith)

-- What follows a text, where another begins with it.
pub after : String → String → Option String
after String.[] t = some t
after (String.◌∷◌ c s) String.[] = none
after (String.◌∷◌ c s) (String.◌∷◌ d t) =
    let rest = after s t in if nat_eq (code c) (code d) then rest else none

pub after-append : (s t : String) → after s (s <> t) ≡ some t
unfolding after
after-append String.[] t = rw (nil-append t)
after-append (String.◌∷◌ c s) t = rw (cons-append c s t) (ground (arith, after-append s t))

-- The same text before the digits of two numbers makes two texts.
pub decimal_inj : (s : String) (m n : ℕ) → s <> decimal m ≡ s <> decimal n → m ≡ n
decimal_inj s m n h =
    sym (value-decimal m)
    ∙ ap (value 0) (append_cancel_left s (decimal m) (decimal n) h)
    ∙ value-decimal n
