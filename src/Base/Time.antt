-- ===== src/Base/Time.antt =====
-- Durations in nanoseconds, as in `time.Duration`, and the equality test of numbers.
use Prim.Native.Nat.{ℕ, compare, Ordering}
use mathlib.Core.Bool.{Bool, true, false}

abbrev pub nat_eq : ℕ → ℕ → Bool
nat_eq a b = elim (compare a b) [ Ordering.eq ↦ true | _ ↦ false ]

-- `time.Second`
abbrev pub second : ℕ
second = 1_000_000_000

-- `time.Minute`
abbrev pub minute : ℕ
minute = 60_000_000_000
