-- ===== src/Base/Int.antt =====
-- Go's fixed-width signed integers as bit patterns: an `int32` is a number below 2 ^ 32 that stands
-- for itself below 2 ^ 31 and for itself less 2 ^ 32 from there on; `int64` likewise.
use Prim.Native.Nat.{ℕ, zero, suc, ◌+◌, ◌-◌, ◌/◌, ◌%◌, ◌<◌, min}
use Prim.Native.String.{String, ◌++◌}
use mathlib.Core.Path.{◌≡◌, refl}
use mathlib.Core.Bool.{Bool, ◌&&◌}
use native.Mathlib.Omega.{arith}
use pgbouncer_aurora_operato.Base.Tests.{ltb, if◌then◌else◌}

abbrev pub int32_half : ℕ
int32_half = 2147483648

abbrev pub int32_mod : ℕ
int32_mod = 4294967296

abbrev pub int64_half : ℕ
int64_half = 9223372036854775808

abbrev pub int64_mod : ℕ
int64_mod = 18446744073709551616

abbrev pub int32_add : ℕ → ℕ → ℕ
int32_add a b = (a + b) % int32_mod

-- `a < b` on `int32`: adding 2 ^ 31 carries the signed order to the unsigned one.
abbrev pub int32_lt : ℕ → ℕ → Bool
int32_lt a b = ltb ((a + int32_half) % int32_mod) ((b + int32_half) % int32_mod)

-- `a > 0` on `int32`.
abbrev pub int32_pos : ℕ → Bool
int32_pos a = ltb 0 a && ltb a int32_half

-- `a > 0` on `int64`, the type of a `time.Duration`.
abbrev pub int64_pos : ℕ → Bool
int64_pos a = ltb 0 a && ltb a int64_half

-- `a < b` on `int64`.
abbrev pub int64_lt : ℕ → ℕ → Bool
int64_lt a b = ltb ((a + int64_half) % int64_mod) ((b + int64_half) % int64_mod)

-- A value that is not negative.
abbrev pub IsCount : ℕ → Type 0
IsCount n = n < int32_half

-- `t.Sub(u)` compared with a positive bound: an instant is the number of nanoseconds since a fixed
-- origin, a negative difference counts as 0, and the difference stops at the largest `int64`.
abbrev pub time_sub : ℕ → ℕ → ℕ
time_sub t u = min (t - u) (int64_half - 1)

-- `t.After(u)`.
abbrev pub time_after : ℕ → ℕ → Bool
time_after t u = ltb u t

abbrev digit : ℕ → String
digit zero = "0"
digit (suc zero) = "1"
digit (suc (suc zero)) = "2"
digit (suc (suc (suc zero))) = "3"
digit (suc (suc (suc (suc zero)))) = "4"
digit (suc (suc (suc (suc (suc zero))))) = "5"
digit (suc (suc (suc (suc (suc (suc zero)))))) = "6"
digit (suc (suc (suc (suc (suc (suc (suc zero))))))) = "7"
digit (suc (suc (suc (suc (suc (suc (suc (suc zero)))))))) = "8"
digit n = "9"

-- The decimal digits of a number, at most `fuel` of them.
pub decimal : ℕ → ℕ → String → String
decimal zero n acc = acc
decimal (suc fuel) n acc =
    let more = decimal fuel (n / 10) (digit (n % 10) ++ acc) in
    if ltb n 10 then digit n ++ acc else more

-- `%d` of an `int32` (ten digits at most) or of a shorter count.
unfoldable pub sprint_int32 : ℕ → String
unfolding decimal
sprint_int32 n = if ltb n int32_half then decimal 10 n "" else "-" ++ decimal 10 (int32_mod - n) ""

sprint_int32_positive : sprint_int32 2147483647 ≡ "2147483647"
unfolding sprint_int32
sprint_int32_positive = refl

sprint_int32_negative : sprint_int32 4294967295 ≡ "-1"
unfolding sprint_int32
sprint_int32_negative = refl

-- On counts the signed order is the order of numbers.
pub int32_lt_of_counts : (a b : ℕ) → IsCount a → IsCount b → int32_lt a b ≡ ltb a b
int32_lt_of_counts a b ha hb = ground arith
