-- ===== src/Base/Machine.antt =====
-- Go's machine integers and `time.Time`.
-- An `int` or `int64` is its 64-bit pattern, so a value from 2 ^ 63 on is negative.
-- A `Time` is the number of nanoseconds since the zero Time (1 January of the year 1, UTC); a
-- `time.Duration` that the program adds is a number of nanoseconds.
use Prim.Native.Nat.{ℕ, zero, suc, ◌+◌, ◌-◌, ◌*◌, ◌/◌, ◌%◌, ◌^◌}
use Prim.Native.String.{String, ◌++◌ as concat}
use mathlib.Core.Bool.{Bool, ◌||◌}
use forge_mini.Base.Tests.{◌==◌, leb, ltb, if◌then◌else◌}

abbrev pub Int64 : Type 0
Int64 = ℕ

-- `a + b` on int64
unfoldable pub int_add : Int64 → Int64 → Int64
int_add a b = (a + b) % 2 ^ 64

-- the sign bit
abbrev pub is_negative : Int64 → Bool
is_negative a = leb (2 ^ 63) a

-- `a < 1` on int64
unfoldable pub int_lt_one : Int64 → Bool
int_lt_one a = a == 0 || is_negative a

abbrev pub Time : Type 0
Time = ℕ

abbrev pub second : ℕ
second = 1_000_000_000

abbrev pub minute : ℕ
minute = 60 * second

-- `t.IsZero()`
unfoldable pub is_zero : Time → Bool
is_zero t = t == 0

-- `t.Add(d)` for a duration that is not negative
unfoldable pub add : Time → ℕ → Time
add t d = t + d

-- 1 January 1970, as a Time
abbrev pub unix_epoch : Time
unix_epoch = 62_135_596_800 * second

-- `t.UnixNano()`, an int64 that wraps
unfoldable pub unix_nano : Time → Int64
unix_nano t = (t % 2 ^ 64 + (2 ^ 64 - unix_epoch % 2 ^ 64)) % 2 ^ 64

-- the text of a digit
abbrev pub digit : ℕ → String
digit zero = "0"
digit (suc zero) = "1"
digit (suc (suc zero)) = "2"
digit (suc (suc (suc zero))) = "3"
digit (suc (suc (suc (suc zero)))) = "4"
digit (suc (suc (suc (suc (suc zero))))) = "5"
digit (suc (suc (suc (suc (suc (suc zero)))))) = "6"
digit (suc (suc (suc (suc (suc (suc (suc zero))))))) = "7"
digit (suc (suc (suc (suc (suc (suc (suc (suc zero)))))))) = "8"
digit (suc (suc (suc (suc (suc (suc (suc (suc (suc n))))))))) = "9"

-- the decimal digits of `n` in front of `acc`; the first argument bounds their number
unfoldable pub decimal : ℕ → ℕ → String → String
decimal zero n acc = acc
decimal (suc f) n acc =
    let rest = decimal f (n / 10) (concat (digit (n % 10)) acc) in
    if ltb n 10 then concat (digit n) acc else rest

-- `%d` of an int64: a 64-bit number has at most 20 digits
unfoldable pub show_int : Int64 → String
unfolding decimal
show_int a = if is_negative a then concat "-" (decimal 20 (2 ^ 64 - a) "") else decimal 20 a ""
