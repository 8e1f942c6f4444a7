-- ===== src/Common/Word.antt =====
-- Go's int32 and uint as their bit patterns below 2 ^ 32 and 2 ^ 64, with the wrap-around written out.
use Prim.Native.Nat.{ℕ, ◌+◌, ◌-◌, ◌%◌, ◌^◌}
use mathlib.Core.Bool.{Bool}
use arke.Common.Tests.{ltb}

abbrev pub add32 : ℕ → ℕ → ℕ
add32 a b = (a + b) % 2 ^ 32

-- `x - 1`
abbrev pub dec32 : ℕ → ℕ
dec32 a = (a + (2 ^ 32 - 1)) % 2 ^ 32

-- The signed order: flipping the sign bit makes it the order of the patterns.
abbrev pub lt32 : ℕ → ℕ → Bool
lt32 a b = ltb ((a + 2 ^ 31) % 2 ^ 32) ((b + 2 ^ 31) % 2 ^ 32)

abbrev pub add64 : ℕ → ℕ → ℕ
add64 a b = (a + b) % 2 ^ 64

abbrev pub dec64 : ℕ → ℕ
dec64 a = (a + (2 ^ 64 - 1)) % 2 ^ 64
