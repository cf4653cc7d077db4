-- ===== src/Common/Word.antt =====
-- int64 as a bit pattern, a number below 2 ^ 64, with the operations of Go on it.
use Prim.Native.Nat.{ℕ, ◌+◌, ◌-◌, ◌%◌, ◌^◌, ◌<◌}
use mathlib.Core.Path.{◌≡◌}
use mathlib.Core.Bool.{Bool}
use native.Mathlib.Omega.{arith}
use go_fast_framework.Common.Tests.{ltb, if◌then◌else◌}

-- a + b
abbrev pub add64 : ℕ → ℕ → ℕ
add64 a b = (a + b) % 2 ^ 64

-- -a
abbrev pub neg64 : ℕ → ℕ
neg64 a = (2 ^ 64 - a % 2 ^ 64) % 2 ^ 64

-- a < b, as signed numbers
abbrev pub lt64 : ℕ → ℕ → Bool
lt64 a b = ltb ((a + 2 ^ 63) % 2 ^ 64) ((b + 2 ^ 63) % 2 ^ 64)

-- int64(n) of an int32
abbrev pub of_int32 : ℕ → ℕ
of_int32 n = if ltb n (2 ^ 31) then n else n + 2 ^ 64 - 2 ^ 32

-- Below 2 ^ 63 the signed order is the order of numbers.
pub lt64-eq-ltb : (a b : ℕ) → a < 2 ^ 63 → b < 2 ^ 63 → lt64 a b ≡ ltb a b
lt64-eq-ltb a b h k = ground arith
