-- ===== src/Common/Words.antt =====
-- 64-bit words, and a 32-bit `int` read back as a 64-bit word.
use Prim.Native.Nat.{ℕ, ◌+◌, ◌-◌, ◌%◌, ◌^◌, ◌<◌}
use mathlib.Core.Path.{◌≡◌}
use native.Mathlib.Omega.{arith}
use event_queue.Common.Tests.{ltb, if◌then◌else◌}

abbrev pub u64_mod : ℕ
u64_mod = 2 ^ 64

-- The value of an unsigned 64-bit expression.
abbrev pub u64 : ℕ → ℕ
u64 n = n % u64_mod

-- A word stored in an `int` and converted to `uint64_t` again: the low half, its sign extended.
abbrev pub through_int : ℕ → ℕ
through_int n = let low = n % 2 ^ 32 in if ltb low (2 ^ 31) then low else low + (2 ^ 64 - 2 ^ 32)

-- The `int` -1 as a word.
abbrev pub minus_one : ℕ
minus_one = 2 ^ 64 - 1

pub through_int_small : (n : ℕ) → n < 2 ^ 31 → through_int n ≡ n
through_int_small n h = ground arith

pub u64_small : (n : ℕ) → n < u64_mod → u64 n ≡ n
u64_small n h = omega arith
