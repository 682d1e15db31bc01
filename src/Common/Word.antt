-- ===== src/Common/Word.antt =====
-- Machine words: wrap-around to a fixed width, and the bit tests of C.
use Prim.Native.Nat.{ℕ, ◌+◌, ◌-◌, ◌%◌, ◌^◌, bit_and}
use mathlib.Core.Bool.{Bool, not}
use testunion.Common.Tests.{◌==◌, ltb, if◌then◌else◌}

abbrev pub u32 : ℕ → ℕ
u32 n = n % 2 ^ 32

abbrev pub u64 : ℕ → ℕ
u64 n = n % 2 ^ 64

-- `~x` at 64 bits.
abbrev pub not64 : ℕ → ℕ
not64 x = 2 ^ 64 - 1 - x

-- `x & flag` read as a condition.
abbrev pub has : ℕ → ℕ → Bool
has x flag = not (bit_and x flag == 0)

-- `!x` for a number.
abbrev pub not_ℕ : ℕ → ℕ
not_ℕ x = if x == 0 then 1 else 0

-- An `int`, given by its 32 bits, as a 64-bit argument.
abbrev pub extend : ℕ → ℕ
extend x = if ltb x (2 ^ 31) then x else x + (2 ^ 64 - 2 ^ 32)
