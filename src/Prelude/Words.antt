-- ===== src/Prelude/Words.antt =====
-- Machine words as native numbers: a w-bit value is below 2 ^ w and every operation wraps.
-- A signed word is the bit pattern that the C++ cast gives.
use Prim.Native.Nat.{ℕ, ◌+◌, ◌-◌, ◌*◌, ◌/◌, ◌%◌, ◌^◌, ◌<◌, bit_and}
use mathlib.Core.Bool.{Bool, true, false, not}
use simple_rv.Prelude.Tests.{ltb, ◌==◌, if◌then◌else◌}

abbrev pub u32 : ℕ → ℕ
u32 n = n % 2 ^ 32

abbrev pub u64 : ℕ → ℕ
u64 n = n % 2 ^ 64

abbrev pub IsWord : ℕ → Type 0
IsWord n = n < 2 ^ 32

infixl 70 ◌<<◌ ◌>>◌
-- Shifts of an unsigned word; the left one drops what leaves the word.
abbrev pub ◌<<◌ : ℕ → ℕ → ℕ
x << k = x * 2 ^ k % 2 ^ 32

abbrev pub ◌>>◌ : ℕ → ℕ → ℕ
x >> k = x / 2 ^ k

-- `~x` of an unsigned word.
abbrev pub complement : ℕ → ℕ
complement x = 4294967295 - x

abbrev pub is_negative : ℕ → Bool
is_negative x = not (ltb x (2 ^ 31))

-- `(int32_t)x >> k`, for k below 32.
abbrev pub asr : ℕ → ℕ → ℕ
asr x k = if ltb x (2 ^ 31) then x / 2 ^ k else x / 2 ^ k + (2 ^ 32 - 2 ^ 32 / 2 ^ k)

-- `(int32_t)x < (int32_t)y`: flipping the sign bit turns the signed order into the unsigned one.
abbrev pub signed_ltb : ℕ → ℕ → Bool
signed_ltb x y =
    if ltb x (2 ^ 31)
    then (if ltb y (2 ^ 31) then ltb x y else false)
    else (if ltb y (2 ^ 31) then true else ltb x y)

-- A word used as a condition, `if (x & mask)`.
abbrev pub has_bits : ℕ → ℕ → Bool
has_bits x mask = not (bit_and x mask == 0)
