-- ===== src/Guest/Arithmetic.antt =====
-- The software arithmetic of Resource/CProgram/main.c, `__udivsi3` to `__mulsi3`: RV32I has no
-- instruction for it.
pub mod Division
pub mod Signed
pub mod Multiplication
use simple_rv.Prelude.{
  ℕ, zero, suc, ◌+◌, ◌-◌, ◌*◌, ◌^◌, ◌<<◌, ◌>>◌, u32, Bool, not, ◌==◌, leb, is_negative,
  if◌then◌else◌, bit_and, bit_or, Option, none, some,
}

-- The quotient so far and the remainder.
pub record Dividing : Type 0 where
  pub q : ℕ
  pub r : ℕ

-- `r = (r << 1) | ((n >> i) & 1)`.
abbrev pub shift_in : ℕ → ℕ → ℕ → ℕ
shift_in n i r = bit_or (r << 1) (bit_and (n >> i) 1)

-- The rounds of the loop from `i - 1` down to 0.
unfoldable pub divide : ℕ → ℕ → ℕ → Dividing → Dividing
divide n d zero s = s
divide n d (suc i) s =
    let r = shift_in n i s.r in
    divide n d i
      (if leb d r then record { q = bit_or s.q (u32 (2 ^ i)); r = r - d } else record s { r = r })

unfoldable pub udivsi3 : ℕ → ℕ → ℕ
udivsi3 n d = if d == 0 then 0 else (divide n d 32 (record { q = 0; r = 0 })).q

unfoldable pub remainder : ℕ → ℕ → ℕ → ℕ → ℕ
remainder n d zero r = r
remainder n d (suc i) r =
    let r' = shift_in n i r in remainder n d i (if leb d r' then r' - d else r')

unfoldable pub umodsi3 : ℕ → ℕ → ℕ
umodsi3 n d = if d == 0 then 0 else remainder n d 32 0

-- `-n` of an `int32_t`, wrapped.
abbrev pub negate : ℕ → ℕ
negate n = u32 (2 ^ 32 - n)

abbrev pub magnitude : ℕ → ℕ
magnitude n = if is_negative n then negate n else n

-- `sign * quotient`, where `sign` is 1 or -1.
abbrev pub signed_by : Bool → ℕ → ℕ
signed_by negative v = if negative then u32 (0xFFFFFFFF * v) else u32 v

unfoldable pub divsi3 : ℕ → ℕ → ℕ
divsi3 n d =
    let sign = if is_negative n then not (is_negative d) else is_negative d in
    signed_by sign (udivsi3 (magnitude n) (magnitude d))

unfoldable pub modsi3 : ℕ → ℕ → ℕ
modsi3 n d = signed_by (is_negative n) (umodsi3 (magnitude n) (magnitude d))

-- `while (u_b != 0)`: `none` when the fuel runs out.
unfoldable pub multiply : ℕ → ℕ → ℕ → ℕ → Option ℕ
multiply zero u_a u_b res = if u_b == 0 then some res else none
multiply (suc fuel) u_a u_b res =
    let rest =
      multiply fuel (u_a << 1) (u_b >> 1)
        (if not (bit_and u_b 1 == 0) then u32 (res + u_a) else res) in
    if u_b == 0 then some res else rest

-- The loop halves a word until it is 0, so that 32 rounds are enough.
unfoldable pub mulsi3 : ℕ → ℕ → Option ℕ
mulsi3 a b = multiply 32 a b 0
