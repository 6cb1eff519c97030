-- ===== src/Prelude/Bits/Digits.antt =====
-- One equation for the lowest digit of `&`, `|` and `^`, with the fuel of the library's
-- recursion dropped.
use mathlib.Core.Path.{◌≡◌, refl}
use native.Mathlib.Omega.{arith}
use Prim.Native.Nat.{
  bit_and, bit_and-bitwise, bit_or, bit_or-bitwise, bit_xor, bit_xor-bitwise, digits, differ, max,
  min, ℕ, suc, zero, ◌≤◌, ◌+◌, ◌%◌, ◌/◌, ◌*◌,
}

module _ (past : ℕ → ℕ) (digit : ℕ → ℕ → ℕ) where
  -- The library's recursion gives the same for all fuels that are not below the first number.
  enough_fuel :
      (x y fuel other : ℕ)
      → x ≤ other
      → x ≤ fuel
      → digits past digit fuel x y ≡ digits past digit other x y
  enough_fuel (suc x) y zero other q p = absurd (omega arith)
  enough_fuel (suc x) y (suc fuel) zero q p = absurd (omega arith)
  enough_fuel (suc x) y (suc fuel) (suc other) q p =
      rw (enough_fuel (suc x / 2) (y / 2) fuel other (omega arith) (omega arith))
  enough_fuel zero y (suc fuel) (suc other) q p = refl
  enough_fuel zero y (suc fuel) zero q p = refl
  enough_fuel zero y zero (suc other) q p = refl
  enough_fuel zero y zero zero q p = refl

pub bit_and_step : (x y : ℕ) → bit_and x y ≡ min (x % 2) (y % 2) + 2 * bit_and (x / 2) (y / 2)
bit_and_step (suc x) y =
    let half = suc x / 2 in
    let fuels = enough_fuel (λ d. 0) min half (y / 2) x half (omega arith) (omega arith) in
    omega (arith, fuels, bit_and-bitwise half (y / 2), bit_and-bitwise (suc x) y)
bit_and_step zero y = omega (arith, bit_and-bitwise 0 (y / 2), bit_and-bitwise 0 y)

pub bit_or_step : (x y : ℕ) → bit_or x y ≡ max (x % 2) (y % 2) + 2 * bit_or (x / 2) (y / 2)
bit_or_step (suc x) y =
    let half = suc x / 2 in
    let fuels = enough_fuel (λ d. d) max half (y / 2) x half (omega arith) (omega arith) in
    omega (arith, fuels, bit_or-bitwise half (y / 2), bit_or-bitwise (suc x) y)
bit_or_step zero y = omega (arith, bit_or-bitwise 0 (y / 2), bit_or-bitwise 0 y)

pub bit_xor_step : (x y : ℕ) → bit_xor x y ≡ differ (x % 2) (y % 2) + 2 * bit_xor (x / 2) (y / 2)
bit_xor_step (suc x) y =
    let half = suc x / 2 in
    let fuels = enough_fuel (λ d. d) differ half (y / 2) x half (omega arith) (omega arith) in
    omega (arith, fuels, bit_xor-bitwise half (y / 2), bit_xor-bitwise (suc x) y)
bit_xor_step zero y = omega (arith, bit_xor-bitwise 0 (y / 2), bit_xor-bitwise 0 y)
