-- ===== src/Prelude/Bits/Single.antt =====
-- Bit k of a number, of `&`, `|` and `~`, and equality of numbers bit by bit.
use Prim.Native.Nat.{ℕ, zero, suc, ◌+◌, ◌-◌, ◌/◌, ◌%◌, ◌^◌, ◌≤◌, ◌<◌, min, max}
use Prim.Native.Nat.{bit_and, bit_or}
use mathlib.Core.Path.{◌≡◌, refl}
use native.Mathlib.Nat.{pow-suc}
use native.Mathlib.Omega.{arith}
use simple_rv.Prelude.Tests.{ltb, if◌then◌else◌}
use simple_rv.Prelude.Bits.Digits.{bit_and_step, bit_or_step}

unfoldable pub bit : ℕ → ℕ → ℕ
bit n zero = n % 2
bit n (suc k) = bit (n / 2) k

pub bit-le-one : (n k : ℕ) → bit n k ≤ 1
unfolding bit
bit-le-one n zero = omega arith
bit-le-one n (suc k) = bit-le-one (n / 2) k

pub bit-bit_and : (a b k : ℕ) → bit (bit_and a b) k ≡ min (bit a k) (bit b k)
unfolding bit
bit-bit_and a b zero = omega (arith, bit_and_step a b)
bit-bit_and a b (suc k) =
    let half : bit_and a b / 2 ≡ bit_and (a / 2) (b / 2) = omega (arith, bit_and_step a b) in
    rw half (bit-bit_and (a / 2) (b / 2) k)

pub bit-bit_or : (a b k : ℕ) → bit (bit_or a b) k ≡ max (bit a k) (bit b k)
unfolding bit
bit-bit_or a b zero = omega (arith, bit_or_step a b)
bit-bit_or a b (suc k) =
    let half : bit_or a b / 2 ≡ bit_or (a / 2) (b / 2) = omega (arith, bit_or_step a b) in
    rw half (bit-bit_or (a / 2) (b / 2) k)

pub bit-zero : (k : ℕ) → bit 0 k ≡ 0
unfolding bit
bit-zero zero = refl
bit-zero (suc k) = bit-zero k

-- The complement within w bits.
pub bit-complement :
    (w k m : ℕ) → m < 2 ^ w → bit (2 ^ w - 1 - m) k ≡ (if ltb k w then 1 - bit m k else 0)
unfolding bit
bit-complement zero k m h = ground (arith, bit-zero k)
bit-complement (suc w) zero m h = ground (arith, pow-suc 2 w)
bit-complement (suc w) (suc k) m h =
    let half : (2 ^ suc w - 1 - m) / 2 ≡ 2 ^ w - 1 - m / 2 = omega (arith, pow-suc 2 w) in
    rw half (ground (arith, bit-complement w k (m / 2) (omega (arith, pow-suc 2 w))))

-- Above its width a number has no bits.
pub bit-above : (w k m : ℕ) → m < 2 ^ w → w ≤ k → bit m k ≡ 0
unfolding bit
bit-above zero k m h p = ground (arith, bit-zero k)
bit-above (suc w) zero m h p = absurd (omega arith)
bit-above (suc w) (suc k) m h p = bit-above w k (m / 2) (omega (arith, pow-suc 2 w)) (omega arith)

bit_ext_below : (n a b : ℕ) → a ≤ n → b ≤ n → ((k : ℕ) → bit a k ≡ bit b k) → a ≡ b
unfolding bit
bit_ext_below zero a b p q h = omega arith
bit_ext_below (suc n) a b p q h =
    omega (arith, h 0, bit_ext_below n (a / 2) (b / 2) (omega arith) (omega arith) (λ k. h (suc k)))

pub bit_ext : (a b : ℕ) → ((k : ℕ) → bit a k ≡ bit b k) → a ≡ b
bit_ext a b h = bit_ext_below (a + b) a b (omega arith) (omega arith) h
