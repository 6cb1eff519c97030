-- ===== src/Prelude/Bits/Masks.antt =====
-- Reading and replacing the bits of a word under a mask.
use Prim.Native.Nat.{ℕ, zero, suc, ◌+◌, ◌-◌, ◌*◌, ◌/◌, ◌%◌, ◌^◌, ◌≤◌, ◌<◌, min, max}
use Prim.Native.Nat.{bit_and, bit_or, bit_xor, differ}
use mathlib.Core.Path.{◌≡◌, ap}
use native.Mathlib.Nat.{pow-suc}
use native.Mathlib.Omega.{arith}
use simple_rv.Prelude.Tests.{ltb, if◌then◌else◌}
use simple_rv.Prelude.Words.{complement, IsWord}
use simple_rv.Prelude.Bits.Digits.{bit_and_step, bit_or_step, bit_xor_step}
use simple_rv.Prelude.Bits.Single.{
  bit, bit-le-one, bit-bit_and, bit-bit_or, bit-complement, bit-above, bit-zero, bit_ext,
}

-- `(old & ~mask) | (new & mask)`.
abbrev pub merge : ℕ → ℕ → ℕ → ℕ
merge old new mask = bit_or (bit_and old (complement mask)) (bit_and new mask)

bit_and-le_below : (n a b : ℕ) → a ≤ n → bit_and a b ≤ b
bit_and-le_below zero a b h = ground (arith, bit_and_step a b, bit_and_zero_left a b h)
  where
    bit_and_zero_left : (a b : ℕ) → a ≤ 0 → bit_and a b ≡ 0
    bit_and_zero_left zero b h = Prim.Native.Nat.bit_and-bitwise 0 b
    bit_and_zero_left (suc a) b h = absurd (omega arith)
bit_and-le_below (suc n) zero b h = omega (arith, Prim.Native.Nat.bit_and-bitwise 0 b)
bit_and-le_below (suc n) (suc a) b h =
    omega (arith, bit_and_step (suc a) b, bit_and-le_below n (suc a / 2) (b / 2) (omega arith))

-- A conjunction is within each side.
pub bit_and-le : (a b : ℕ) → bit_and a b ≤ b
bit_and-le a b = bit_and-le_below a a b (omega arith)

pub bit_or-lt : (w a b : ℕ) → a < 2 ^ w → b < 2 ^ w → bit_or a b < 2 ^ w
bit_or-lt zero zero zero p q = omega (arith, Prim.Native.Nat.bit_or-bitwise 0 0)
bit_or-lt zero (suc a) b p q = absurd (omega arith)
bit_or-lt zero zero (suc b) p q = absurd (omega arith)
bit_or-lt (suc w) a b p q = omega (
  arith,
  pow-suc 2 w,
  bit_or_step a b,
  bit_or-lt w (a / 2) (b / 2) (omega (arith, pow-suc 2 w)) (omega (arith, pow-suc 2 w)),
)

differ-lt-two : (a b : ℕ) → a < 2 → b < 2 → differ a b < 2
differ-lt-two zero b h k = k
differ-lt-two (suc a) zero h k = h
differ-lt-two (suc zero) (suc zero) h k = omega arith
differ-lt-two (suc zero) (suc (suc b)) h k = absurd (omega arith)
differ-lt-two (suc (suc a)) (suc b) h k = absurd (omega arith)

pub bit_xor-lt : (w a b : ℕ) → a < 2 ^ w → b < 2 ^ w → bit_xor a b < 2 ^ w
bit_xor-lt zero zero zero p q = omega (arith, Prim.Native.Nat.bit_xor-bitwise 0 0)
bit_xor-lt zero (suc a) b p q = absurd (omega arith)
bit_xor-lt zero zero (suc b) p q = absurd (omega arith)
bit_xor-lt (suc w) a b p q = omega (
  arith,
  pow-suc 2 w,
  bit_xor_step a b,
  differ-lt-two (a % 2) (b % 2) (omega arith) (omega arith),
  bit_xor-lt w (a / 2) (b / 2) (omega (arith, pow-suc 2 w)) (omega (arith, pow-suc 2 w)),
)

bit-complement_word :
    (m k : ℕ) → IsWord m → bit (complement m) k ≡ (if ltb k 32 then 1 - bit m k else 0)
bit-complement_word m k h = bit-complement 32 k m h

-- Under the mask a merge reads as the new value.
pub bit_and-merge :
    (old new mask : ℕ) → IsWord mask → bit_and (merge old new mask) mask ≡ bit_and new mask
bit_and-merge old new mask h = bit_ext _ _ λ k. ground (
  arith,
  bit-bit_and (merge old new mask) mask k,
  bit-bit_or (bit_and old (complement mask)) (bit_and new mask) k,
  bit-bit_and old (complement mask) k,
  bit-bit_and new mask k,
  bit-complement_word mask k h,
  bit-above 32 k mask h,
  bit-le-one old k,
  bit-le-one new k,
  bit-le-one mask k,
)

-- Under a mask that is disjoint from the merge's the old value stays.
pub bit_and-merge_other :
    (old new mask other : ℕ)
    → IsWord mask
    → IsWord other
    → bit_and mask other ≡ 0
    → bit_and (merge old new mask) other ≡ bit_and old other
bit_and-merge_other old new mask other h g apart = bit_ext _ _ λ k. ground (
  arith,
  bit-bit_and (merge old new mask) other k,
  bit-bit_or (bit_and old (complement mask)) (bit_and new mask) k,
  bit-bit_and old (complement mask) k,
  bit-bit_and old other k,
  bit-bit_and new mask k,
  bit-bit_and mask other k,
  ap (λ (t : ℕ). bit t k) apart,
  bit-zero k,
  bit-complement_word mask k h,
  bit-above 32 k other g,
  bit-le-one old k,
  bit-le-one new k,
  bit-le-one mask k,
  bit-le-one other k,
)

pub merge-IsWord : (old new mask : ℕ) → IsWord mask → IsWord (merge old new mask)
merge-IsWord old new mask h =
    bit_or-lt 32 _ _ (omega (arith, bit_and-le old (complement mask)))
      (omega (arith, bit_and-le new mask))

-- Masking twice is masking by both.
pub bit_and_assoc : (a b c : ℕ) → bit_and (bit_and a b) c ≡ bit_and a (bit_and b c)
bit_and_assoc a b c = bit_ext _ _ λ k. ground (
  arith,
  bit-bit_and (bit_and a b) c k,
  bit-bit_and a b k,
  bit-bit_and a (bit_and b c) k,
  bit-bit_and b c k,
)

pub bit_and-zero : (a : ℕ) → bit_and a 0 ≡ 0
bit_and-zero a = omega (arith, bit_and-le a 0)

pub bit_or-zero : (a : ℕ) → bit_or a 0 ≡ a
bit_or-zero a = bit_ext _ _ λ k. omega (arith, bit-bit_or a 0 k, bit-zero k)

pub merge_none : (old new : ℕ) → IsWord old → merge old new 0 ≡ old
merge_none old new h = bit_ext _ _ λ k. ground (
  arith,
  bit-bit_or (bit_and old (complement 0)) (bit_and new 0) k,
  bit-bit_and old (complement 0) k,
  bit-bit_and new 0 k,
  bit-complement_word 0 k,
  bit-zero k,
  bit-above 32 k old h,
  bit-le-one old k,
)

pub merge_full : (old new : ℕ) → IsWord new → merge old new 0xFFFFFFFF ≡ new
merge_full old new h = bit_ext _ _ λ k. ground (
  arith,
  bit-bit_or (bit_and old 0) (bit_and new 0xFFFFFFFF) k,
  bit-bit_and old 0 k,
  bit-bit_and new 0xFFFFFFFF k,
  bit-complement_word 0 k,
  bit-zero k,
  bit-above 32 k new h,
  bit-le-one new k,
)

-- A view that contains the mask shows a merge as a merge of the view.
pub merge_within :
    (old new mask view : ℕ)
    → IsWord mask
    → bit_and mask view ≡ mask
    → bit_and (merge old new mask) view ≡ merge (bit_and old view) new mask
merge_within old new mask view h within = bit_ext _ _ λ k. ground (
  arith,
  bit-bit_and (merge old new mask) view k,
  bit-bit_or (bit_and old (complement mask)) (bit_and new mask) k,
  bit-bit_and old (complement mask) k,
  bit-bit_and new mask k,
  bit-bit_or (bit_and (bit_and old view) (complement mask)) (bit_and new mask) k,
  bit-bit_and (bit_and old view) (complement mask) k,
  bit-bit_and old view k,
  bit-bit_and mask view k,
  ap (λ (t : ℕ). bit t k) within,
  bit-le-one new k,
  bit-le-one mask k,
  bit-le-one view k,
)

-- A merge under all the bits that the old value can have forgets it.
pub merge_supported :
    (old new mask : ℕ)
    → IsWord mask
    → bit_and old mask ≡ old
    → merge old new mask ≡ bit_and new mask
merge_supported old new mask h supported = bit_ext _ _ λ k. ground (
  arith,
  bit-bit_or (bit_and old (complement mask)) (bit_and new mask) k,
  bit-bit_and old (complement mask) k,
  bit-bit_and new mask k,
  bit-bit_and old mask k,
  ap (λ (t : ℕ). bit t k) supported,
  bit-complement_word mask k h,
  bit-above 32 k mask h,
  bit-le-one old k,
  bit-le-one mask k,
  bit-le-one new k,
)

-- Bits that are set are there, and bits that are cleared are not.
pub bit_or_keeps : (a mask : ℕ) → bit_and (bit_or a mask) mask ≡ mask
bit_or_keeps a mask = bit_ext _ _ λ k. ground (
  arith,
  bit-bit_and (bit_or a mask) mask k,
  bit-bit_or a mask k,
  bit-le-one a k,
  bit-le-one mask k,
)

pub bit_and-complement : (a mask : ℕ) → IsWord mask → bit_and (bit_and a (complement mask)) mask ≡ 0
bit_and-complement a mask h = bit_ext _ _ λ k. ground (
  arith,
  bit-bit_and (bit_and a (complement mask)) mask k,
  bit-bit_and a (complement mask) k,
  bit-zero k,
  bit-complement_word mask k h,
  bit-above 32 k mask h,
  bit-le-one a k,
  bit-le-one mask k,
)

pub bit_or_comm : (a b : ℕ) → bit_or a b ≡ bit_or b a
bit_or_comm a b = bit_ext _ _ λ k. ground (arith, bit-bit_or a b k, bit-bit_or b a k)
