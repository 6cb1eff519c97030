-- ===== src/Prelude/Bits/Fields.antt =====
-- Fields of a word: `&` with a run of ones and `|` of disjoint fields, as arithmetic.
use Prim.Native.Nat.{ℕ, zero, suc, ◌+◌, ◌-◌, ◌*◌, ◌/◌, ◌%◌, ◌^◌, ◌≤◌, ◌<◌, bit_and, bit_or}
use mathlib.Core.Path.{◌≡◌, refl, ap, ◌∙◌}
use native.Mathlib.Nat.{pow-suc, one-le-pow, add_comm, div-add-mod'}
use native.Mathlib.Omega.{arith}
use simple_rv.Prelude.Bits.Digits.{bit_and_step, bit_or_step}
use mathlib.Core.Logic.{◌⊎◌, inl, inr}
use simple_rv.Prelude.Tests.{◌==◌}
use simple_rv.Prelude.Words.{has_bits}
use simple_rv.Prelude.Bits.Single.{bit, bit-le-one}
use simple_rv.Prelude.Bits.Masks.{bit_and-zero, bit_or-zero, bit_or_comm}

shift_one_more : (q k : ℕ) → q * 2 ^ suc k ≡ 2 * (q * 2 ^ k)
shift_one_more q k = omega (arith, ap (λ (t : ℕ). q * t) (pow-suc 2 k))

half_shift : (q k : ℕ) → q * 2 ^ suc k / 2 ≡ q * 2 ^ k
half_shift q k = omega (arith, shift_one_more q k)

div_twice : (p a : ℕ) → 0 < p → a / 2 / p ≡ a / (2 * p)
div_twice p a h = grind arith

halve_first : (k a : ℕ) → a / 2 / 2 ^ k ≡ a / 2 ^ suc k
halve_first k a =
    div_twice (2 ^ k) a (one-le-pow k 2 (omega arith))
    ∙ ap (λ (t : ℕ). a / t) (omega (arith, pow-suc 2 k))

-- A field above `k` bits and a field within them: `|` is their sum.
pub bit_or-disjoint : (k q r : ℕ) → r < 2 ^ k → bit_or (q * 2 ^ k) r ≡ q * 2 ^ k + r
bit_or-disjoint zero q r h = ground (arith, bit_or-zero q)
bit_or-disjoint (suc k) q r h = omega (
  arith,
  pow-suc 2 k,
  shift_one_more q k,
  bit_or_step (q * 2 ^ suc k) r,
  ap (λ (t : ℕ). bit_or t (r / 2)) (half_shift q k),
  bit_or-disjoint k q (r / 2) (omega (arith, pow-suc 2 k)),
)

-- A mask of `w` ones keeps the remainder by `2 ^ w`.
pub bit_and-low : (w a : ℕ) → bit_and a (2 ^ w - 1) ≡ a % 2 ^ w
bit_and-low zero a = omega (arith, bit_and-zero a)
bit_and-low (suc w) a = ground (
  arith,
  pow-suc 2 w,
  one-le-pow w 2,
  bit_and_step a (2 ^ suc w - 1),
  ap (λ (t : ℕ). bit_and (a / 2) t) (half_ones w),
  bit_and-low w (a / 2),
  mod_step (2 ^ w) a,
)
  where
    half_ones : (w : ℕ) → (2 ^ suc w - 1) / 2 ≡ 2 ^ w - 1
    half_ones w = omega (arith, pow-suc 2 w, one-le-pow w 2)

    mod_step : (p a : ℕ) → a % (2 * p) ≡ a / 2 % p * 2 + a % 2
    mod_step p a = grind arith

-- A mask that is shifted by `k` reads the bits from `k` on.
pub bit_and-shifted : (k a m : ℕ) → bit_and a (m * 2 ^ k) ≡ bit_and (a / 2 ^ k) m * 2 ^ k
bit_and-shifted zero a m = ground arith
bit_and-shifted (suc k) a m = omega (
  arith,
  shift_one_more m k,
  bit_and_step a (m * 2 ^ suc k),
  ap (λ (t : ℕ). bit_and (a / 2) t) (half_shift m k),
  bit_and-shifted k (a / 2) m,
  shift_one_more (bit_and (a / 2 ^ suc k) m) k,
  ap (λ (t : ℕ). bit_and t m * 2 ^ k) (halve_first k a),
)

-- Bit k is the remainder by 2 of what is above the bits below k.
pub bit_lem : (k a : ℕ) → a / 2 ^ k % 2 ≡ bit a k
unfolding bit
bit_lem zero a = omega arith
bit_lem (suc k) a = rw (← halve_first k a) (bit_lem k (a / 2))

-- A single-bit mask as a condition.
pub bit_and-one_bit : (k a : ℕ) → bit_and a (2 ^ k) ≡ bit a k * 2 ^ k
bit_and-one_bit k a = omega (
  arith,
  bit_and-shifted k a 1,
  ap (λ (t : ℕ). bit_and a t) (one_times (2 ^ k)),
  ap (λ (t : ℕ). t * 2 ^ k) (bit_and-low 1 (a / 2 ^ k)),
  ap (λ (t : ℕ). t * 2 ^ k) (bit_lem k a),
)
  where
    one_times : (p : ℕ) → 1 * p ≡ p
    one_times p = omega arith

pub has_bits-bit : (k a : ℕ) → has_bits a (2 ^ k) ≡ (bit a k == 1)
has_bits-bit k a =
    ground (arith, bit_and-one_bit k a, bit-le-one a k, one-le-pow k 2, no_or_one (2 ^ k) (bit a k))
  where
    no_or_one : (p b : ℕ) → b ≤ 1 → (b * p ≡ 0) ⊎ (b ≡ 1)
    no_or_one p zero h = inl (omega arith)
    no_or_one p (suc zero) h = inr refl
    no_or_one p (suc (suc b)) h = absurd (omega arith)

-- `|` of a number with zeros in its low bits and a number within them is the sum, on either side.
pub bit_or-sum : (k x r : ℕ) → x % 2 ^ k ≡ 0 → r < 2 ^ k → bit_or x r ≡ x + r
bit_or-sum k x r h p =
    let whole : x / 2 ^ k * 2 ^ k ≡ x = omega (arith, div-add-mod' x (2 ^ k)) in
    rw whole at (bit_or-disjoint k (x / 2 ^ k) r p)

pub bit_or-sum_right : (k x r : ℕ) → x % 2 ^ k ≡ 0 → r < 2 ^ k → bit_or r x ≡ r + x
bit_or-sum_right k x r h p = bit_or_comm r x ∙ bit_or-sum k x r h p ∙ add_comm x r
