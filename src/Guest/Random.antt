-- ===== src/Guest/Random.antt =====
-- `simple_rand` of Resource/CProgram/main.c.
use simple_rv.Prelude.{
  ℕ, ◌^◌, ◌<◌, ◌≡◌, ◌≢◌, arith, inl, inr, IsWord, ◌<<◌, ◌>>◌, bit_xor, ◌%◌, ◌/◌,
}
use simple_rv.Prelude.Bits.{bit_xor-lt, bit_xor_step}
use Prim.Native.Nat.{differ, suc, zero}
use native.Mathlib.Nat.{pow-suc, eq-zero-or-pos}

-- The new `rand_state`, which is also what is returned.
unfoldable pub simple_rand : ℕ → ℕ
simple_rand s = let a = bit_xor s (s << 13) in let b = bit_xor a (a >> 17) in bit_xor b (b << 5)

differ-zero : (a b : ℕ) → a < 2 → b < 2 → differ a b ≡ 0 → a ≡ b
differ-zero zero b h k e = omega arith
differ-zero (suc a) zero h k e = omega arith
differ-zero (suc a) (suc b) h k e = omega arith

-- Only equal numbers differ in no bit.
bit_xor-eq_zero : (w x y : ℕ) → x < 2 ^ w → y < 2 ^ w → bit_xor x y ≡ 0 → x ≡ y
bit_xor-eq_zero zero x y h k e = omega arith
bit_xor-eq_zero (suc w) x y h k e =
    let high =
      bit_xor-eq_zero w (x / 2) (y / 2) (omega (arith, pow-suc 2 w)) (omega (arith, pow-suc 2 w))
        (omega (arith, bit_xor_step x y)) in
    let low =
      differ-zero (x % 2) (y % 2) (omega arith) (omega arith) (omega (arith, bit_xor_step x y)) in
    omega (arith, high, low)

-- The generator stays in the words and leaves 0 out: a state that is not 0 is never followed by 0,
-- from which it would not come away.
pub simple_rand-nonzero : (s : ℕ) → IsWord s → 0 < s → IsWord (simple_rand s) × (0 < simple_rand s)
unfolding simple_rand
simple_rand-nonzero s word h =
    let a = bit_xor s (s << 13) in
    let b = bit_xor a (a >> 17) in
    let a_word = bit_xor-lt 32 s (s << 13) word (omega arith) in
    let b_word = bit_xor-lt 32 a (a >> 17) a_word (omega (arith, a_word)) in
    let a_pos : 0 < a = positive s (s << 13) word (omega arith) (λ e. omega arith) in
    let b_pos : 0 < b = positive a (a >> 17) a_word (omega (arith, a_word)) (λ e. omega arith) in
    (
      bit_xor-lt 32 b (b << 5) b_word (omega arith),
      positive b (b << 5) b_word (omega arith) (λ e. omega (arith, b_word)),
    )
  where
    positive : (x y : ℕ) → IsWord x → IsWord y → x ≢ y → 0 < bit_xor x y
    positive x y h k ne = elim (eq-zero-or-pos (bit_xor x y)) [
      | inl z ↦ absurd (ne (bit_xor-eq_zero 32 x y h k z))
      | inr p ↦ p
    ]
