-- ===== src/Guest/Arithmetic/Multiplication.antt =====
-- `__mulsi3` of Resource/CProgram/main.c against multiplication.
use native.Mathlib.Nat.{mul-add, mul_assoc, mul_comm, pow-suc, mod-eq_of_lt}
use simple_rv.Prelude.{
  ℕ, zero, suc, ◌+◌, ◌*◌, ◌/◌, ◌%◌, ◌^◌, ◌<◌, ◌≡◌, sym, ◌∙◌, ap, subst, arith, u32, IsWord, ◌==◌,
  if_split, not, bit_and, some, ◌<<◌, ◌>>◌,
}
use simple_rv.Prelude.Bits.{bit_and-low}
use simple_rv.Guest.Arithmetic.{multiply, mulsi3}

-- The last bit of `b` and its other bits.
halves : (a b : ℕ) → a * b ≡ 2 * a * (b / 2) + a * (b % 2)
halves a b =
    let split : b ≡ 2 * (b / 2) + b % 2 = omega arith in
    ap (λ x. a * x) split
    ∙ mul-add a (2 * (b / 2)) (b % 2)
    ∙ ap (λ x. x + a * (b % 2)) (sym (mul_assoc a 2 (b / 2)) ∙ ap (λ x. x * (b / 2)) (mul_comm a 2))

-- With as many rounds as `b` has bits the loop ends, and all that it drops is what 32 bits drop.
multiply-lem :
    (fuel a b res : ℕ) → b < 2 ^ fuel → multiply fuel (u32 a) b (u32 res) ≡ some (u32 (res + a * b))
unfolding multiply
multiply-lem zero a b res h = let z : b ≡ 0 = omega arith in rw z (ap some (omega arith))
multiply-lem (suc fuel) a b res h =
    if_split (λ x. x ≡ some (u32 (res + a * b))) (b == 0)
      (λ e. let z : b ≡ 0 = ground arith in rw z (ap some (omega arith)))
      (λ _.
        let low : bit_and b 1 ≡ b % 2 = bit_and-low 1 b in
        let doubled : u32 a << 1 ≡ u32 (2 * a) = omega arith in
        let less : b / 2 < 2 ^ fuel = omega (arith, h, pow-suc 2 fuel) in
        if_split (λ r. multiply fuel (u32 a << 1) (b >> 1) r ≡ some (u32 (res + a * b)))
          (not (bit_and b 1 == 0))
          (λ odd.
            let one : b % 2 ≡ 1 = ground arith in
            let sum : u32 (u32 res + u32 a) ≡ u32 (res + a) = omega arith in
            let total : res + a + 2 * a * (b / 2) ≡ res + a * b =
              omega (arith, halves a b, ap (λ x. a * x) one) in
            rw (doubled, sum)
              (multiply-lem fuel (2 * a) (b / 2) (res + a) less ∙ ap (λ x. some (u32 x)) total))
          (λ even.
            let none_left : b % 2 ≡ 0 = ground arith in
            let total : res + 2 * a * (b / 2) ≡ res + a * b =
              omega (arith, halves a b, ap (λ x. a * x) none_left) in
            rw doubled (multiply-lem fuel (2 * a) (b / 2) res less ∙ ap (λ x. some (u32 x)) total)))

-- `__mulsi3` returns on all words, and what it returns is the low word of the product.
pub mulsi3-lem : (a b : ℕ) → IsWord a → IsWord b → mulsi3 a b ≡ some (u32 (a * b))
unfolding mulsi3
mulsi3-lem a b h k =
    let sum : 0 + a * b ≡ a * b = omega arith in
    subst (λ x. multiply 32 x b 0 ≡ some (u32 (a * b))) (mod-eq_of_lt h)
      (multiply-lem 32 a b 0 k ∙ ap (λ x. some (u32 x)) sum)
