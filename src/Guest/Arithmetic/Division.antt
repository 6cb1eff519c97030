-- ===== src/Guest/Arithmetic/Division.antt =====
-- `__udivsi3`, `__umodsi3`, `__divsi3` and `__modsi3` of Resource/CProgram/main.c against division.
use native.Mathlib.Nat.{
  add-mul, one-le-pow, add-mul-div_left, div-eq_of_lt, mod-eq-sub-mul-div, mul-add, pow-suc,
  mul_comm, mul_assoc, mul_left_comm, div-div-eq-div-mul, pow-le-pow_right, div-le_self,
}
use simple_rv.Prelude.{
  ℕ, zero, suc, ◌+◌, ◌-◌, ◌*◌, ◌/◌, ◌%◌, ◌^◌, ◌<◌, ◌≤◌, ◌≡◌, sym, ◌∙◌, ap, subst, arith, u32,
  IsWord, ◌==◌, leb, if_split, bit_and, bit_or,
}
use simple_rv.Prelude.Bits.{bit_or-sum, bit_or-disjoint, bit_and-low}
use simple_rv.Guest.Arithmetic.{shift_in, divide, udivsi3, remainder, umodsi3}

-- The quotient and the remainder of `m` by `d`.
record IsDivided (m d quotient r : ℕ) : Type 0 where
  whole : m ≡ r + d * quotient
  below : r < d

-- They are unique.
IsDivided-unique :
    (m d quotient r : ℕ) → IsDivided m d quotient r → (quotient ≡ m / d) × (r ≡ m % d)
IsDivided-unique m d quotient r h =
    let same : m / d ≡ quotient =
      ap (λ x. x / d) h.whole
      ∙ add-mul-div_left r quotient (omega (arith, h.below))
      ∙ (ap (λ x. x + quotient) (div-eq_of_lt h.below) ∙ (omega arith)) in
    (sym same, omega (arith, h.whole, mod-eq-sub-mul-div m d, ap (λ x. d * x) same))

-- Shifting the next bit of `n` into a remainder below 2 ^ 31 loses nothing.
shift_in-lem : (n i r : ℕ) → 2 * r + n / 2 ^ i % 2 < 2 ^ 32 → shift_in n i r ≡ 2 * r + n / 2 ^ i % 2
shift_in-lem n i r h =
    let low : bit_and (n / 2 ^ i) 1 ≡ n / 2 ^ i % 2 = bit_and-low 1 (n / 2 ^ i) in
    rw low (bit_or-sum 1 (r * 2 % 2 ^ 32) (n / 2 ^ i % 2) (omega arith) (omega arith) ∙ omega arith)

next_prefix : (n i : ℕ) → n / 2 ^ i ≡ 2 * (n / 2 ^ suc i) + n / 2 ^ i % 2
next_prefix n i =
    let halves : n / 2 ^ i / 2 ≡ n / 2 ^ suc i =
      div-div-eq-div-mul n (2 ^ i) 2 ∙ ap (λ x. n / x) (sym (pow-suc 2 i)) in
    omega (arith, halves)

module _ (n d : ℕ) (word : IsWord n) (positive : 0 < d) where
  -- One round: what is shifted in, and what the two branches leave.
  module _ (i quotient r : ℕ) (h : IsDivided (n / 2 ^ suc i) d quotient r) where
    shifted : shift_in n i r ≡ 2 * r + n / 2 ^ i % 2
    shifted =
        shift_in-lem n i r (omega (arith, word, h.whole, next_prefix n i, div-le_self n (2 ^ i)))

    step_over : d ≤ shift_in n i r → IsDivided (n / 2 ^ i) d (2 * quotient + 1) (shift_in n i r - d)
    step_over le = record {
      whole = omega (
        arith,
        shifted,
        le,
        h.whole,
        next_prefix n i,
        mul-add d (2 * quotient) 1,
        mul_left_comm d 2 quotient,
      );
      below = omega (arith, shifted, le, h.below);
    }

    step_under : shift_in n i r < d → IsDivided (n / 2 ^ i) d (2 * quotient) (shift_in n i r)
    step_under lt = record {
      whole = omega (arith, shifted, h.whole, next_prefix n i, mul_left_comm d 2 quotient);
      below = lt;
    }

  doubled : (i quotient : ℕ) → 2 * quotient * 2 ^ i ≡ quotient * 2 ^ suc i
  doubled i quotient =
      ap (λ x. x * 2 ^ i) (mul_comm 2 quotient)
      ∙ mul_assoc quotient 2 (2 ^ i)
      ∙ ap (λ x. quotient * x) (mul_comm 2 (2 ^ i) ∙ sym (pow-suc 2 i))

  -- Setting bit `i` below the bits of a quotient that are known.
  set_bit :
      (i quotient : ℕ)
      → i < 32
      → bit_or (quotient * 2 ^ suc i) (u32 (2 ^ i)) ≡ (2 * quotient + 1) * 2 ^ i
  set_bit i quotient lt =
      let small : 2 ^ i ≤ 2 ^ 31 = pow-le-pow_right (omega arith) {i = i} {j = 31} (omega arith) in
      let low : u32 (2 ^ i) ≡ 2 ^ i = omega (arith, small) in
      rw low (
        bit_or-disjoint (suc i) quotient (2 ^ i) (omega (arith, pow-suc 2 i, one-le-pow i 2))
        ∙ omega (arith, doubled i quotient, add-mul (2 * quotient) 1 (2 ^ i)))

  divide-lem :
      (i quotient r : ℕ)
      → i ≤ 32
      → IsDivided (n / 2 ^ i) d quotient r
      → (divide n d i (record { q = quotient * 2 ^ i; r = r })).q ≡ n / d
  unfolding divide
  divide-lem zero quotient r le h =
      let whole = IsDivided-unique (n / 2 ^ 0) d quotient r h in
      let all : n / 2 ^ 0 ≡ n = omega arith in omega (arith, whole.0, ap (λ x. x / d) all)
  divide-lem (suc i) quotient r le h =
      let r' = shift_in n i r in
      if_split (λ s. (divide n d i s).q ≡ n / d) (leb d r')
        (λ over.
          subst (λ q. (divide n d i (record { q = q; r = r' - d })).q ≡ n / d)
            (sym (set_bit i quotient (omega arith)))
            (divide-lem i (2 * quotient + 1) (r' - d) (omega arith)
              (step_over i quotient r h (ground arith))))
        (λ under.
          subst (λ q. (divide n d i (record { q = q; r = r' })).q ≡ n / d) (doubled i quotient)
            (divide-lem i (2 * quotient) r' (omega arith)
              (step_under i quotient r h (ground arith))))

  remainder-lem :
      (i quotient r : ℕ) → IsDivided (n / 2 ^ i) d quotient r → remainder n d i r ≡ n % d
  unfolding remainder
  remainder-lem zero quotient r h =
      let whole = IsDivided-unique (n / 2 ^ 0) d quotient r h in
      let all : n / 2 ^ 0 ≡ n = omega arith in whole.1 ∙ ap (λ x. x % d) all
  remainder-lem (suc i) quotient r h =
      let r' = shift_in n i r in
      if_split (λ x. remainder n d i x ≡ n % d) (leb d r')
        (λ over.
          remainder-lem i (2 * quotient + 1) (r' - d) (step_over i quotient r h (ground arith)))
        (λ under. remainder-lem i (2 * quotient) r' (step_under i quotient r h (ground arith)))

  start : IsDivided (n / 2 ^ 32) d 0 0
  start = record { whole = omega (arith, word); below = positive }

-- The loop on the bits of the dividend divides.
pub udivsi3-lem : (n d : ℕ) → IsWord n → 0 < d → udivsi3 n d ≡ n / d
unfolding udivsi3
udivsi3-lem n d word positive =
    if_split (λ x. x ≡ n / d) (d == 0) (λ z. absurd (ground arith))
      (λ _. divide-lem n d word positive 32 0 0 (omega arith) (start n d word positive))

pub umodsi3-lem : (n d : ℕ) → IsWord n → 0 < d → umodsi3 n d ≡ n % d
unfolding umodsi3
umodsi3-lem n d word positive =
    if_split (λ x. x ≡ n % d) (d == 0) (λ z. absurd (ground arith))
      (λ _. remainder-lem n d word positive 32 0 0 (start n d word positive))
