-- ===== src/Guest/Arithmetic/Signed.antt =====
-- `__divsi3` and `__modsi3` of Resource/CProgram/main.c against signed division.
use native.Mathlib.Nat.{div-le_self, mod-le}
use simple_rv.Prelude.{
  ℕ, suc, ◌-◌, ◌/◌, ◌%◌, ◌^◌, ◌<◌, ◌≤◌, ◌≡◌, inl, inr, refl, ◌∙◌, ap, arith, IsWord, Bool,
  Bool-cases, is_negative, not, if◌then◌else◌, true, false, ltb,
}
use simple_rv.Prelude.Int.{ℤ, pos, negsuc, sub_ℕ}
use simple_rv.ExecutionEngine.Alu.Signed.{signed, wrap}
use simple_rv.Guest.Arithmetic.{udivsi3, umodsi3, magnitude, signed_by, divsi3, modsi3}
use simple_rv.Guest.Arithmetic.Division.{udivsi3-lem, umodsi3-lem}

-- Division rounded towards 0, as C has it, and its remainder, which has the dividend's sign.
unfoldable pub quotient_ℤ : ℤ → ℤ → ℤ
quotient_ℤ (pos n) (pos d) = pos (n / d)
quotient_ℤ (pos n) (negsuc d) = sub_ℕ 0 (n / suc d)
quotient_ℤ (negsuc n) (pos d) = sub_ℕ 0 (suc n / d)
quotient_ℤ (negsuc n) (negsuc d) = pos (suc n / suc d)

unfoldable pub remainder_ℤ : ℤ → ℤ → ℤ
remainder_ℤ (pos n) (pos d) = pos (n % d)
remainder_ℤ (pos n) (negsuc d) = pos (n % suc d)
remainder_ℤ (negsuc n) (pos d) = sub_ℕ 0 (suc n % d)
remainder_ℤ (negsuc n) (negsuc d) = sub_ℕ 0 (suc n % suc d)

-- Attaching a sign to a number up to 2 ^ 31.
signed_by-negative : (v : ℕ) → v ≤ 2 ^ 31 → signed_by true v ≡ wrap (sub_ℕ 0 v)
signed_by-negative v h = ground arith

-- The integer `z` with this sign and magnitude.
abbrev Shows : Bool → ℕ → ℤ → Type 0
Shows false m z = z ≡ pos m
Shows true m z = (p : ℕ) × (m ≡ suc p) × (z ≡ negsuc p)

signed-Shows : (n : ℕ) → IsWord n → Shows (is_negative n) (magnitude n) (signed n)
signed-Shows n h = elim (Bool-cases (ltb n (2 ^ 31))) [
  | inl p ↦ rw p refl
  | inr p ↦ rw p (2 ^ 32 - n - 1, ground arith, refl)
]

signs :
    (a b : Bool) (m k : ℕ) (z w : ℤ)
    → Shows a m z
    → Shows b k w
    → m / k ≤ 2 ^ 31
    → m % k ≤ 2 ^ 31
    → (signed_by (if a then not b else b) (m / k) ≡ wrap (quotient_ℤ z w))
      × (signed_by a (m % k) ≡ wrap (remainder_ℤ z w))
unfolding quotient_ℤ remainder_ℤ
signs false false m k z w h l p q = rw (h, l) (refl, refl)
signs false true m k z w h (y, i, l) p q = rw (h, l, ← i) (signed_by-negative (m / k) p, refl)
signs true false m k z w (x, j, h) l p q =
    rw (h, l, ← j) (signed_by-negative (m / k) p, signed_by-negative (m % k) q)
signs true true m k z w (x, j, h) (y, i, l) p q =
    rw (h, l, ← i, ← j) (refl, signed_by-negative (m % k) q)

module _ (n d : ℕ) (n_word : IsWord n) (d_word : IsWord d) (nonzero : 0 < d) where
  abbrev m : ℕ
  m = magnitude n

  abbrev k : ℕ
  k = magnitude d

  magnitudes : (m ≤ 2 ^ 31) × (0 < k)
  magnitudes = ground arith

  small_quotient : m / k ≤ 2 ^ 31
  small_quotient = omega (arith, magnitudes, div-le_self m k)

  small_remainder : m % k ≤ 2 ^ 31
  small_remainder = omega (arith, magnitudes, mod-le m k)

  divided : udivsi3 m k ≡ m / k
  divided = udivsi3-lem m k (omega (arith, magnitudes)) magnitudes.1

  left_over : umodsi3 m k ≡ m % k
  left_over = umodsi3-lem m k (omega (arith, magnitudes)) magnitudes.1

  -- `__divsi3` and `__modsi3` give the 32 bits of the quotient that is rounded towards 0 and of its
  -- remainder, for words as signed numbers and a divisor that is not 0.
  pub divsi3-modsi3 :
      (divsi3 n d ≡ wrap (quotient_ℤ (signed n) (signed d)))
      × (modsi3 n d ≡ wrap (remainder_ℤ (signed n) (signed d)))
  unfolding divsi3 modsi3
  divsi3-modsi3 =
      let bits =
        signs (is_negative n) (is_negative d) m k (signed n) (signed d) (signed-Shows n n_word)
          (signed-Shows d d_word) small_quotient small_remainder in
      (
        ap (signed_by (if is_negative n then not (is_negative d) else is_negative d)) divided
            ∙ bits.0,
        ap (signed_by (is_negative n)) left_over ∙ bits.1,
      )
