-- ===== src/ExecutionEngine/Alu/Signed.antt =====
-- The arithmetic of src/ExecutionEngine.cpp and the integers that its operands stand for.
use simple_rv.Prelude.{
  ℕ, zero, suc, ◌+◌, ◌-◌, ◌*◌, ◌/◌, ◌%◌, ◌^◌, ◌≤◌, ◌<◌, IsWord, ◌≡◌, ◌↔◌, refl, ap, sym, ◌∙◌, arith,
  true, ltb, if◌then◌else◌, asr, signed_ltb, u32, bit_and, false, bit_or, bit_xor, ◌≢◌,
}
use native.Mathlib.Nat.{
  pow-suc, one-le-pow, div-le_self, div-lt_iff_lt-mul, div-mul-le_self, lt-div-mul-add,
  div-eq_of_lt-le, mul-div_cancel,
}
use simple_rv.Prelude.Int.{ℤ, pos, negsuc, ltb_ℤ, shift_right, ◌+ℤ◌, ◌-ℤ◌}
use simple_rv.Prelude.Bits.{bit_and-low}
use simple_rv.ExecutionEngine.Alu.{alu, alu_imm, branch_taken, sub32}

-- The integer that an `int32_t` with these bits is.
abbrev pub signed : ℕ → ℤ
signed x = if ltb x (2 ^ 31) then pos x else negsuc (2 ^ 32 - x - 1)

-- The word that an integer wraps to.
abbrev pub wrap : ℤ → ℕ
wrap (pos n) = n % 2 ^ 32
wrap (negsuc n) = 2 ^ 32 - 1 - n % 2 ^ 32

pub signed_ltb-signed :
    (x y : ℕ) → IsWord x → IsWord y → signed_ltb x y ≡ ltb_ℤ (signed x) (signed y)
signed_ltb-signed x y h k = ground arith

add-wrap : (x y : ℕ) → IsWord x → IsWord y → u32 (x + y) ≡ wrap (signed x +ℤ signed y)
add-wrap x y h k = ground arith

sub-wrap : (x y : ℕ) → IsWord x → IsWord y → sub32 x y ≡ wrap (signed x -ℤ signed y)
sub-wrap x y h k = ground arith

pow_split : (k : ℕ) → k ≤ 32 → 2 ^ (32 - k) * 2 ^ k ≡ 2 ^ 32
pow_split zero h = refl
pow_split (suc k) h =
    let step : 32 - k ≡ suc (31 - k) = omega arith in
    let last : 32 - suc k ≡ 31 - k = omega arith in
    let before : 2 ^ (31 - k) * 2 * 2 ^ k ≡ 2 ^ 32 =
      rw (step, pow-suc 2 (31 - k)) at (pow_split k (omega arith)) in
    rw (last, pow-suc 2 k) (omega (arith, before))

quotient_of_complement :
    (p q x t y : ℕ) → q ≡ t + y + 1 → y * p ≤ x → x < y * p + p → (q * p - x - 1) / p ≡ t
quotient_of_complement p q x t y split low high =
    let product : q * p ≡ t * p + y * p + p = ap (λ (z : ℕ). z * p) split ∙ regroup t y p in
    div-eq_of_lt-le p (omega (arith, product)) (omega (arith, product))
  where
    regroup : (t y p : ℕ) → (t + y + 1) * p ≡ t * p + y * p + p
    regroup t y p = omega arith

-- Division of a complement rounds the other way.
div_complement : (p q x : ℕ) → 0 < p → x < q * p → (q * p - x - 1) / p ≡ q - 1 - x / p
div_complement p q x h l =
    let below : x / p < q = (div-lt_iff_lt-mul h).1 l in
    quotient_of_complement p q x (q - 1 - x / p) (x / p) (omega arith) (div-mul-le_self x p)
      (lt-div-mul-add h)

pub asr-wrap : (x k : ℕ) → IsWord x → k < 32 → asr x k ≡ wrap (shift_right (signed x) k)
asr-wrap x k h l =
    let p = 2 ^ k in
    let positive : 0 < p = one-le-pow k 2 (omega arith) in
    let split : 2 ^ (32 - k) * p ≡ 2 ^ 32 = pow_split k (omega arith) in
    let inverse : 2 ^ 32 / p ≡ 2 ^ (32 - k) =
      ap (λ (z : ℕ). z / p) (sym split) ∙ mul-div_cancel (2 ^ (32 - k)) positive in
    let rounded : (2 ^ 32 - x - 1) / p ≡ 2 ^ (32 - k) - 1 - x / p =
      rw split at (div_complement p (2 ^ (32 - k)) x positive (omega (arith, split))) in
    ground (
      arith,
      inverse,
      rounded,
      div-le_self x p,
      div-le_self (2 ^ 32) p,
      div-le_self (2 ^ 32 - x - 1) p,
      below_quotient p (2 ^ (32 - k)) x positive,
      split,
    )
  where
    below_quotient : (p q x : ℕ) → 0 < p → x < q * p → x / p < q
    below_quotient p q x h l = (div-lt_iff_lt-mul h).1 l

-- The register instructions of RV32I by their names.
pub data AluOp : Type 0 where
  add sub sll slt sltu xor srl sra or and : AluOp

unfoldable pub funct3_of : AluOp → ℕ
funct3_of add = 0
funct3_of sub = 0
funct3_of sll = 1
funct3_of slt = 2
funct3_of sltu = 3
funct3_of xor = 4
funct3_of srl = 5
funct3_of sra = 5
funct3_of or = 6
funct3_of and = 7

unfoldable pub funct7_of : AluOp → ℕ
funct7_of sub = 0x20
funct7_of sra = 0x20
funct7_of _ = 0

-- What the manual says that each computes, on integers where it reads its operands as signed.
-- A shift uses the low five bits of its second operand.
unfoldable pub meaning : AluOp → ℕ → ℕ → ℕ
meaning add x y = wrap (signed x +ℤ signed y)
meaning sub x y = wrap (signed x -ℤ signed y)
meaning sll x y = x * 2 ^ (y % 32) % 2 ^ 32
meaning slt x y = if ltb_ℤ (signed x) (signed y) then 1 else 0
meaning sltu x y = if ltb x y then 1 else 0
meaning xor x y = bit_xor x y
meaning srl x y = x / 2 ^ (y % 32)
meaning sra x y = wrap (shift_right (signed x) (y % 32))
meaning or x y = bit_or x y
meaning and x y = bit_and x y

-- The R-type switch computes what the manual says, for each of the ten instructions and on all
-- words.
pub alu-meaning :
    (o : AluOp) (x y : ℕ)
    → IsWord x
    → IsWord y
    → alu (funct3_of o) (funct7_of o) x y ≡ meaning o x y
unfolding alu funct3_of funct7_of meaning
alu-meaning add x y h k = add-wrap x y h k
alu-meaning sub x y h k = sub-wrap x y h k
alu-meaning sll x y h k = rw (bit_and-low 5 y) refl
alu-meaning slt x y h k = rw (signed_ltb-signed x y h k) refl
alu-meaning sltu x y h k = refl
alu-meaning xor x y h k = refl
alu-meaning srl x y h k = rw (bit_and-low 5 y) refl
alu-meaning sra x y h k = rw (bit_and-low 5 y) (asr-wrap x (y % 32) h (omega arith))
alu-meaning or x y h k = refl
alu-meaning and x y h k = refl

-- The immediate switch computes what the manual says with the immediate for the second operand, for
-- each instruction but subtraction, which has no immediate form, and on all words.
pub alu_imm-meaning :
    (o : AluOp) (x imm old : ℕ)
    → o ≢ sub
    → IsWord x
    → IsWord imm
    → alu_imm (funct3_of o) (funct7_of o) x imm old ≡ meaning o x imm
unfolding alu alu_imm funct3_of funct7_of
alu_imm-meaning add x y old n h k = alu-meaning add x y h k
alu_imm-meaning sub x y old n h k = absurd (n refl)
alu_imm-meaning o x y old n h k = alu-meaning o x y h k

-- The conditional branches by their names.
pub data BranchOp : Type 0 where
  beq bne blt bge bltu bgeu : BranchOp

unfoldable pub branch_funct3 : BranchOp → ℕ
branch_funct3 beq = 0
branch_funct3 bne = 1
branch_funct3 blt = 4
branch_funct3 bge = 5
branch_funct3 bltu = 6
branch_funct3 bgeu = 7

unfoldable pub Holds : BranchOp → ℕ → ℕ → Type 0
Holds beq x y = x ≡ y
Holds bne x y = x ≢ y
Holds blt x y = ltb_ℤ (signed x) (signed y) ≡ true
Holds bge x y = ltb_ℤ (signed x) (signed y) ≡ false
Holds bltu x y = x < y
Holds bgeu x y = y ≤ x

-- A branch is taken exactly when the manual's condition on its operands holds, for each of the
-- six branches and on all words.
pub branch_taken-Holds :
    (o : BranchOp) (x y : ℕ)
    → IsWord x
    → IsWord y
    → (branch_taken (branch_funct3 o) x y ≡ true) ↔ Holds o x y
unfolding branch_taken branch_funct3 Holds
branch_taken-Holds beq x y h k = ground arith
branch_taken-Holds _ x y h k = ground arith
