-- ===== src/ExecutionEngine/Alu.antt =====
-- `executeRType` and the ALU part of `executeIType` in src/ExecutionEngine.cpp, and the
-- conditions of `executeBranch`.
pub mod Signed
use simple_rv.Prelude.{
  ℕ, ◌+◌, ◌-◌, ◌^◌, ◌<<◌, ◌>>◌, u32, Bool, true, false, not, ◌==◌, ltb, leb, if◌then◌else◌, bit_and,
  bit_or, bit_xor, asr, signed_ltb,
}

-- `op1 - op2` in 32 bits.
abbrev pub sub32 : ℕ → ℕ → ℕ
sub32 a b = u32 (a + 2 ^ 32 - b)

abbrev pub flag : Bool → ℕ
flag b = if b then 1 else 0

-- The result of an R-type instruction, the switch on `funct3`.
unfoldable pub alu : ℕ → ℕ → ℕ → ℕ → ℕ
alu funct3 funct7 op1 op2 =
    if funct3 == 0x0
    then (if funct7 == 0x20 then sub32 op1 op2 else u32 (op1 + op2))
    else if funct3 == 0x1
    then op1 << bit_and op2 0x1F
    else if funct3 == 0x2
    then flag (signed_ltb op1 op2)
    else if funct3 == 0x3
    then flag (ltb op1 op2)
    else if funct3 == 0x4
    then bit_xor op1 op2
    else if funct3 == 0x5
    then (if funct7 == 0x20 then asr op1 (bit_and op2 0x1F) else op1 >> bit_and op2 0x1F)
    else if funct3 == 0x6
    then bit_or op1 op2
    else if funct3 == 0x7
    then bit_and op1 op2
    else 0

-- The result of an ALU instruction with an immediate; `old` is what the slot held, which no
-- three-bit `funct3` leaves.
unfoldable pub alu_imm : ℕ → ℕ → ℕ → ℕ → ℕ → ℕ
alu_imm funct3 funct7 op1 imm old =
    let shamt = bit_and imm 0x1F in
    if funct3 == 0x0
    then u32 (op1 + imm)
    else if funct3 == 0x1
    then op1 << shamt
    else if funct3 == 0x2
    then flag (signed_ltb op1 imm)
    else if funct3 == 0x3
    then flag (ltb op1 imm)
    else if funct3 == 0x4
    then bit_xor op1 imm
    else if funct3 == 0x5
    then (if funct7 == 0x20 then asr op1 shamt else op1 >> shamt)
    else if funct3 == 0x6
    then bit_or op1 imm
    else if funct3 == 0x7
    then bit_and op1 imm
    else old

unfoldable pub branch_taken : ℕ → ℕ → ℕ → Bool
branch_taken funct3 op1 op2 =
    if funct3 == 0x0
    then op1 == op2
    else if funct3 == 0x1
    then not (op1 == op2)
    else if funct3 == 0x4
    then signed_ltb op1 op2
    else if funct3 == 0x5
    then not (signed_ltb op1 op2)
    else if funct3 == 0x6
    then ltb op1 op2
    else if funct3 == 0x7
    then leb op2 op1
    else false
