-- ===== src/Isa/Meaning.antt =====
-- What the RISC-V manual says that an instruction computes, from its address `pc` and from the
-- registers `x` and the control registers `k` before it.
use simple_rv.Prelude.{
  ℕ, ◌+◌, ◌*◌, ◌/◌, u32, Bool, not, ◌==◌, ltb, leb, if◌then◌else◌, bit_and, bit_or, complement,
}
use simple_rv.Prelude.Int.{ltb_ℤ}
use simple_rv.ExecutionEngine.Alu.Signed.{meaning, BranchOp, beq, bne, blt, bge, bltu, bgeu, signed}
use simple_rv.Isa.{
  Instruction, reg, imm, shift, load, store, branch, lui, auipc, jal, jalr, csr, CsrOp, csrrw,
  csrrs, csrrc, csrrwi, csrrsi, csrrci,
}

unfoldable pub condition : BranchOp → ℕ → ℕ → Bool
condition beq x y = x == y
condition bne x y = not (x == y)
condition blt x y = ltb_ℤ (signed x) (signed y)
condition bge x y = not (ltb_ℤ (signed x) (signed y))
condition bltu x y = ltb x y
condition bgeu x y = leb y x

-- What is written to `rd`; for a load and a store, the address that is accessed. It is 0 for an
-- instruction that has neither.
unfoldable pub value : Instruction → ℕ → (ℕ → ℕ) → (ℕ → ℕ) → ℕ
unfolding meaning
value (reg o rd rs1 rs2) pc x k = meaning o (x rs1) (x rs2)
value (imm o rd rs1 v) pc x k = meaning o (x rs1) v
value (shift o rd rs1 v) pc x k = meaning o (x rs1) v
value (load o rd rs1 v) pc x k = u32 (x rs1 + v)
value (store o rs1 rs2 v) pc x k = u32 (x rs1 + v)
value (lui rd v) pc x k = v
value (auipc rd v) pc x k = u32 (pc + v)
value (jal rd v) pc x k = u32 (pc + 4)
value (jalr rd rs1 v) pc x k = u32 (pc + 4)
value (csr o rd rs1 a) pc x k = if rd == 0 then 0 else k a
value _ pc x k = 0

-- Where the program goes on; a trap or a return from one goes elsewhere.
unfoldable pub next_pc : Instruction → ℕ → (ℕ → ℕ) → ℕ
unfolding condition
next_pc (branch o rs1 rs2 v) pc x =
    if condition o (x rs1) (x rs2) then u32 (pc + v) else u32 (pc + 4)
next_pc (jal rd v) pc x = u32 (pc + v)
next_pc (jalr rd rs1 v) pc x = u32 (x rs1 + v) / 2 * 2
next_pc _ pc x = u32 (pc + 4)

-- What a control register is written: the operand `y` is a register or an immediate.
unfoldable pub csr_next : CsrOp → ℕ → ℕ → ℕ
csr_next csrrw old y = y
csr_next csrrs old y = bit_or old y
csr_next csrrc old y = bit_and old (complement y)
csr_next csrrwi old y = y
csr_next csrrsi old y = bit_or old y
csr_next csrrci old y = bit_and old (complement y)

unfoldable pub csr_operand : CsrOp → ℕ → (ℕ → ℕ) → ℕ
csr_operand csrrw rs1 x = x rs1
csr_operand csrrs rs1 x = x rs1
csr_operand csrrc rs1 x = x rs1
csr_operand _ rs1 x = rs1
