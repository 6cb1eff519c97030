-- ===== src/Isa/Engine.antt =====
-- `ExecutionEngine::executeSlot` of src/ExecutionEngine.cpp on decoded instructions, with operands
-- from wherever forwarding finds them.
use simple_rv.Prelude.{
  ℕ, ◌+◌, ◌-◌, ◌*◌, ◌/◌, ◌%◌, ◌^◌, ◌<◌, ◌≤◌, ◌≡◌, ◌≢◌, ◌⊎◌, refl, sym, subst, ap, ap₂, ◌∙◌, arith,
  u32, IsWord, true, false, not, ◌||◌, if◌then◌else◌, bit_and, complement,
}
use simple_rv.Prelude.Bits.{bit_and-low, bit_and-shifted, bit_or-zero}
use simple_rv.Types.{PipelineSlot, IdExBuffer, ExMemBuffer, MemWbBuffer, Lane, first, lane_offset}
use simple_rv.RegisterFile.{RegisterFile, read_csr}
use simple_rv.ExecutionEngine.{
  get_operand, execute_slot, execute_r_type, execute_i_type, execute_jump, execute_branch,
  execute_csr, csr_update,
}
use simple_rv.ExecutionEngine.Alu.{alu, alu_imm, branch_taken}
use simple_rv.ExecutionEngine.Alu.Signed.{
  AluOp, add, sub, sll, srl, sra, funct3_of, funct7_of, meaning, alu-meaning, alu_imm-meaning,
  BranchOp, blt, bge, branch_funct3, signed_ltb-signed,
}
use simple_rv.Isa.{
  Instruction, reg, imm, shift, load, store, branch, lui, auipc, jal, jalr, csr, system, fence,
  CsrOp, csrrw, ecall, IsEncodable, layout, signals, decoded, has_imm, is_shift, csr_funct3,
}
use simple_rv.Isa.Meaning.{condition, value, next_pc, csr_next, csr_operand}

-- The result of a slot that writes a register or accesses memory.
abbrev pub computed : PipelineSlot → ℕ
computed out = if out.d.reg_write || out.d.is_memory then out.result else 0

-- The engine's view of where the program goes on after a slot.
abbrev pub goes_to : PipelineSlot → ℕ → ℕ
goes_to out pc = if out.d.is_branch then out.jump_target else u32 (pc + 4)

-- Only a shift right looks at the function field.
alu_imm-funct7 :
    (o : AluOp) (f x v old : ℕ)
    → has_imm o ≡ true
    → alu_imm (funct3_of o) f x v old ≡ alu_imm (funct3_of o) (funct7_of o) x v old
unfolding has_imm alu_imm funct3_of funct7_of
alu_imm-funct7 add f x v old h = refl
alu_imm-funct7 srl f x v old h = cc
alu_imm-funct7 sra f x v old h = cc
alu_imm-funct7 _ f x v old h = refl

-- A shift looks at the low five bits of its operand only.
meaning-shift :
    (o : AluOp) (x v : ℕ)
    → is_shift o ≡ true
    → v < 32
    → meaning o x (v + funct7_of o * 2 ^ 5) ≡ meaning o x v
unfolding is_shift meaning funct7_of
meaning-shift sll x v h l = let e : (v + 0 * 2 ^ 5) % 32 ≡ v % 32 = omega arith in rw e
meaning-shift srl x v h l = let e : (v + 0 * 2 ^ 5) % 32 ≡ v % 32 = omega arith in rw e
meaning-shift sra x v h l = let e : (v + 0x20 * 2 ^ 5) % 32 ≡ v % 32 = omega arith in rw e
meaning-shift _ x v h l = cc

has_imm-ne-sub : (o : AluOp) → has_imm o ≡ true → o ≢ sub
unfolding has_imm
has_imm-ne-sub o h e = let no : has_imm sub ≡ true = subst (λ p. has_imm p ≡ true) e h in cc

is_shift-ne-sub : (o : AluOp) → is_shift o ≡ true → o ≢ sub
unfolding is_shift
is_shift-ne-sub o h e = let no : is_shift sub ≡ true = subst (λ p. is_shift p ≡ true) e h in cc

funct7_of-le : (o : AluOp) → funct7_of o ≤ 0x20
unfolding funct7_of
funct7_of-le add = omega arith
funct7_of-le _ = omega arith

branch_taken-condition :
    (o : BranchOp) (x y : ℕ)
    → IsWord x
    → IsWord y
    → branch_taken (branch_funct3 o) x y ≡ condition o x y
unfolding branch_taken branch_funct3 condition
branch_taken-condition blt x y h k = signed_ltb-signed x y h k
branch_taken-condition bge x y h k = ap not (signed_ltb-signed x y h k)
branch_taken-condition _ x y h k = refl

even_target : (n : ℕ) → IsWord n → bit_and n (complement 1) ≡ n / 2 * 2
even_target n h = omega (arith, bit_and-shifted 1 n (2 ^ 31 - 1), bit_and-low 31 (n / 2))

module _ (id_ex : IdExBuffer) (mem_wb : MemWbBuffer) (f : RegisterFile) (ex_mem : ExMemBuffer)
    (lane : Lane) (x : ℕ → ℕ) (operand : (r : ℕ) → get_operand r id_ex mem_wb f ex_mem lane ≡ x r)
    (word : (r : ℕ) → IsWord (x r)) where
  abbrev address : ℕ
  address = u32 (id_ex.pc + lane_offset lane)

  abbrev slot_of : Instruction → PipelineSlot → PipelineSlot
  slot_of i s = record s { d = decoded i }

  abbrev output : Instruction → PipelineSlot → PipelineSlot
  output i s = execute_slot (slot_of i s) id_ex mem_wb f ex_mem lane

  result_reg :
      (o : AluOp) (rd rs1 rs2 : ℕ) (s : PipelineSlot)
      → (output (reg o rd rs1 rs2) s).result ≡ meaning o (x rs1) (x rs2)
  unfolding execute_slot execute_r_type signals layout
  result_reg o rd rs1 rs2 s =
      ap₂ (λ a b. alu (funct3_of o) (funct7_of o) a b) (operand rs1) (operand rs2)
      ∙ alu-meaning o (x rs1) (x rs2) (word rs1) (word rs2)

  result_imm :
      (o : AluOp) (rd rs1 v : ℕ) (s : PipelineSlot)
      → IsEncodable (imm o rd rs1 v)
      → (output (imm o rd rs1 v) s).result ≡ meaning o (x rs1) v
  unfolding execute_slot execute_i_type signals layout
  result_imm o rd rs1 v s h =
      ap (λ a. alu_imm (funct3_of o) (v / 2 ^ 5 % 2 ^ 7) a v s.result) (operand rs1)
      ∙ alu_imm-funct7 o (v / 2 ^ 5 % 2 ^ 7) (x rs1) v s.result h.0
      ∙ alu_imm-meaning o (x rs1) v s.result (has_imm-ne-sub o h.0) (word rs1) (omega arith)

  result_shift :
      (o : AluOp) (rd rs1 v : ℕ) (s : PipelineSlot)
      → IsEncodable (shift o rd rs1 v)
      → (output (shift o rd rs1 v) s).result ≡ meaning o (x rs1) v
  unfolding execute_slot execute_i_type signals layout
  result_shift o rd rs1 v s h =
      let whole = v + funct7_of o * 2 ^ 5 in
      ap (λ a. alu_imm (funct3_of o) (funct7_of o) a whole s.result) (operand rs1)
      ∙ alu_imm-meaning o (x rs1) whole s.result (is_shift-ne-sub o h.0) (word rs1)
          (omega (arith, funct7_of-le o))
      ∙ meaning-shift o (x rs1) v h.0 h.3

  -- The number that a slot computes is the manual's, at the slot's own address.
  pub execute_slot-value :
      (i : Instruction) (s : PipelineSlot)
      → IsEncodable i
      → ((decoded i).is_branch ≡ false) ⊎ (lane ≡ first)
      → computed (output i s) ≡ value i address x (read_csr f)
  unfolding execute_slot execute_r_type execute_i_type execute_jump execute_branch execute_csr
      signals layout value
  execute_slot-value (reg o rd rs1 rs2) s h b = result_reg o rd rs1 rs2 s
  execute_slot-value (imm o rd rs1 v) s h b = result_imm o rd rs1 v s h
  execute_slot-value (shift o rd rs1 v) s h b = result_shift o rd rs1 v s h
  execute_slot-value (load o rd rs1 v) s h b = ap (λ a. u32 (a + v)) (operand rs1)
  execute_slot-value (store o rs1 rs2 v) s h b = ap (λ a. u32 (a + v)) (operand rs1)
  execute_slot-value (branch o rs1 rs2 v) s h b = ground arith
  execute_slot-value (lui rd v) s h b = refl
  execute_slot-value (auipc rd v) s h b = refl
  execute_slot-value (jal rd v) s h b = ground arith
  execute_slot-value (jalr rd rs1 v) s h b = ground arith
  execute_slot-value (csr csrrw rd rs1 a) s h b = ground arith
  execute_slot-value (csr o rd rs1 a) s h b = ground arith
  execute_slot-value (system ecall) s h b = refl
  execute_slot-value (system o) s h b = refl
  execute_slot-value (fence rd rs1 rs2 g) s h b = refl

  -- Where the program goes on after the first slot.
  pub execute_slot-next_pc :
      (i : Instruction) (s : PipelineSlot)
      → IsEncodable i
      → ((decoded i).is_branch ≡ false) ⊎ (lane ≡ first)
      → goes_to (output i s) address ≡ next_pc i address x
  unfolding execute_slot execute_i_type execute_r_type execute_jump execute_branch execute_csr
      signals layout next_pc
  execute_slot-next_pc (reg o rd rs1 rs2) s h b = refl
  execute_slot-next_pc (imm o rd rs1 v) s h b = refl
  execute_slot-next_pc (shift o rd rs1 v) s h b = refl
  execute_slot-next_pc (load o rd rs1 v) s h b = refl
  execute_slot-next_pc (store o rs1 rs2 v) s h b = refl
  execute_slot-next_pc (branch o rs1 rs2 v) s h b = ground (
    arith,
    operand rs1,
    operand rs2,
    branch_taken-condition o (x rs1) (x rs2) (word rs1) (word rs2),
  )
  execute_slot-next_pc (lui rd v) s h b = refl
  execute_slot-next_pc (auipc rd v) s h b = refl
  execute_slot-next_pc (jal rd v) s h b = ground arith
  execute_slot-next_pc (jalr rd rs1 v) s h b =
      ground (arith, operand rs1, even_target (u32 (x rs1 + v)) (omega arith))
  execute_slot-next_pc (csr csrrw rd rs1 a) s h b = refl
  execute_slot-next_pc (csr o rd rs1 a) s h b = refl
  execute_slot-next_pc (system ecall) s h b = refl
  execute_slot-next_pc (system o) s h b = refl
  execute_slot-next_pc (fence rd rs1 rs2 g) s h b = refl

  get_operand-zero : x 0 ≡ 0
  unfolding get_operand
  get_operand-zero = sym (operand 0)

  -- What a control register instruction gives to be committed is the manual's new value; the
  -- engine's tests for register 0 and for a zero immediate make no difference.
  pub execute_slot-csr_next :
      (o : CsrOp) (rd rs1 a : ℕ) (s : PipelineSlot)
      → IsEncodable (csr o rd rs1 a)
      → IsWord (read_csr f a)
      → (output (csr o rd rs1 a) s).csr_write_val ≡ csr_next o (read_csr f a) (csr_operand o rs1 x)
  unfolding execute_slot execute_csr csr_update csr_funct3 signals layout csr_next csr_operand
  execute_slot-csr_next csrrw rd rs1 a s h w = operand rs1
  execute_slot-csr_next o rd rs1 a s h w = ground (
    arith,
    operand rs1,
    get_operand-zero,
    bit_and-low 5 rs1,
    bit_or-zero (read_csr f a),
    bit_and-low 32 (read_csr f a),
  )
