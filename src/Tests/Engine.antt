-- ===== src/Tests/Engine.antt =====
-- The execution engine's theorems at concrete operands.
use simple_rv.Prelude.{◌≡◌, ◌↔◌, arith, true}
use simple_rv.Types.{
  PipelineSlot, empty_slot, no_data, ExMemBuffer, empty_ex_mem, MemWbBuffer, empty_mem_wb,
}
use simple_rv.ExecutionEngine.Alu.{alu, branch_taken}
use simple_rv.ExecutionEngine.Alu.Signed.{
  sra, blt, Holds, meaning, funct3_of, funct7_of, branch_funct3, alu-meaning, branch_taken-Holds,
}

-- -16 shifted by 2 is -4.
alu-meaning_example : alu 5 0x20 0xFFFFFFF0 2 ≡ 0xFFFFFFFC
unfolding alu funct3_of funct7_of meaning
alu-meaning_example = alu-meaning sra 0xFFFFFFF0 2 (omega arith) (omega arith)

branch_taken-Holds_example : (branch_taken 4 0xFFFFFFFF 1 ≡ true) ↔ Holds blt 0xFFFFFFFF 1
unfolding branch_funct3
branch_taken-Holds_example = branch_taken-Holds blt 0xFFFFFFFF 1 (omega arith) (omega arith)

-- An instruction that writes 42 to x7.
abbrev writes_x7 : PipelineSlot
writes_x7 = record empty_slot {
  valid = true;
  rd = 7;
  result = 42;
  reg_write = true;
  d = record no_data { rd = 7; reg_write = true };
}

abbrev in_ex_mem : ExMemBuffer
in_ex_mem = record empty_ex_mem { slots = record { lane0 = writes_x7; lane1 = empty_slot } }

abbrev in_mem_wb : MemWbBuffer
in_mem_wb = record empty_mem_wb { slots = record { lane0 = writes_x7; lane1 = empty_slot } }
