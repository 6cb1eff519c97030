-- ===== src/Tests/Isa.antt =====
-- The theorems on the instruction table and on pairs of instructions at concrete ones.
use simple_rv.Prelude.{ℕ, ◌≡◌, refl, arith, true}
use simple_rv.Types.{empty_id_ex, empty_ex_mem, empty_mem_wb, first}
use simple_rv.RegisterFile.{RegisterFile, new_register_file, read_rs1, write_rd}
use simple_rv.RegisterFile.Valid.{
  IsValid, new_register_file-IsValid, write_rd-IsValid, read_csr-IsWord, read_rs1-IsWord,
}
use simple_rv.IssueUnit.Decode.{decode}
use simple_rv.ExecutionEngine.{get_operand}
use simple_rv.ExecutionEngine.Forwarding.{retire, retired, get_operand-first}
use simple_rv.ExecutionEngine.Alu.Signed.{add}
use simple_rv.Isa.{raw, sfence_vma, imm, decoded, layout, signals, assemble, has_imm}
use simple_rv.Isa.Assemble.{decode-assemble, decode-sfence_vma}
use simple_rv.Isa.Pairs.{IsSettled}

-- addi x1, x2, -1
decode-assemble_example :
    decode (assemble (imm add 1 2 0xFFFFFFFF)) ≡ decoded (imm add 1 2 0xFFFFFFFF)
unfolding layout signals has_imm
decode-assemble_example =
    decode-assemble (imm add 1 2 0xFFFFFFFF) (refl, omega arith, omega arith, omega arith)

-- sfence.vma x5, x6
decode-sfence_vma_example : decode 0x12628073 ≡ record (raw (sfence_vma 5 6)) { is_illegal = true }
decode-sfence_vma_example = decode-sfence_vma 5 6 (omega arith) (omega arith)

-- x1 holds 5 and x2 holds 7.
abbrev registers : RegisterFile
registers = write_rd 2 7 true (write_rd 1 5 true new_register_file)

registers-IsValid : IsValid registers
registers-IsValid =
    write_rd-IsValid 2 7 true _ (omega arith)
      (write_rd-IsValid 1 5 true _ (omega arith) new_register_file-IsValid)

settled : IsSettled empty_ex_mem empty_mem_wb registers
unfolding retire
settled = record {
  low0 = omega arith;
  low1 = omega arith;
  agrees = record {
    same_valid = λ v. cc;
    same_write = λ v. cc;
    same_rd = λ v. cc;
    same_result = λ v m. cc;
  };
  word = λ r. read_rs1-IsWord r _ (
      write_rd-IsValid _ _ _ _ (omega arith)
        (write_rd-IsValid _ _ _ _ (omega arith) registers-IsValid));
  csr_word = λ a. read_csr-IsWord a registers registers-IsValid;
}

operands :
    (r : ℕ)
    → get_operand r empty_id_ex empty_mem_wb registers empty_ex_mem first
      ≡ read_rs1 (retired empty_mem_wb registers) r
operands r =
    get_operand-first r empty_id_ex empty_mem_wb registers empty_ex_mem (omega arith) (omega arith)
      settled.agrees
