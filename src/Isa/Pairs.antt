-- ===== src/Isa/Pairs.antt =====
-- `ExecutionEngine::execute` of src/ExecutionEngine.cpp on the instructions of ID_EX.
use simple_rv.Prelude.{ℕ, ◌+◌, ◌<◌, ◌≡◌, ap, ◌∙◌, u32, IsWord}
use simple_rv.Types.{IdExBuffer, ExMemBuffer, MemWbBuffer}
use simple_rv.RegisterFile.{RegisterFile, read_rs1, read_csr}
use simple_rv.IssueUnit.Pairing.{ArePairable}
use simple_rv.ExecutionEngine.{execute}
use simple_rv.ExecutionEngine.Forwarding.{retired, Agrees}
use simple_rv.Isa.{Instruction, decoded}
use simple_rv.Isa.Meaning.{value, next_pc}
use simple_rv.Isa.Engine.{computed, goes_to}
use simple_rv.Isa.Sequential.{
  Carries, complete, execute-lane0, execute-lane1, out0-value, out0-next_pc, out1-value,
}

-- The latches and the registers as the execute stage finds them: destinations are register numbers,
-- EX_MEM and MEM_WB agree, and the registers hold words.
pub record IsSettled (ex_mem : ExMemBuffer) (mem_wb : MemWbBuffer) (f : RegisterFile) : Type 0 where
  pub low0 : mem_wb.slots.lane0.rd < 32
  pub low1 : mem_wb.slots.lane1.rd < 32
  pub agrees : Agrees ex_mem mem_wb
  pub word : (r : ℕ) → IsWord (read_rs1 (retired mem_wb f) r)
  pub csr_word : (a : ℕ) → IsWord (read_csr f a)

module _ (id_ex : IdExBuffer) (ex_mem : ExMemBuffer) (mem_wb : MemWbBuffer) (f : RegisterFile)
    (settled : IsSettled ex_mem mem_wb f) (i0 : Instruction)
    (c0 : Carries id_ex.slots.lane0 i0) where
  -- The first slot's instruction computes the number and the next address that the manual gives it
  -- in the registers that the instructions of MEM_WB leave, whatever the second slot holds. The
  -- next address is that of an instruction that does not trap.
  pub execute-first :
      (computed (execute id_ex ex_mem mem_wb f).slots.lane0
        ≡ value i0 (u32 (id_ex.pc + 0)) (read_rs1 (retired mem_wb f)) (read_csr f))
      × (goes_to (execute id_ex ex_mem mem_wb f).slots.lane0 (u32 (id_ex.pc + 0))
          ≡ next_pc i0 (u32 (id_ex.pc + 0)) (read_rs1 (retired mem_wb f)))
  execute-first =
      let lane = execute-lane0 id_ex ex_mem mem_wb f c0.valid in
      let s = settled in
      (
        ap computed lane
            ∙ out0-value id_ex ex_mem mem_wb f s.low0 s.low1 s.agrees s.word s.csr_word i0 c0,
        ap (λ out. goes_to out (u32 (id_ex.pc + 0))) lane
            ∙ out0-next_pc id_ex ex_mem mem_wb f s.low0 s.low1 s.agrees s.word s.csr_word i0 c0,
      )

  -- The second slot's instruction, where the pair may be issued together, computes the number that
  -- the manual gives it in the registers that a machine has after it completed the first slot's
  -- instruction on its own, whatever that one loads if it is a load.
  pub execute-second :
      (i1 : Instruction)
      → Carries id_ex.slots.lane1 i1
      → ArePairable (decoded i0) (decoded i1)
      → (loaded : ℕ)
      → computed (execute id_ex ex_mem mem_wb f).slots.lane1
        ≡ value i1
            (u32 (id_ex.pc + 4))
            (read_rs1 (complete i0 (u32 (id_ex.pc + 0)) loaded (retired mem_wb f)))
            (read_csr f)
  execute-second i1 c1 pair loaded =
      let s = settled in
      ap computed (execute-lane1 id_ex ex_mem mem_wb f c0.valid c1.valid)
      ∙ out1-value id_ex ex_mem mem_wb f s.low0 s.low1 s.agrees s.word s.csr_word i0 c0 i1 c1 pair
          loaded
