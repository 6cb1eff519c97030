-- ===== src/Isa/Sequential.antt =====
-- A pair of instructions through `ExecutionEngine::execute` of src/ExecutionEngine.cpp, against a
-- machine that completes them one after the other.
use simple_rv.Prelude.{
  ℕ, ◌+◌, ◌<◌, ◌≡◌, inl, inr, refl, sym, subst, ap, ◌∙◌, arith, u32, IsWord, true, not, ◌==◌, ◌&&◌,
  if◌then◌else◌,
}
use mathlib.Core.Path.{fun_ext}
use simple_rv.Types.{
  DecodedData, PipelineSlot, IdExBuffer, ExMemBuffer, MemWbBuffer, Lane, first, second, set_lane,
}
use simple_rv.RegisterFile.{RegisterFile, read_rs1, write_rd, read_csr}
use simple_rv.RegisterFile.ReadWrite.{read_rs1-write_rd, read_csr-write_rd}
use simple_rv.IssueUnit.{reads}
use simple_rv.IssueUnit.Pairing.{ArePairable}
use simple_rv.ExecutionEngine.{
  get_operand, execute_slot, execute_r_type, execute_i_type, execute_jump, execute_branch,
  execute_csr, execute_lane, execute,
}
use simple_rv.ExecutionEngine.Forwarding.{
  retire, retired, Agrees, get_operand-first, get_operand-second,
}
use simple_rv.Isa.{Instruction, IsEncodable, decoded}
use simple_rv.Isa.Meaning.{value, next_pc}
use simple_rv.Isa.Engine.{computed, goes_to, execute_slot-value, execute_slot-next_pc}
use simple_rv.Isa.Words.{value-IsWord, value-reads}

-- A slot carries an instruction: it is decoded, and the copies of its destination agree.
pub record Carries (s : PipelineSlot) (i : Instruction) : Type 0 where
  pub encodable : IsEncodable i
  pub valid : s.valid ≡ true
  pub decodes : s.d ≡ decoded i
  pub same_rd : s.rd ≡ s.d.rd
  pub same_write : s.reg_write ≡ s.d.reg_write
  pub in_range : s.rd < 32

-- The registers once the machine has completed an instruction at `pc`; a load delivers `loaded`.
abbrev pub complete : Instruction → ℕ → ℕ → RegisterFile → RegisterFile
complete i pc loaded f =
    write_rd (decoded i).rd
      (if (decoded i).is_memory then loaded else value i pc (read_rs1 f) (read_csr f))
      (decoded i).reg_write f

-- An execution changes no field of a slot that write-back or forwarding looks at but the result.
pub record Keeps (s out : PipelineSlot) : Type 0 where
  pub rd : out.rd ≡ s.rd
  pub reg_write : out.reg_write ≡ s.reg_write
  pub d_rd : out.d.rd ≡ s.d.rd
  pub d_reg_write : out.d.reg_write ≡ s.d.reg_write
  pub d_is_memory : out.d.is_memory ≡ s.d.is_memory
  pub instr : out.instr ≡ s.instr
  pub d_imm : out.d.imm ≡ s.d.imm

pub execute_slot-Keeps :
    (s : PipelineSlot) (id_ex : IdExBuffer) (mem_wb : MemWbBuffer) (f : RegisterFile)
    (ex_mem : ExMemBuffer) (lane : Lane)
    → Keeps s (execute_slot s id_ex mem_wb f ex_mem lane)
unfolding execute_slot execute_r_type execute_i_type execute_jump execute_branch execute_csr
execute_slot-Keeps s id_ex mem_wb f ex_mem lane = ground arith

-- A load's result does not matter to an instruction that may be paired with the load.
pair_reads :
    (d0 d1 : DecodedData) (r v b loaded : ℕ)
    → ArePairable d0 d1
    → reads d1 r ≡ true
    → (if d0.reg_write && not (r == 0) && r == d0.rd then v else b) ≡ (
        if d0.reg_write && not (r == 0) && r == d0.rd
        then (if d0.is_memory then loaded else v)
        else b)
pair_reads d0 d1 r v b loaded p h = ground (arith, p.no_load_use)

pub read_csr-retired :
    (mem_wb : MemWbBuffer) (f : RegisterFile) (a : ℕ) → read_csr (retired mem_wb f) a ≡ read_csr f a
unfolding retire
read_csr-retired mem_wb f a = read_csr-write_rd _ _ _ _ a ∙ read_csr-write_rd _ _ _ f a

module _ (id_ex : IdExBuffer) (ex_mem : ExMemBuffer) (mem_wb : MemWbBuffer) (f : RegisterFile) where
  -- The first slot's result, EX_MEM as the second slot reads it, and the second slot's result.
  abbrev pub out0 : PipelineSlot
  out0 = record (execute_slot id_ex.slots.lane0 id_ex mem_wb f ex_mem first) { valid = true }

  abbrev pub shown : ExMemBuffer
  shown = record ex_mem { slots = set_lane ex_mem.slots first out0 }

  abbrev pub out1 : PipelineSlot
  out1 = record (execute_slot id_ex.slots.lane1 id_ex mem_wb f shown second) { valid = true }

  pub execute-lane0 :
      id_ex.slots.lane0.valid ≡ true → (execute id_ex ex_mem mem_wb f).slots.lane0 ≡ out0
  unfolding execute execute_lane
  execute-lane0 valid0 = ground arith

  pub execute-lane1 :
      id_ex.slots.lane0.valid ≡ true
      → id_ex.slots.lane1.valid ≡ true
      → (execute id_ex ex_mem mem_wb f).slots.lane1 ≡ out1
  unfolding execute execute_lane
  execute-lane1 valid0 valid1 = ground arith

  module _ (low0 : mem_wb.slots.lane0.rd < 32) (low1 : mem_wb.slots.lane1.rd < 32)
      (agrees : Agrees ex_mem mem_wb) (word : (r : ℕ) → IsWord (read_rs1 (retired mem_wb f) r))
      (csr_word : (a : ℕ) → IsWord (read_csr f a)) (i0 : Instruction)
      (c0 : Carries id_ex.slots.lane0 i0) where
    abbrev before : ℕ → ℕ
    before r = read_rs1 (retired mem_wb f) r

    abbrev pc0 : ℕ
    pc0 = u32 (id_ex.pc + 0)

    operand_first : (r : ℕ) → get_operand r id_ex mem_wb f ex_mem first ≡ before r
    operand_first r = get_operand-first r id_ex mem_wb f ex_mem low0 low1 agrees

    kept : Keeps id_ex.slots.lane0 (execute_slot id_ex.slots.lane0 id_ex mem_wb f ex_mem first)
    kept = execute_slot-Keeps id_ex.slots.lane0 id_ex mem_wb f ex_mem first

    abbrev run_first : DecodedData → PipelineSlot
    run_first d = execute_slot (record (id_ex.slots.lane0) { d = d }) id_ex mem_wb f ex_mem first

    pub out0-value : computed out0 ≡ value i0 pc0 before (read_csr f)
    out0-value =
        subst (λ d. computed (run_first d) ≡ value i0 pc0 before (read_csr f)) (sym c0.decodes)
          (execute_slot-value id_ex mem_wb f ex_mem first before operand_first word i0
            id_ex.slots.lane0 c0.encodable (inr refl))

    pub out0-next_pc : goes_to out0 pc0 ≡ next_pc i0 pc0 before
    out0-next_pc =
        subst (λ d. goes_to (run_first d) pc0 ≡ next_pc i0 pc0 before) (sym c0.decodes)
          (execute_slot-next_pc id_ex mem_wb f ex_mem first before operand_first word i0
            id_ex.slots.lane0 c0.encodable (inr refl))

    after_first : ℕ → ℕ
    after_first r = read_rs1 (retire out0 (retired mem_wb f)) r

    operand_second : (r : ℕ) → get_operand r id_ex mem_wb f shown second ≡ after_first r
    unfolding after_first
    operand_second r =
        let k = kept in
        get_operand-second r id_ex mem_wb f shown low0 low1 (ground arith) refl
          (k.reg_write ∙ c0.same_write ∙ sym k.d_reg_write) (k.rd ∙ c0.same_rd ∙ sym k.d_rd)

    -- Retiring the first slot is a write of its computed number.
    after_first-lem :
        (r : ℕ)
        → after_first r ≡ (
            if (decoded i0).reg_write && not (r == 0) && r == (decoded i0).rd
            then value i0 pc0 before (read_csr f)
            else before r)
    unfolding after_first retire
    after_first-lem r =
        let k = kept in
        let rd : id_ex.slots.lane0.d.rd ≡ (decoded i0).rd = ap (λ d. d.rd) c0.decodes in
        let w : id_ex.slots.lane0.d.reg_write ≡ (decoded i0).reg_write =
          ap (λ d. d.reg_write) c0.decodes in
        ground (
          arith,
          out0-value,
          read_rs1-write_rd out0.rd out0.result (out0.valid && out0.reg_write) r (retired mem_wb f),
        )

    after_first-IsWord : (r : ℕ) → IsWord (after_first r)
    after_first-IsWord r = ground (
      arith,
      after_first-lem r,
      word r,
      value-IsWord i0 pc0 before (read_csr f) c0.encodable word csr_word,
    )

    module _ (i1 : Instruction) (c1 : Carries id_ex.slots.lane1 i1)
        (pair : ArePairable (decoded i0) (decoded i1)) where
      abbrev run_second : DecodedData → PipelineSlot
      run_second d = execute_slot (record (id_ex.slots.lane1) { d = d }) id_ex mem_wb f shown second

      abbrev pc1 : ℕ
      pc1 = u32 (id_ex.pc + 4)

      low : (decoded i0).rd < 32
      low =
          let rd : id_ex.slots.lane0.d.rd ≡ (decoded i0).rd = ap (λ d. d.rd) c0.decodes in
          ground (arith, c0.same_rd, c0.in_range)

      same_reads :
          (loaded r : ℕ)
          → reads (decoded i1) r ≡ true
          → after_first r ≡ read_rs1 (complete i0 pc0 loaded (retired mem_wb f)) r
      same_reads loaded r h =
          after_first-lem r
          ∙ pair_reads (decoded i0) (decoded i1) r (value i0 pc0 before (read_csr f)) (before r)
              loaded pair h
          ∙ ap
              (λ k.
                if (decoded i0).reg_write && not (r == 0) && r == (decoded i0).rd
                then (if (decoded i0).is_memory then loaded else value i0 pc0 before k)
                else before r)
              (fun_ext (λ a. sym (read_csr-retired mem_wb f a)))
          ∙ sym
              (read_rs1-write_rd (decoded i0).rd _ (decoded i0).reg_write r (retired mem_wb f) low)

      pub out1-value :
          (loaded : ℕ)
          → computed out1
            ≡ value i1 pc1 (read_rs1 (complete i0 pc0 loaded (retired mem_wb f))) (read_csr f)
      out1-value loaded =
          subst (λ d. computed (run_second d) ≡ value i1 pc1 after_first (read_csr f))
            (sym c1.decodes)
            (execute_slot-value id_ex mem_wb f shown second after_first operand_second
              after_first-IsWord i1 id_ex.slots.lane1 c1.encodable (inl pair.branch_first))
          ∙ value-reads i1 pc1 after_first _ (read_csr f) (same_reads loaded)
