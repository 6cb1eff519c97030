-- ===== src/CpuCore/Ranges/Engine.antt =====
-- `ExecutionEngine::execute` of src/ExecutionEngine.cpp keeps the ranges of EX_MEM.
use simple_rv.Prelude.{ℕ, ◌+◌, ◌<◌, ◌∙◌, sym, subst, arith, u32, IsWord, true, if_split, complement}
use simple_rv.Types.{
  DecodedData, PipelineSlot, IdExBuffer, ExMemBuffer, MemWbBuffer, Lane, first, second, lane_offset,
  empty_ex_mem,
}
use simple_rv.RegisterFile.{RegisterFile, read_csr}
use simple_rv.RegisterFile.Valid.{IsValid, read_csr-IsWord}
use simple_rv.ExecutionEngine.{
  Stage, get_operand, execute_slot, execute_r_type, execute_i_type, execute_jump, execute_branch,
  execute_csr, execute_lane, csr_update, same_lane,
}
use simple_rv.ExecutionEngine
use simple_rv.Isa.Sequential.{execute_slot-Keeps}
use simple_rv.CpuCore.Ranges.{
  IsRangedSlot, IsRangedPair, IsRangedIdEx, IsRangedExMem, empty_ex_mem-IsRangedExMem,
}
use simple_rv.CpuCore.Ranges.Values.{
  bit_and-IsWord, alu-IsWord, alu_imm-IsWord, get_operand-IsWord, csr_update-IsWord,
}

-- What an execution computes, from words, is words.
execute_i_type-IsWord :
    (d : DecodedData) (x : ℕ) (s : PipelineSlot) (pc : ℕ)
    → IsWord x
    → IsWord d.imm
    → IsWord s.result
    → IsWord (execute_i_type d x s pc).result
unfolding execute_i_type
execute_i_type-IsWord d x s pc h k l =
    ground (arith, alu_imm-IsWord d.funct3 d.funct7 x d.imm s.result h k l)

module _ (id_ex : IdExBuffer) (mem_wb : MemWbBuffer) (f : RegisterFile) (ex_mem : ExMemBuffer)
    (read : IsRangedPair ex_mem.slots) (written : IsRangedPair mem_wb.slots)
    (valid : IsValid f) where
  execute_slot-result :
      (s : PipelineSlot) (i : Lane)
      → IsRangedSlot s
      → IsWord (execute_slot s id_ex mem_wb f ex_mem i).result
  unfolding execute_slot execute_r_type execute_jump execute_branch execute_csr
  execute_slot-result s i h =
      let x = get_operand s.d.rs1 id_ex mem_wb f ex_mem i in
      let y = get_operand s.d.rs2 id_ex mem_wb f ex_mem i in
      let hx = get_operand-IsWord s.d.rs1 id_ex mem_wb f ex_mem i read written valid in
      let hy = get_operand-IsWord s.d.rs2 id_ex mem_wb f ex_mem i read written valid in
      let pc = u32 (id_ex.pc + lane_offset i) in
      ground (
        arith,
        hx,
        hy,
        alu-IsWord s.d.funct3 s.d.funct7 x y hx hy,
        execute_i_type-IsWord s.d x s pc hx h.imm_word h.result_word,
        read_csr-IsWord s.d.csr_addr f valid,
      )

  execute_slot-target :
      (s : PipelineSlot) (i : Lane)
      → IsRangedSlot s
      → IsWord (execute_slot s id_ex mem_wb f ex_mem i).jump_target
  unfolding execute_slot execute_r_type execute_i_type execute_jump execute_branch execute_csr
  execute_slot-target s i h =
      let x = get_operand s.d.rs1 id_ex mem_wb f ex_mem i in
      ground (arith, h.target_word, bit_and-IsWord (u32 (x + s.d.imm)) (complement 1) (omega arith))

  execute_slot-csr :
      (s : PipelineSlot) (i : Lane)
      → IsRangedSlot s
      → IsWord (execute_slot s id_ex mem_wb f ex_mem i).csr_write_val
  unfolding execute_slot execute_r_type execute_i_type execute_jump execute_branch execute_csr
  execute_slot-csr s i h =
      let x = get_operand s.d.rs1 id_ex mem_wb f ex_mem i in
      let old = read_csr f s.d.csr_addr in
      let hx = get_operand-IsWord s.d.rs1 id_ex mem_wb f ex_mem i read written valid in
      let hold = read_csr-IsWord s.d.csr_addr f valid in
      ground (
        arith,
        h.csr_word,
        csr_update-IsWord s.d x old hx hold,
        csr_update-IsWord s.d 0 old (omega arith) hold,
      )

  execute_slot-IsRangedSlot :
      (s : PipelineSlot) (i : Lane)
      → IsRangedSlot s
      → IsRangedSlot (record (execute_slot s id_ex mem_wb f ex_mem i) { valid = true })
  execute_slot-IsRangedSlot s i h =
      let k = execute_slot-Keeps s id_ex mem_wb f ex_mem i in
      record {
        instr_word = subst IsWord (sym k.instr) h.instr_word;
        result_word = execute_slot-result s i h;
        target_word = execute_slot-target s i h;
        csr_word = execute_slot-csr s i h;
        imm_word = subst IsWord (sym k.d_imm) h.imm_word;
        low = subst (λ r. r < 32) (sym k.d_rd) h.low;
        same_rd = k.rd ∙ h.same_rd ∙ sym k.d_rd;
        same_write = k.reg_write ∙ h.same_write ∙ sym k.d_reg_write;
      }

-- The latch that is built, and the slots of EX_MEM as they are read.
record IsRangedStage (s : Stage) : Type 0 where
  next : IsRangedExMem s.next
  read : IsRangedPair s.ex_mem.slots

module _ (id_ex : IdExBuffer) (mem_wb : MemWbBuffer) (f : RegisterFile)
    (waiting : IsRangedIdEx id_ex) (written : IsRangedPair mem_wb.slots) (valid : IsValid f) where
  execute_lane-first :
      (s : Stage) → IsRangedStage s → IsRangedStage (execute_lane id_ex mem_wb f first s)
  unfolding execute_lane
  execute_lane-first s h =
      let out = record (execute_slot id_ex.slots.lane0 id_ex mem_wb f s.ex_mem first) {
        valid = true;
      } in
      let stored =
        get_operand-IsWord id_ex.slots.lane0.d.rs2 id_ex mem_wb f s.ex_mem first h.read written
          valid in
      let ranged : IsRangedSlot out =
        execute_slot-IsRangedSlot id_ex mem_wb f s.ex_mem h.read written valid id_ex.slots.lane0
          first waiting.slots.lane0 in
      if_split IsRangedStage id_ex.slots.lane0.valid
        (λ _. record {
          next = record {
            slots = record { lane0 = ranged; lane1 = h.next.slots.lane1 };
            pc = h.next.pc;
            addr0 = ground (arith, h.next.addr0, ranged.result_word);
            addr1 = ground (arith, h.next.addr1);
            data0 = ground (arith, h.next.data0, stored);
            data1 = ground (arith, h.next.data1);
            load1 = h.next.load1;
          };
          read = record { lane0 = ranged; lane1 = h.read.lane1 };
        })
        (λ _. h)

  execute_lane-second :
      (s : Stage) → IsRangedStage s → IsRangedStage (execute_lane id_ex mem_wb f second s)
  unfolding execute_lane
  execute_lane-second s h =
      let out = record (execute_slot id_ex.slots.lane1 id_ex mem_wb f s.ex_mem second) {
        valid = true;
      } in
      let stored =
        get_operand-IsWord id_ex.slots.lane1.d.rs2 id_ex mem_wb f s.ex_mem second h.read written
          valid in
      let ranged : IsRangedSlot out =
        execute_slot-IsRangedSlot id_ex mem_wb f s.ex_mem h.read written valid id_ex.slots.lane1
          second waiting.slots.lane1 in
      let kept = execute_slot-Keeps id_ex.slots.lane1 id_ex mem_wb f s.ex_mem second in
      if_split IsRangedStage id_ex.slots.lane1.valid
        (λ _. record {
          next = record {
            slots = record { lane0 = h.next.slots.lane0; lane1 = ranged };
            pc = h.next.pc;
            addr0 = ground (arith, h.next.addr0);
            addr1 = ground (arith, h.next.addr1, ranged.result_word);
            data0 = ground (arith, h.next.data0);
            data1 = ground (arith, h.next.data1, stored);
            load1 = λ e. kept.d_is_memory ∙ waiting.load1 e;
          };
          read = h.read;
        })
        (λ _. h)

  pub execute-IsRangedExMem :
      (ex_mem : ExMemBuffer)
      → IsRangedPair ex_mem.slots
      → IsRangedExMem (ExecutionEngine.execute id_ex ex_mem mem_wb f)
  unfolding ExecutionEngine.execute
  execute-IsRangedExMem ex_mem h =
      let start : Stage = record {
        next = record empty_ex_mem { pc = id_ex.pc };
        ex_mem = ex_mem;
      } in
      let empty = empty_ex_mem-IsRangedExMem in
      let ranged : IsRangedStage start = record {
        next = record {
          slots = empty.slots;
          pc = waiting.pc;
          addr0 = empty.addr0;
          addr1 = empty.addr1;
          data0 = empty.data0;
          data1 = empty.data1;
          load1 = empty.load1;
        };
        read = h;
      } in
      (execute_lane-second _ (execute_lane-first start ranged)).next
