-- ===== src/ExecutionEngine.antt =====
-- include/ExecutionEngine.h and src/ExecutionEngine.cpp: operand forwarding and the execution of a
-- slot. The arithmetic is in Alu.
pub mod Alu
pub mod Forwarding
use simple_rv.Prelude.{
  ℕ, ◌+◌, u32, Bool, true, false, ◌&&◌, ◌||◌, not, ◌==◌, if◌then◌else◌, bit_and, bit_or, complement,
  Option, none, some,
}
use simple_rv.Types.{
  DecodedData, PipelineSlot, invalidate, IdExBuffer, ExMemBuffer, MemWbBuffer, empty_ex_mem, Lane,
  first, second, Lanes, get_lane, set_lane, lane_offset,
}
use simple_rv.RegisterFile.{RegisterFile, read_rs1, read_csr}
use Alu.{alu, alu_imm, branch_taken}

-- A slot of EX_MEM or the current cycle that writes `rs`.
abbrev pub produces : PipelineSlot → ℕ → Bool
produces s rs = s.valid && s.d.reg_write && s.d.rd == rs

-- A slot of MEM_WB that writes `rs`.
abbrev pub retires : PipelineSlot → ℕ → Bool
retires s rs = s.valid && s.reg_write && s.rd == rs

abbrev pub same_lane : Lane → Lane → Bool
same_lane first first = true
same_lane second second = true
same_lane _ _ = false

-- Priority 2 and 3: the slots of MEM_WB, the younger one first, and then the register file.
unfoldable pub forward_mem_wb : ℕ → MemWbBuffer → RegisterFile → ℕ
unfolding read_rs1
forward_mem_wb rs mem_wb reg_file =
    if retires mem_wb.slots.lane1 rs
    then mem_wb.slots.lane1.result
    else if retires mem_wb.slots.lane0 rs
    then mem_wb.slots.lane0.result
    else read_rs1 reg_file rs

-- One round of the loop of priority 1, at slot `i`: a value, or the next round.
unfoldable pub forward_ex_mem : ℕ → Lane → ExMemBuffer → Lane → Option ℕ
forward_ex_mem rs i ex_mem slot_id =
    let s = get_lane ex_mem.slots i in
    if produces s rs && not (same_lane i slot_id)
    then (if s.d.is_memory then none else some s.result)
    else none

abbrev pub or_else : Option ℕ → ℕ → ℕ
or_else none v = v
or_else (some w) v = w

unfoldable pub get_operand : ℕ → IdExBuffer → MemWbBuffer → RegisterFile → ExMemBuffer → Lane → ℕ
get_operand rs id_ex mem_wb reg_file ex_mem slot_id =
    if rs == 0
    then 0
    else if same_lane slot_id second && produces ex_mem.slots.lane0 rs
    then ex_mem.slots.lane0.result
    else or_else (forward_ex_mem rs second ex_mem slot_id)
        (or_else (forward_ex_mem rs first ex_mem slot_id) (forward_mem_wb rs mem_wb reg_file))

unfoldable pub execute_r_type : DecodedData → ℕ → ℕ → PipelineSlot → PipelineSlot
execute_r_type d op1 op2 out = record out { result = alu d.funct3 d.funct7 op1 op2 }

unfoldable pub execute_i_type : DecodedData → ℕ → PipelineSlot → ℕ → PipelineSlot
execute_i_type d op1 out pc =
    if d.op == 0x13
    then record out { result = alu_imm d.funct3 d.funct7 op1 d.imm out.result }
    else if d.op == 0x03
    then record out { result = u32 (op1 + d.imm) }
    else if d.op == 0x23
    then record out { result = u32 (op1 + d.imm) }
    else if d.op == 0x37
    then record out { result = d.imm }
    else if d.op == 0x17
    then record out { result = u32 (pc + d.imm) }
    else out

unfoldable pub execute_jump : DecodedData → ℕ → PipelineSlot → ℕ → PipelineSlot
execute_jump d op1 out pc =
    let linked = record out { d = record (out.d) { is_branch = true }; result = u32 (pc + 4) } in
    if d.op == 0x6F
    then record linked { jump_target = u32 (pc + d.imm) }
    else if d.op == 0x67
    then record linked { jump_target = bit_and (u32 (op1 + d.imm)) (complement 1) }
    else linked

unfoldable pub execute_branch : DecodedData → ℕ → ℕ → PipelineSlot → ℕ → PipelineSlot
execute_branch d op1 op2 out pc =
    if branch_taken d.funct3 op1 op2
    then record out { d = record (out.d) { is_branch = true }; jump_target = u32 (pc + d.imm) }
    else record out { d = record (out.d) { is_branch = false }; jump_target = u32 (pc + 4) }

-- The new value of a control register, the switch on `funct3`.
unfoldable pub csr_update : DecodedData → ℕ → ℕ → ℕ
csr_update d rs1_val old_csr =
    let zimm = bit_and d.rs1 0x1F in
    if d.funct3 == 1
    then rs1_val
    else if d.funct3 == 2
    then (if d.rs1 == 0 then old_csr else bit_or old_csr rs1_val)
    else if d.funct3 == 3
    then (if d.rs1 == 0 then old_csr else bit_and old_csr (complement rs1_val))
    else if d.funct3 == 5
    then zimm
    else if d.funct3 == 6
    then (if zimm == 0 then old_csr else bit_or old_csr zimm)
    else if d.funct3 == 7
    then (if zimm == 0 then old_csr else bit_and old_csr (complement zimm))
    else old_csr

unfoldable pub execute_csr : DecodedData → ℕ → PipelineSlot → RegisterFile → PipelineSlot
execute_csr d rs1_val out reg_file =
    let old_csr = read_csr reg_file d.csr_addr in
    record out { csr_write_val = csr_update d rs1_val old_csr; result = old_csr }

unfoldable pub execute_slot :
    PipelineSlot → IdExBuffer → MemWbBuffer → RegisterFile → ExMemBuffer → Lane → PipelineSlot
execute_slot in_slot id_ex mem_wb reg_file ex_mem slot_id =
    let d = in_slot.d in
    let current_pc = u32 (id_ex.pc + lane_offset slot_id) in
    let op1 = get_operand d.rs1 id_ex mem_wb reg_file ex_mem slot_id in
    let reg2 = get_operand d.rs2 id_ex mem_wb reg_file ex_mem slot_id in
    let op2 = if d.op == 0x33 || d.is_branch then reg2 else d.imm in
    if d.is_csr
    then execute_csr d (if d.uses_rs1 then op1 else 0) in_slot reg_file
    else if d.op == 0x6F || d.op == 0x67
    then (if same_lane slot_id first then execute_jump d op1 in_slot current_pc else in_slot)
    else if d.is_branch
    then (if same_lane slot_id first then execute_branch d op1 op2 in_slot current_pc else in_slot)
    else if d.op == 0x33
    then execute_r_type d op1 op2 in_slot
    else execute_i_type d op1 in_slot current_pc

-- The two latches between the rounds of the loop: what is built, and EX_MEM as it is read.
pub record Stage : Type 0 where
  pub next : ExMemBuffer
  pub ex_mem : ExMemBuffer

-- One round of the loop; the first slot's result is shown to the second through EX_MEM.
unfoldable pub execute_lane : IdExBuffer → MemWbBuffer → RegisterFile → Lane → Stage → Stage
execute_lane id_ex mem_wb reg_file i s =
    let in_slot = get_lane id_ex.slots i in
    let out = record (execute_slot in_slot id_ex mem_wb reg_file s.ex_mem i) { valid = true } in
    let stored = get_operand in_slot.d.rs2 id_ex mem_wb reg_file s.ex_mem i in
    let next = record (s.next) {
      slots = set_lane s.next.slots i out;
      mem_read = set_lane s.next.mem_read i (get_lane id_ex.mem_read i);
      mem_write = set_lane s.next.mem_write i (get_lane id_ex.mem_write i);
      mem_addr =
          if in_slot.d.is_memory then set_lane s.next.mem_addr i out.result else s.next.mem_addr;
      mem_data = if in_slot.d.is_memory then set_lane s.next.mem_data i stored else s.next.mem_data;
    } in
    if in_slot.valid
    then record {
      next = next;
      ex_mem =
          if same_lane i first
          then record (s.ex_mem) { slots = set_lane s.ex_mem.slots first out }
          else s.ex_mem;
    }
    else s

unfoldable pub execute : IdExBuffer → ExMemBuffer → MemWbBuffer → RegisterFile → ExMemBuffer
execute id_ex ex_mem mem_wb reg_file =
    let start : Stage = record { next = record empty_ex_mem { pc = id_ex.pc }; ex_mem = ex_mem } in
    (execute_lane id_ex mem_wb reg_file second
      (execute_lane id_ex mem_wb reg_file first start)).next
