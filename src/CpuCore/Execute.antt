-- ===== src/CpuCore/Execute.antt =====
-- `CPUCore::execute` of src/CPUCore.cpp.
use simple_rv.Prelude.{
  ℕ, ◌+◌, ◌>>◌, u32, Bool, false, ◌&&◌, ◌||◌, ◌==◌, if◌then◌else◌, bit_and, bit_or, complement,
  has_bits,
}
use simple_rv.Types.{
  DecodedData, PipelineSlot, empty_slot, ExMemBuffer, empty_if_id, empty_id_ex, count, prv_m, prv_s,
  prv_u, mstatus_mie, mstatus_mpie, mstatus_mpp, mstatus_sie, mstatus_spie, mstatus_spp,
  mcause_ecall_m, mcause_ecall_s, mcause_ecall_u, mcause_illegal,
}
use simple_rv.RegisterFile.{RegisterFile, read_csr, write_csr, set_privilege}
use simple_rv.RegisterFile.Address.{addr_of, mstatus_csr, mepc_csr, sstatus_csr, sepc_csr}
use simple_rv.MemorySystem.{MemorySystem}
use simple_rv.MemorySystem.TlbEntries.{tlb_flush}
use simple_rv.PipelineRegisters.{flush}
use simple_rv.ExecutionEngine
use simple_rv.CpuCore.State.{CpuCore, drop_ex_mem}
use simple_rv.CpuCore.Trap.{handle_trap}

-- The commit of a slot's control register.
unfoldable pub commit_csr : PipelineSlot → RegisterFile → RegisterFile
commit_csr s f = if s.valid && s.d.is_csr then write_csr s.d.csr_addr s.csr_write_val f else f

-- The commit of SFENCE.VMA.
unfoldable pub commit_sfence : PipelineSlot → MemorySystem → MemorySystem
commit_sfence s m = if s.valid && s.d.is_sfence then record m { tlb = tlb_flush m.tlb } else m

abbrev pub drop_slot1 : ExMemBuffer → ExMemBuffer
drop_slot1 b = record b {
  slots = record (b.slots) { lane1 = empty_slot };
  mem_read = record (b.mem_read) { lane1 = false };
  mem_write = record (b.mem_write) { lane1 = false };
}

-- The branch in slot 0 against its prediction.
unfoldable pub resolve_branch : CpuCore → CpuCore
resolve_branch c =
    let p = c.pipe_regs in
    let br = p.ex_mem.slots.lane0 in
    let ex_mem = drop_slot1 p.ex_mem in
    let flushes = record (c.stats) { branch_flushes = count c.stats.branch_flushes } in
    if br.valid && br.d.is_branch
    then (if br.d.predicted_taken
        then record c { stats = flushes; pipe_regs = record p { ex_mem = ex_mem } }
        else record c {
          stats = record flushes { branches_mispredicted = count c.stats.branches_mispredicted };
          pc = br.jump_target;
          pipe_regs = record p { if_id = empty_if_id; id_ex = empty_id_ex; ex_mem = ex_mem };
        })
    else if br.valid && br.d.predicted_taken
    then record c {
      stats = record (c.stats) { branches_mispredicted = count c.stats.branches_mispredicted };
      pc = u32 (p.ex_mem.pc + 4);
      pipe_regs = record p { if_id = empty_if_id; id_ex = empty_id_ex; ex_mem = ex_mem };
    }
    else c

-- The status word after MRET: MIE takes MPIE, MPIE is set, MPP is cleared.
unfoldable pub mstatus_on_mret : ℕ → ℕ
mstatus_on_mret mstatus =
    let cleared = bit_and mstatus (complement mstatus_mie) in
    let restored = if has_bits mstatus mstatus_mpie then bit_or cleared mstatus_mie else cleared in
    bit_and (bit_or restored mstatus_mpie) (complement mstatus_mpp)

-- The same after SRET, on SIE, SPIE and SPP.
unfoldable pub sstatus_on_sret : ℕ → ℕ
sstatus_on_sret sstatus =
    let cleared = bit_and sstatus (complement mstatus_sie) in
    let restored = if has_bits sstatus mstatus_spie then bit_or cleared mstatus_sie else cleared in
    bit_and (bit_or restored mstatus_spie) (complement mstatus_spp)

unfoldable pub return_from_m : CpuCore → CpuCore
return_from_m c =
    let mstatus = read_csr c.reg_file (addr_of mstatus_csr) in
    let f =
      set_privilege (bit_and mstatus mstatus_mpp >> 11)
        (write_csr (addr_of mstatus_csr) (mstatus_on_mret mstatus) c.reg_file) in
    record c {
      reg_file = f;
      pc = read_csr f (addr_of mepc_csr);
      pipe_regs = drop_ex_mem (flush c.pipe_regs);
    }

unfoldable pub return_from_s : CpuCore → CpuCore
return_from_s c =
    let sstatus = read_csr c.reg_file (addr_of sstatus_csr) in
    let f =
      set_privilege (if has_bits sstatus mstatus_spp then prv_s else prv_u)
        (write_csr (addr_of sstatus_csr) (sstatus_on_sret sstatus) c.reg_file) in
    record c {
      reg_file = f;
      pc = read_csr f (addr_of sepc_csr);
      pipe_regs = drop_ex_mem (flush c.pipe_regs);
    }

abbrev pub ecall_cause : ℕ → ℕ
ecall_cause prv =
    if prv == prv_m then mcause_ecall_m else if prv == prv_s then mcause_ecall_s else mcause_ecall_u

unfoldable pub handle_slot_trap : PipelineSlot → ℕ → CpuCore → CpuCore
handle_slot_trap slot slot_pc c =
    if slot.d.is_ecall
    then handle_trap (u32 (slot_pc + 4)) (ecall_cause c.reg_file.privilege) 0 c
    else if slot.d.is_illegal
    then handle_trap slot_pc mcause_illegal slot.instr c
    else if slot.d.is_mret
    then return_from_m c
    else if slot.d.is_sret
    then return_from_s c
    else c

abbrev pub trapped : DecodedData → Bool
trapped d = d.is_ecall || d.is_illegal || d.is_mret || d.is_sret

-- The checks on both slots, the older one first.
unfoldable pub handle_slot_traps : CpuCore → CpuCore
handle_slot_traps c =
    let ex_mem = c.pipe_regs.ex_mem in
    if ex_mem.slots.lane0.valid
    then (if trapped ex_mem.slots.lane0.d
        then handle_slot_trap ex_mem.slots.lane0 ex_mem.pc c
        else if ex_mem.slots.lane1.valid && trapped ex_mem.slots.lane1.d
        then handle_slot_trap ex_mem.slots.lane1 (u32 (ex_mem.pc + 4)) c
        else c)
    else c

-- The engine's result and the commits to the control registers and the translation buffer.
unfoldable pub execute_and_commit : CpuCore → CpuCore
execute_and_commit c =
    let p = c.pipe_regs in
    let ex_mem = ExecutionEngine.execute p.id_ex p.ex_mem p.mem_wb c.reg_file in
    record c {
      pipe_regs = record p { ex_mem = ex_mem };
      reg_file = commit_csr ex_mem.slots.lane1 (commit_csr ex_mem.slots.lane0 c.reg_file);
      memory = commit_sfence ex_mem.slots.lane1 (commit_sfence ex_mem.slots.lane0 c.memory);
    }

unfoldable pub execute : CpuCore → CpuCore
execute c = handle_slot_traps (resolve_branch (execute_and_commit c))
