-- ===== src/CpuCore/Faults.antt =====
-- Loads that trap in `CPUCore::memoryAccess` of src/CPUCore.cpp.
use simple_rv.Prelude.{◌+◌, ◌<◌, ◌>>◌, u32, ◌≡◌, refl, true, bit_and, ok}
use simple_rv.Types.{empty_mem_wb, first, mcause_load_misaligned}
use simple_rv.CpuCore.State.{CpuCore}
use simple_rv.CpuCore.Trap.{handle_trap}
use simple_rv.CpuCore.MemoryAccess.{
  load_width, misaligned, put_mem_wb, load_slot, access_slot, memory_access,
}
use simple_rv.CpuCore.Trap.Laws.{ToM, EntersM, handle_trap-EntersM}

-- The first slot of EX_MEM holds a load from an address that its width does not divide.
pub record IsMisalignedLoad (c : CpuCore) : Type 0 where
  pub valid : c.pipe_regs.ex_mem.slots.lane0.valid ≡ true
  pub loads : c.pipe_regs.ex_mem.mem_read.lane0 ≡ true
  pub crooked :
      misaligned
        (load_width (bit_and (c.pipe_regs.ex_mem.slots.lane0.instr >> 12) 0x7))
        c.pipe_regs.ex_mem.mem_addr.lane0
      ≡ true

-- The core with the load, and nothing else, in MEM_WB.
abbrev pub with_load : CpuCore → CpuCore
with_load c =
    put_mem_wb first c.pipe_regs.ex_mem.slots.lane0
      (record c { pipe_regs = record (c.pipe_regs) { mem_wb = empty_mem_wb } })

memory_access-with_load :
    (c : CpuCore)
    → IsMisalignedLoad c
    → memory_access c
      ≡ ok (
          handle_trap
            (u32 (c.pipe_regs.ex_mem.pc + 0))
            mcause_load_misaligned
            c.pipe_regs.ex_mem.mem_addr.lane0
            (with_load c))
unfolding memory_access access_slot load_slot
memory_access-with_load c h = rw (h.valid, h.loads, h.crooked) refl

-- A misaligned load in the first slot that traps into M-mode, from a privilege level below 4, saves
-- its own address and the address that it loads from, and the memory stage returns; the load then
-- stands in MEM_WB as it stood in EX_MEM, and so is still valid.
pub memory_access-IsMisalignedLoad :
    (c : CpuCore)
    → IsMisalignedLoad c
    → ToM mcause_load_misaligned c.reg_file
    → c.reg_file.privilege < 4
    → (d : CpuCore) × (memory_access c ≡ ok d)
      × EntersM
          (u32 (c.pipe_regs.ex_mem.pc + 0))
          mcause_load_misaligned
          c.pipe_regs.ex_mem.mem_addr.lane0
          (with_load c)
          d
      × (d.pipe_regs.mem_wb.slots.lane0 ≡ c.pipe_regs.ex_mem.slots.lane0)
memory_access-IsMisalignedLoad c h t p =
    let pc = u32 (c.pipe_regs.ex_mem.pc + 0) in
    let addr = c.pipe_regs.ex_mem.mem_addr.lane0 in
    let d = handle_trap pc mcause_load_misaligned addr (with_load c) in
    let e = handle_trap-EntersM pc mcause_load_misaligned addr (with_load c) t p in
    (d, memory_access-with_load c h, e, λ i. (e.still_retiring i).slots.lane0)
