-- ===== src/CpuCore/Fetch.antt =====
-- `CPUCore::fetch` of src/CPUCore.cpp.
use simple_rv.Prelude.{
  ℕ, ◌+◌, ◌>>◌, u32, true, false, not, ◌==◌, ltb, leb, if◌then◌else◌, bit_and, Outcome, ok, ◌>>=◌,
}
use simple_rv.Types.{IfIdBuffer, PipelineSlot, invalidate, memory_size}
use simple_rv.RegisterFile.{read_csr}
use simple_rv.RegisterFile.Address.{addr_of, satp_csr}
use simple_rv.MemorySystem.{read, read_double_instr}
use simple_rv.MemorySystem.Translate.{Access, translate}
use simple_rv.CpuCore.State.{CpuCore}
use simple_rv.CpuCore.Trap.{handle_trap}

abbrev pub fetch_access : CpuCore → ℕ → Access
fetch_access c vaddr = record {
  vaddr = vaddr;
  is_write = false;
  is_fetch = true;
  satp = read_csr c.reg_file (addr_of satp_csr);
  privilege = c.reg_file.privilege;
}

-- The lambda `fetch_instr`: the word, 0 after a page fault, and the core.
unfoldable pub fetch_instr : ℕ → CpuCore → Outcome (ℕ × CpuCore)
fetch_instr vaddr c = translate (fetch_access c vaddr) c.memory >>= λ t.
    let c' = record c { memory = t.1 } in
    if t.0.fault
    then ok (0, handle_trap vaddr t.0.cause vaddr c')
    else read t.0.paddr 4 t.1 >>= λ r. ok (r.0, record c { memory = r.1 })

abbrev pub set_if_id : IfIdBuffer → CpuCore → CpuCore
set_if_id b c = record c { pipe_regs = record (c.pipe_regs) { if_id = b } }

abbrev pub load_word : PipelineSlot → ℕ → PipelineSlot
load_word s word = record s { instr = word; valid = true }

abbrev pub advance : ℕ → CpuCore → CpuCore
advance n c = record c { pc = u32 (c.pc + n) }

-- A word for the second slot, `slots[1].instr = instr; slots[1].valid = true; pc += 4`.
abbrev pub fill_second : ℕ → CpuCore → CpuCore
fill_second word c =
    let b = c.pipe_regs.if_id in
    advance 4
      (set_if_id (record b { slots = record (b.slots) { lane1 = load_word b.slots.lane1 word } }) c)

-- A word for the first slot, at the current `pc`.
abbrev pub fill_first : ℕ → CpuCore → CpuCore
fill_first word c =
    let b = c.pipe_regs.if_id in
    advance 4 (
      set_if_id
        (record b { slots = record (b.slots) { lane0 = load_word b.slots.lane0 word }; pc = c.pc })
        c)

abbrev pub fill_both : ℕ → CpuCore → CpuCore
fill_both words c =
    let b = c.pipe_regs.if_id in
    advance 8 (
      set_if_id
        (record b {
          slots = record {
            lane0 = load_word b.slots.lane0 (bit_and words 0xFFFFFFFF);
            lane1 = load_word b.slots.lane1 (u32 (words >> 32));
          };
          pc = c.pc;
        })
        c)

-- Case B: the second slot moves up and is filled again.
unfoldable pub fetch_one : CpuCore → Outcome CpuCore
fetch_one c =
    let b = c.pipe_regs.if_id in
    let moved =
      set_if_id
        (record b { slots = record { lane0 = b.slots.lane1; lane1 = invalidate b.slots.lane1 } })
        c in
    if ltb c.pc memory_size
    then (fetch_instr c.pc moved >>= λ r. if r.1.running then ok (fill_second r.0 r.1) else ok r.1)
    else ok moved

-- Case C with eight bytes left below the end of memory.
unfoldable pub fetch_two : CpuCore → Outcome CpuCore
fetch_two c = translate (fetch_access c c.pc) c.memory >>= λ t.
    let c' = record c { memory = t.1 } in
    let phys_pc = t.0.paddr in
    if t.0.fault
    then ok (handle_trap c.pc t.0.cause c.pc c')
    else if not (phys_pc >> 12 == u32 (phys_pc + 7) >> 12)
    then (read phys_pc 4 t.1 >>= λ r. ok (fill_first r.0 (record c { memory = r.1 })))
    else if leb (u32 (phys_pc + 8)) memory_size
    then (read_double_instr phys_pc t.1 >>= λ words. ok (fill_both words c'))
    else ok c'

unfoldable pub fetch : CpuCore → Outcome CpuCore
fetch c =
    if c.pipe_regs.if_id.slots.lane0.valid
    then ok c
    else if c.pipe_regs.if_id.slots.lane1.valid
    then fetch_one c
    else if leb (u32 (c.pc + 8)) memory_size
    then fetch_two c
    else if leb (u32 (c.pc + 4)) memory_size
    then (fetch_instr c.pc c >>= λ r. if r.1.running then ok (fill_first r.0 r.1) else ok r.1)
    else ok c
