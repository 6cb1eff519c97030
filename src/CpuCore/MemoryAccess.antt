-- ===== src/CpuCore/MemoryAccess.antt =====
-- `CPUCore::memoryAccess` of src/CPUCore.cpp.
use simple_rv.Prelude.{
  ℕ, ◌+◌, ◌>>◌, u32, Bool, true, false, ◌&&◌, ◌||◌, ◌==◌, ltb, if◌then◌else◌, bit_and, has_bits,
  Outcome, ok, ◌>>=◌,
}
use simple_rv.Types.{
  empty_mem_wb, PipelineSlot, Lane, first, second, get_lane, set_lane, lane_offset,
  mcause_load_misaligned, mcause_store_misaligned,
}
use simple_rv.RegisterFile.{read_csr}
use simple_rv.RegisterFile.Address.{addr_of, satp_csr}
use simple_rv.MemorySystem.{read, write}
use simple_rv.MemorySystem.Translate.{Access, translate}
use simple_rv.CpuCore.State.{CpuCore}
use simple_rv.CpuCore.Trap.{handle_trap}

-- Whether the method goes on after a round or has returned from it.
pub data Round : Type 0 where
  goes_on : CpuCore → Round
  returns : CpuCore → Round

abbrev pub core_of : Round → CpuCore
core_of (goes_on c) = c
core_of (returns c) = c

unfoldable pub load_width : ℕ → ℕ
load_width funct3 =
    if funct3 == 0 || funct3 == 4 then 1 else if funct3 == 1 || funct3 == 5 then 2 else 4

unfoldable pub store_width : ℕ → ℕ
store_width funct3 = if funct3 == 0 then 1 else if funct3 == 1 then 2 else 4

unfoldable pub misaligned : ℕ → ℕ → Bool
misaligned n addr = (n == 4 && has_bits addr 0x3) || (n == 2 && has_bits addr 0x1)

-- The sign extension of LB and LH.
unfoldable pub extend_loaded : ℕ → ℕ → ℕ
extend_loaded funct3 raw =
    let byte = bit_and raw 0xFF in
    let half = bit_and raw 0xFFFF in
    if funct3 == 0
    then (if ltb byte 0x80 then byte else byte + 0xFFFFFF00)
    else if funct3 == 1
    then (if ltb half 0x8000 then half else half + 0xFFFF0000)
    else raw

abbrev pub access_at : CpuCore → ℕ → Bool → Access
access_at c addr is_write = record {
  vaddr = addr;
  is_write = is_write;
  is_fetch = false;
  satp = read_csr c.reg_file (addr_of satp_csr);
  privilege = c.reg_file.privilege;
}

abbrev pub fault_pc : CpuCore → Lane → ℕ
fault_pc c i = u32 (c.pipe_regs.ex_mem.pc + lane_offset i)

-- `mem_wb.slots[i] = s`.
abbrev pub put_mem_wb : Lane → PipelineSlot → CpuCore → CpuCore
put_mem_wb i s c = record c {
  pipe_regs = record (c.pipe_regs) {
    mem_wb = record (c.pipe_regs.mem_wb) { slots = set_lane c.pipe_regs.mem_wb.slots i s };
  };
}

unfoldable pub load_slot : Lane → CpuCore → Outcome Round
load_slot i c =
    let slot = get_lane c.pipe_regs.ex_mem.slots i in
    let funct3 = bit_and (slot.instr >> 12) 0x7 in
    let addr = get_lane c.pipe_regs.ex_mem.mem_addr i in
    let n = load_width funct3 in
    if misaligned n addr
    then ok (returns (handle_trap (fault_pc c i) mcause_load_misaligned addr c))
    else translate (access_at c addr false) c.memory >>= λ t.
        let c' = record c { memory = t.1 } in
        if t.0.fault
        then ok (returns (handle_trap (fault_pc c i) t.0.cause addr c'))
        else read t.0.paddr n t.1 >>= λ r. ok (
            goes_on (
              put_mem_wb i
                (record (get_lane c.pipe_regs.mem_wb.slots i) { result = extend_loaded funct3 r.0 })
                (record c { memory = r.1 })))

unfoldable pub store_slot : Lane → CpuCore → Outcome Round
store_slot i c =
    let slot = get_lane c.pipe_regs.ex_mem.slots i in
    let funct3 = bit_and (slot.instr >> 12) 0x7 in
    let addr = get_lane c.pipe_regs.ex_mem.mem_addr i in
    let n = store_width funct3 in
    if misaligned n addr
    then ok (returns (handle_trap (fault_pc c i) mcause_store_misaligned addr c))
    else translate (access_at c addr true) c.memory >>= λ t.
        let c' = record c { memory = t.1 } in
        if t.0.fault
        then ok (returns (handle_trap (fault_pc c i) t.0.cause addr c'))
        else write t.0.paddr n (get_lane c.pipe_regs.ex_mem.mem_data i) t.1 >>= λ m.
            ok (goes_on (record c { memory = m }))

abbrev pub after : Outcome Round → (CpuCore → Outcome Round) → Outcome Round
after m f = m >>= λ r. elim r [ goes_on c ↦ f c | returns c ↦ ok (returns c) ]

-- One round of the loop.
unfoldable pub access_slot : Lane → CpuCore → Outcome Round
access_slot i c =
    let slot = get_lane c.pipe_regs.ex_mem.slots i in
    let moved = put_mem_wb i slot c in
    let loaded =
      if get_lane c.pipe_regs.ex_mem.mem_read i then load_slot i moved else ok (goes_on moved) in
    if slot.valid
    then after loaded (λ c'.
      if get_lane c'.pipe_regs.ex_mem.mem_write i then store_slot i c' else ok (goes_on c'))
    else ok (goes_on c)

unfoldable pub memory_access : CpuCore → Outcome CpuCore
memory_access c =
    let start = record c { pipe_regs = record (c.pipe_regs) { mem_wb = empty_mem_wb } } in
    after (access_slot first start) (access_slot second) >>= λ r. ok (core_of r)
