-- ===== src/CpuCore/Ranges/Memory.antt =====
-- `memoryAccess` of src/CPUCore.cpp keeps the ranges of the core's fields, and leaves EX_MEM and
-- MEM_WB in the agreement that forwarding relies on.
use simple_rv.Prelude.{
  ◌>>◌, ◌≡◌, refl, sym, subst, arith, IsWord, true, false, if_split, bit_and, Outcome, ok, thrown,
  undefined, ◌>>=◌,
}
use simple_rv.Types.{
  Lane, first, second, get_lane, empty_mem_wb, mcause_load_misaligned, mcause_store_misaligned,
}
use simple_rv.MemorySystem.{read, write}
use simple_rv.MemorySystem.Translate.{translate}
use simple_rv.CpuCore.State.{CpuCore}
use simple_rv.CpuCore.MemoryAccess.{
  Round, goes_on, returns, core_of, load_slot, store_slot, access_slot, memory_access, load_width,
  store_width, misaligned, extend_loaded, after, access_at, put_mem_wb, fault_pc,
}
use simple_rv.CpuCore.Invariant.Memory.{Ensures, Ensures-chain}
use simple_rv.CpuCore.Ranges.{IsRanged, IsByteHost, empty-IsRangedPair}
use simple_rv.CpuCore.Ranges.Keyboard.{IsRead, read-IsRead, IsTranslated, translate-IsTranslated}
use simple_rv.CpuCore.Ranges.Accesses.{
  AccessedRound, trap-IsAccessed, mem_addr-IsWord, put_mem_wb-IsAccessed, loaded-IsAccessed,
  extend_loaded-IsWord, HasBytes, write-IsByteHost, IsAccessed, set_memory-IsRanged,
}

-- A load that follows the copy of its slot to MEM_WB.
load_slot-AccessedRound :
    (i : Lane) (c : CpuCore)
    → get_lane c.pipe_regs.ex_mem.mem_read i ≡ true
    → IsRanged (put_mem_wb i (get_lane c.pipe_regs.ex_mem.slots i) c)
    → IsRanged c
    → Ensures (AccessedRound i) (load_slot i (put_mem_wb i (get_lane c.pipe_regs.ex_mem.slots i) c))
unfolding load_slot
load_slot-AccessedRound i c reads moved h =
    let slot = get_lane c.pipe_regs.ex_mem.slots i in
    let funct3 = bit_and (slot.instr >> 12) 0x7 in
    let addr = get_lane c.pipe_regs.ex_mem.mem_addr i in
    let d = put_mem_wb i slot c in
    if_split (Ensures (AccessedRound i)) (misaligned (load_width funct3) addr)
      (λ _.
        trap-IsAccessed (fault_pc d i) mcause_load_misaligned addr d (omega arith) (omega arith)
          (mem_addr-IsWord i c h) moved)
      λ _.
        Ensures-chain (IsTranslated c.memory) (AccessedRound i)
          (translate (access_at d addr false) c.memory) _ (translate-IsTranslated _ c.memory)
          λ t k.
            if_split (Ensures (AccessedRound i)) t.0.fault
              (λ _.
                trap-IsAccessed (fault_pc d i) t.0.cause addr (record d { memory = t.1 })
                  (omega arith) k.0 (mem_addr-IsWord i c h)
                  (set_memory-IsRanged t.1 d (subst IsByteHost (sym k.1) h.host) moved))
              λ _.
                Ensures-chain IsRead (AccessedRound i) (read t.0.paddr (load_width funct3) t.1) _
                  (read-IsRead t.0.paddr (load_width funct3) t.1
                    (subst IsByteHost (sym k.1) h.host))
                  λ r l.
                    loaded-IsAccessed i (extend_loaded funct3 r.0) r.1 c reads
                      (extend_loaded-IsWord funct3 r.0 l.0) l.1 h

store_slot-AccessedRound :
    (i : Lane) (c : CpuCore) → IsAccessed i c → Ensures (AccessedRound i) (store_slot i c)
unfolding store_slot
store_slot-AccessedRound i c h =
    let slot = get_lane c.pipe_regs.ex_mem.slots i in
    let n = store_width (bit_and (slot.instr >> 12) 0x7) in
    let addr = get_lane c.pipe_regs.ex_mem.mem_addr i in
    let value = get_lane c.pipe_regs.ex_mem.mem_data i in
    if_split (Ensures (AccessedRound i)) (misaligned n addr)
      (λ _.
        trap-IsAccessed (fault_pc c i) mcause_store_misaligned addr c (omega arith) (omega arith)
          (mem_addr-IsWord i c h.ranged) h.ranged)
      λ _.
        Ensures-chain (IsTranslated c.memory) (AccessedRound i)
          (translate (access_at c addr true) c.memory) _ (translate-IsTranslated _ c.memory)
          λ t k.
            let host = subst IsByteHost (sym k.1) h.ranged.host in
            if_split (Ensures (AccessedRound i)) t.0.fault
              (λ _.
                trap-IsAccessed (fault_pc c i) t.0.cause addr (record c { memory = t.1 })
                  (omega arith) k.0 (mem_addr-IsWord i c h.ranged)
                  (set_memory-IsRanged t.1 c host h.ranged))
              λ _.
                Ensures-chain HasBytes (AccessedRound i) (write t.0.paddr n value t.1) _
                  (write-IsByteHost t.0.paddr n value t.1 host)
                  λ m b. record { ranged = set_memory-IsRanged m c b h.ranged; agrees = h.agrees }

Ensures-after :
    (i j : Lane) (m : Outcome Round) (f : CpuCore → Outcome Round)
    → Ensures (AccessedRound i) m
    → ((c : CpuCore) → IsAccessed i c → Ensures (AccessedRound j) (f c))
    → Ensures (AccessedRound j) (after m f)
Ensures-after i j (ok (goes_on c)) f h k = k c h
Ensures-after i j (ok (returns c)) f h k = h
Ensures-after i j (thrown e) f h k = tt
Ensures-after i j undefined f h k = tt

-- An empty slot has nothing to agree on.
idle-IsAccessed :
    (i : Lane) (c : CpuCore)
    → (get_lane c.pipe_regs.ex_mem.slots i).valid ≡ false
    → IsRanged c
    → IsAccessed i c
idle-IsAccessed first c e h = record { ranged = h; agrees = λ n. cc }
idle-IsAccessed second c e h = record {
  ranged = h;
  agrees = λ n. record {
    same_valid = λ v. cc;
    same_write = λ v. cc;
    same_rd = λ v. cc;
    same_result = λ v m. cc;
  };
}

slot_result-IsWord :
    (i : Lane) (c : CpuCore) → IsRanged c → IsWord (get_lane c.pipe_regs.ex_mem.slots i).result
slot_result-IsWord first c h = h.latches.ex_mem.slots.lane0.result_word
slot_result-IsWord second c h = h.latches.ex_mem.slots.lane1.result_word

access_slot-AccessedRound :
    (i : Lane) (c : CpuCore) → IsRanged c → Ensures (AccessedRound i) (access_slot i c)
unfolding access_slot
access_slot-AccessedRound i c h =
    let slot = get_lane c.pipe_regs.ex_mem.slots i in
    let moved = put_mem_wb-IsAccessed i slot.result c (λ e. refl) (slot_result-IsWord i c h) h in
    if_split (Ensures (AccessedRound i)) slot.valid
      (λ _.
        Ensures-after i i _ _
          (if_split (Ensures (AccessedRound i)) (get_lane c.pipe_regs.ex_mem.mem_read i)
            (λ e. load_slot-AccessedRound i c e moved.ranged h) (λ _. moved))
          (λ d k.
            if_split (Ensures (AccessedRound i)) (get_lane d.pipe_regs.ex_mem.mem_write i)
              (λ _. store_slot-AccessedRound i d k) (λ _. k)))
      (λ e. idle-IsAccessed i c e h)

-- After the memory stage the core is ranged, and EX_MEM and MEM_WB agree.
pub memory_access-IsAccessed :
    (c : CpuCore) → IsRanged c → Ensures (IsAccessed second) (memory_access c)
unfolding memory_access
memory_access-IsAccessed c h =
    let start = record c { pipe_regs = record (c.pipe_regs) { mem_wb = empty_mem_wb } } in
    let ranged : IsRanged start = record {
      latches = record {
        if_id = h.latches.if_id;
        id_ex = h.latches.id_ex;
        ex_mem = h.latches.ex_mem;
        mem_wb = empty-IsRangedPair;
      };
      registers = h.registers;
      host = h.host;
      pc = h.pc;
    } in
    finish (after (access_slot first start) (access_slot second)) (
      Ensures-after first second _ _ (access_slot-AccessedRound first start ranged)
        (λ d k. access_slot-AccessedRound second d k.ranged))
  where
    finish :
        (m : Outcome Round)
        → Ensures (AccessedRound second) m
        → Ensures (IsAccessed second) (m >>= λ r. ok (core_of r))
    finish (ok (goes_on d)) k = k
    finish (ok (returns d)) k = k
    finish (thrown e) k = tt
    finish undefined k = tt
