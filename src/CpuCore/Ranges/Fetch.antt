-- ===== src/CpuCore/Ranges/Fetch.antt =====
-- `fetch` of src/CPUCore.cpp keeps the ranges of the core's fields.
use simple_rv.Prelude.{
  ℕ, ◌+◌, ◌>>◌, sym, subst, arith, u32, IsWord, not, ◌==◌, leb, ltb, if_split, if◌then◌else◌, ok,
  ◌>>=◌,
}
use simple_rv.Types.{PipelineSlot, IfIdBuffer, memory_size, invalidate}
use simple_rv.MemorySystem.{read, read_double_instr}
use simple_rv.MemorySystem.Translate.{translate}
use simple_rv.CpuCore.State.{CpuCore}
use simple_rv.CpuCore.Fetch.{
  fetch_access, fetch_instr, fetch_one, fetch_two, fetch, set_if_id, load_word, fill_first,
  fill_second, fill_both,
}
use simple_rv.CpuCore.Invariant.Memory.{Ensures, Ensures-bind, Ensures-chain}
use simple_rv.CpuCore.Ranges.{
  IsRangedSlot, IsRangedIfId, IsRanged, IsByteHost, invalidate-IsRangedSlot,
}
use simple_rv.CpuCore.Ranges.Values.{bit_and-IsWord}
use simple_rv.CpuCore.Ranges.Keyboard.{IsRead, read-IsRead, IsTranslated, translate-IsTranslated}
use simple_rv.CpuCore.Ranges.Traps.{handle_trap-IsRanged}
use simple_rv.CpuCore.Ranges.Accesses.{set_memory-IsRanged}

load_word-IsRangedSlot :
    (s : PipelineSlot) (word : ℕ) → IsWord word → IsRangedSlot s → IsRangedSlot (load_word s word)
load_word-IsRangedSlot s word w h = record {
  instr_word = w;
  result_word = h.result_word;
  target_word = h.target_word;
  csr_word = h.csr_word;
  imm_word = h.imm_word;
  low = h.low;
  same_rd = h.same_rd;
  same_write = h.same_write;
}

set_if_id-IsRanged :
    (b : IfIdBuffer) (pc : ℕ) (c : CpuCore)
    → IsRangedIfId b
    → IsWord pc
    → IsRanged c
    → IsRanged (record (set_if_id b c) { pc = pc })
set_if_id-IsRanged b pc c k w h = record {
  latches = record {
    if_id = k;
    id_ex = h.latches.id_ex;
    ex_mem = h.latches.ex_mem;
    mem_wb = h.latches.mem_wb;
  };
  registers = h.registers;
  host = h.host;
  pc = w;
}

abbrev IsFetched : ℕ × CpuCore → Type 0
IsFetched r = IsWord r.0 × IsRanged r.1

fetch_instr-IsFetched :
    (vaddr : ℕ) (c : CpuCore) → IsWord vaddr → IsRanged c → Ensures IsFetched (fetch_instr vaddr c)
unfolding fetch_instr
fetch_instr-IsFetched vaddr c w h =
    Ensures-chain (IsTranslated c.memory) IsFetched (translate (fetch_access c vaddr) c.memory) _
      (translate-IsTranslated _ c.memory)
      λ t k.
        let host = subst IsByteHost (sym k.1) h.host in
        if_split (Ensures IsFetched) t.0.fault
          (λ _. (
            omega arith,
            handle_trap-IsRanged vaddr t.0.cause vaddr (record c { memory = t.1 }) w k.0 w
                (set_memory-IsRanged t.1 c host h),
          ))
          λ _.
            Ensures-chain IsRead IsFetched (read t.0.paddr 4 t.1) _
              (read-IsRead t.0.paddr 4 t.1 host) (λ r l. (l.0, set_memory-IsRanged r.1 c l.1 h))

fill_first-IsRanged :
    (word : ℕ) (c : CpuCore) → IsWord word → IsRanged c → IsRanged (fill_first word c)
fill_first-IsRanged word c w h =
    let b = c.pipe_regs.if_id in
    let k = h.latches.if_id in
    set_if_id-IsRanged
      (record b { slots = record (b.slots) { lane0 = load_word b.slots.lane0 word }; pc = c.pc })
      (u32 (c.pc + 4)) c
      (record {
        slots = record {
          lane0 = load_word-IsRangedSlot b.slots.lane0 word w k.slots.lane0;
          lane1 = k.slots.lane1;
        };
        pc = h.pc;
      })
      (omega arith) h

fill_second-IsRanged :
    (word : ℕ) (c : CpuCore) → IsWord word → IsRanged c → IsRanged (fill_second word c)
fill_second-IsRanged word c w h =
    let b = c.pipe_regs.if_id in
    let k = h.latches.if_id in
    set_if_id-IsRanged
      (record b { slots = record (b.slots) { lane1 = load_word b.slots.lane1 word } })
      (u32 (c.pc + 4)) c
      (record {
        slots = record {
          lane0 = k.slots.lane0;
          lane1 = load_word-IsRangedSlot b.slots.lane1 word w k.slots.lane1;
        };
        pc = k.pc;
      })
      (omega arith) h

fill_both-IsRanged : (words : ℕ) (c : CpuCore) → IsRanged c → IsRanged (fill_both words c)
fill_both-IsRanged words c h =
    let b = c.pipe_regs.if_id in
    let k = h.latches.if_id in
    set_if_id-IsRanged _ (u32 (c.pc + 8)) c
      (record {
        slots = record {
          lane0 =
              load_word-IsRangedSlot b.slots.lane0 _ (bit_and-IsWord words 0xFFFFFFFF (omega arith))
                k.slots.lane0;
          lane1 =
              load_word-IsRangedSlot b.slots.lane1 (u32 (words >> 32)) (omega arith) k.slots.lane1;
        };
        pc = h.pc;
      })
      (omega arith) h

-- A fetched word goes into a slot if the core still runs.
fetched-IsRanged :
    (fill : ℕ → CpuCore → CpuCore) (pc : ℕ) (c : CpuCore)
    → ((word : ℕ) (d : CpuCore) → IsWord word → IsRanged d → IsRanged (fill word d))
    → IsWord pc
    → IsRanged c
    → Ensures IsRanged (fetch_instr pc c >>= λ r. if r.1.running then ok (fill r.0 r.1) else ok r.1)
fetched-IsRanged fill pc c filled w h =
    Ensures-chain IsFetched IsRanged (fetch_instr pc c) _ (fetch_instr-IsFetched pc c w h)
      λ r k. if_split (Ensures IsRanged) r.1.running (λ _. filled r.0 r.1 k.0 k.1) (λ _. k.1)

fetch_one-IsRanged : (c : CpuCore) → IsRanged c → Ensures IsRanged (fetch_one c)
unfolding fetch_one
fetch_one-IsRanged c h =
    let b = c.pipe_regs.if_id in
    let k = h.latches.if_id in
    let moved =
      set_if_id-IsRanged
        (record b { slots = record { lane0 = b.slots.lane1; lane1 = invalidate b.slots.lane1 } })
        c.pc c
        (record {
          slots = record {
            lane0 = k.slots.lane1;
            lane1 = invalidate-IsRangedSlot b.slots.lane1 k.slots.lane1;
          };
          pc = k.pc;
        })
        h.pc h in
    if_split (Ensures IsRanged) (ltb c.pc memory_size)
      (λ _. fetched-IsRanged (λ w d. fill_second w d) c.pc _ fill_second-IsRanged h.pc moved)
      (λ _. moved)

fetch_two-IsRanged : (c : CpuCore) → IsRanged c → Ensures IsRanged (fetch_two c)
unfolding fetch_two
fetch_two-IsRanged c h =
    Ensures-chain (IsTranslated c.memory) IsRanged (translate (fetch_access c c.pc) c.memory) _
      (translate-IsTranslated _ c.memory)
      λ t k.
        let host = subst IsByteHost (sym k.1) h.host in
        let same = set_memory-IsRanged t.1 c host h in
        if_split (Ensures IsRanged) t.0.fault
          (λ _.
            handle_trap-IsRanged c.pc t.0.cause c.pc (record c { memory = t.1 }) h.pc k.0 h.pc same)
          λ _.
            if_split (Ensures IsRanged) (not (t.0.paddr >> 12 == u32 (t.0.paddr + 7) >> 12))
              (λ _.
                Ensures-chain IsRead IsRanged (read t.0.paddr 4 t.1) _
                  (read-IsRead t.0.paddr 4 t.1 host)
                  λ r l.
                    fill_first-IsRanged r.0 (record c { memory = r.1 }) l.0
                      (set_memory-IsRanged r.1 c l.1 h))
              (λ _.
                if_split (Ensures IsRanged) (leb (u32 (t.0.paddr + 8)) memory_size)
                  (λ _.
                    Ensures-bind IsRanged (read_double_instr t.0.paddr t.1) _
                      λ words. fill_both-IsRanged words (record c { memory = t.1 }) same)
                  (λ _. same))

pub fetch-IsRanged : (c : CpuCore) → IsRanged c → Ensures IsRanged (fetch c)
unfolding fetch
fetch-IsRanged c h =
    if_split (Ensures IsRanged) c.pipe_regs.if_id.slots.lane0.valid (λ _. h)
      λ _.
        if_split (Ensures IsRanged) c.pipe_regs.if_id.slots.lane1.valid
          (λ _. fetch_one-IsRanged c h)
          (λ _.
            if_split (Ensures IsRanged) (leb (u32 (c.pc + 8)) memory_size)
              (λ _. fetch_two-IsRanged c h)
              (λ _.
                if_split (Ensures IsRanged) (leb (u32 (c.pc + 4)) memory_size)
                  (λ _. fetched-IsRanged (λ w d. fill_first w d) c.pc c fill_first-IsRanged h.pc h)
                  (λ _. h)))
