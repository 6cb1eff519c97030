-- ===== src/CpuCore/Invariant/Memory.antt =====
-- The front latches through `CPUCore::memoryAccess` and `CPUCore::fetch` of src/CPUCore.cpp.
use simple_rv.Prelude.{
  refl, true, false, not, ◌==◌, if◌then◌else◌, if_split, ℕ, ◌+◌, u32, leb, ◌>>◌, Outcome, ok,
  thrown, undefined, ◌>>=◌, bit_and,
}
use simple_rv.Types.{PipelineSlot, Lane, first, second, get_lane, memory_size, empty_mem_wb}
use simple_rv.MemorySystem.Translate.{translate}
use simple_rv.MemorySystem.{MemorySystem, read, read_double_instr, write}
use simple_rv.CpuCore.State.{CpuCore}
use simple_rv.CpuCore.Trap.{handle_trap}
use simple_rv.CpuCore.MemoryAccess.{
  Round, goes_on, returns, core_of, load_slot, store_slot, access_slot, memory_access, load_width,
  store_width, misaligned, after, access_at, put_mem_wb,
}
use simple_rv.CpuCore.Fetch.{fetch_instr, fetch_two, fetch, fetch_access, fill_first, fill_both}
use simple_rv.CpuCore.Invariant.{IsSound, same-IsSound, handle_trap-IsSound}

-- What an outcome returns, if it returns, has the property.
abbrev pub Ensures : {A : Type 0} → (A → Type 0) → Outcome A → Type 0
Ensures P (ok a) = P a
Ensures P (thrown e) = Unit
Ensures P undefined = Unit

pub Ensures-bind :
    {A B : Type 0} (P : B → Type 0) (m : Outcome A) (f : A → Outcome B)
    → ((a : A) → Ensures P (f a))
    → Ensures P (m >>= f)
Ensures-bind P (ok a) f h = h a
Ensures-bind P (thrown e) f h = tt
Ensures-bind P undefined f h = tt

-- What the accesses of a slot do to a core: a trap, a slot of MEM_WB, and the memory system.
module _ (P : CpuCore → Type 0)
    (trap : (fault_pc cause tval : ℕ) (c : CpuCore) → P c → P (handle_trap fault_pc cause tval c))
    (move : (i : Lane) (s : PipelineSlot) (c : CpuCore) → P c → P (put_mem_wb i s c))
    (remember : (m : MemorySystem) (c : CpuCore) → P c → P (record c { memory = m })) where
  abbrev KeptRound : Round → Type 0
  KeptRound r = P (core_of r)

  load_slot-KeptRound : (i : Lane) (c : CpuCore) → P c → Ensures KeptRound (load_slot i c)
  unfolding load_slot
  load_slot-KeptRound i c h =
      let slot = get_lane c.pipe_regs.ex_mem.slots i in
      let addr = get_lane c.pipe_regs.ex_mem.mem_addr i in
      let n = load_width (bit_and (slot.instr >> 12) 0x7) in
      if_split (Ensures KeptRound) (misaligned n addr) (λ _. trap _ _ _ c h)
        λ _. Ensures-bind KeptRound (translate (access_at c addr false) c.memory) _ λ t.
          if_split (Ensures KeptRound) t.0.fault
            (λ _. trap _ _ _ (record c { memory = t.1 }) (remember t.1 c h))
            λ _.
              Ensures-bind KeptRound (read t.0.paddr n t.1) _
                λ r. move i _ (record c { memory = r.1 }) (remember r.1 c h)

  store_slot-KeptRound : (i : Lane) (c : CpuCore) → P c → Ensures KeptRound (store_slot i c)
  unfolding store_slot
  store_slot-KeptRound i c h =
      let slot = get_lane c.pipe_regs.ex_mem.slots i in
      let addr = get_lane c.pipe_regs.ex_mem.mem_addr i in
      let n = store_width (bit_and (slot.instr >> 12) 0x7) in
      if_split (Ensures KeptRound) (misaligned n addr) (λ _. trap _ _ _ c h)
        λ _. Ensures-bind KeptRound (translate (access_at c addr true) c.memory) _ λ t.
          if_split (Ensures KeptRound) t.0.fault
            (λ _. trap _ _ _ (record c { memory = t.1 }) (remember t.1 c h))
            λ _.
              Ensures-bind KeptRound
                (write t.0.paddr n (get_lane c.pipe_regs.ex_mem.mem_data i) t.1) _
                (λ m. remember m c h)

  -- The round that follows one that may have returned.
  Ensures-after :
      (m : Outcome Round) (f : CpuCore → Outcome Round)
      → Ensures KeptRound m
      → ((c : CpuCore) → P c → Ensures KeptRound (f c))
      → Ensures KeptRound (after m f)
  Ensures-after (ok (goes_on c)) f h k = k c h
  Ensures-after (ok (returns c)) f h k = h
  Ensures-after (thrown e) f h k = tt
  Ensures-after undefined f h k = tt

  access_slot-KeptRound : (i : Lane) (c : CpuCore) → P c → Ensures KeptRound (access_slot i c)
  unfolding access_slot
  access_slot-KeptRound i c h =
      let slot = get_lane c.pipe_regs.ex_mem.slots i in
      let moved = move i slot c h in
      if_split (Ensures KeptRound) slot.valid
        (λ _.
          Ensures-after _ _
            (if_split (Ensures KeptRound) (get_lane c.pipe_regs.ex_mem.mem_read i)
              (λ _. load_slot-KeptRound i _ moved) (λ _. moved))
            (λ d k.
              if_split (Ensures KeptRound) (get_lane d.pipe_regs.ex_mem.mem_write i)
                (λ _. store_slot-KeptRound i d k) (λ _. k)))
        (λ _. h)

  -- The memory stage keeps what these keep.
  pub memory_access-keeps :
      (c : CpuCore)
      → P (record c { pipe_regs = record (c.pipe_regs) { mem_wb = empty_mem_wb } })
      → Ensures P (memory_access c)
  unfolding memory_access
  memory_access-keeps c h =
      let start = record c { pipe_regs = record (c.pipe_regs) { mem_wb = empty_mem_wb } } in
      finish (after (access_slot first start) (access_slot second))
        (Ensures-after _ _ (access_slot-KeptRound first start h) (access_slot-KeptRound second))
    where
      finish : (m : Outcome Round) → Ensures KeptRound m → Ensures P (m >>= λ r. ok (core_of r))
      finish (ok r) k = k
      finish (thrown e) k = tt
      finish undefined k = tt

pub memory_access-IsSound : (c : CpuCore) → IsSound c → Ensures IsSound (memory_access c)
memory_access-IsSound c h =
    memory_access-keeps IsSound (λ p q r d k. handle_trap-IsSound p q r d)
      (λ i s d k. same-IsSound d _ refl refl k) (λ m d k. same-IsSound d _ refl refl k) c
      (same-IsSound c _ refl refl h)

abbrev SoundFetched : ℕ × CpuCore → Type 0
SoundFetched r = IsSound r.1

fetch_instr-IsSound :
    (vaddr : ℕ) (c : CpuCore) → IsSound c → Ensures SoundFetched (fetch_instr vaddr c)
unfolding fetch_instr
fetch_instr-IsSound vaddr c h =
    Ensures-bind SoundFetched (translate (fetch_access c vaddr) c.memory) _ λ t.
      if_split (Ensures SoundFetched) t.0.fault (λ _. handle_trap-IsSound _ _ _ _)
        λ _. Ensures-bind SoundFetched (read t.0.paddr 4 t.1) _ λ r. same-IsSound c _ refl refl h

filled-IsSound : (word : ℕ) (c : CpuCore) → IsSound c → IsSound (fill_first word c)
filled-IsSound word c h = record { ordered = λ v. refl; paired = h.paired }

both-IsSound : (words : ℕ) (c : CpuCore) → IsSound c → IsSound (fill_both words c)
both-IsSound words c h = record { ordered = λ v. refl; paired = h.paired }

fetch_two-IsSound : (c : CpuCore) → IsSound c → Ensures IsSound (fetch_two c)
unfolding fetch_two
fetch_two-IsSound c h = Ensures-bind IsSound (translate (fetch_access c c.pc) c.memory) _ λ t.
    let same : IsSound (record c { memory = t.1 }) = same-IsSound c _ refl refl h in
    if_split (Ensures IsSound) t.0.fault (λ _. handle_trap-IsSound _ _ _ _)
      λ _.
        if_split (Ensures IsSound) (not (t.0.paddr >> 12 == u32 (t.0.paddr + 7) >> 12))
          (λ _.
            Ensures-bind IsSound (read t.0.paddr 4 t.1) _
              λ r. filled-IsSound r.0 _ (same-IsSound c (record c { memory = r.1 }) refl refl h))
          (λ _.
            if_split (Ensures IsSound) (leb (u32 (t.0.paddr + 8)) memory_size)
              (λ _.
                Ensures-bind IsSound (read_double_instr t.0.paddr t.1) _
                  λ words. both-IsSound words _ same)
              (λ _. same))

-- The fetch stage puts an instruction into the second slot only beside one in the first.
pub fetch-IsSound : (c : CpuCore) → IsSound c → Ensures IsSound (fetch c)
unfolding fetch
fetch-IsSound c h =
    if_split (Ensures IsSound) c.pipe_regs.if_id.slots.lane0.valid (λ _. h)
      λ empty0.
        if_split (Ensures IsSound) c.pipe_regs.if_id.slots.lane1.valid
          (λ full1. absurd (cc (h.ordered full1, empty0)))
          (λ _.
            if_split (Ensures IsSound) (leb (u32 (c.pc + 8)) memory_size)
              (λ _. fetch_two-IsSound c h)
              (λ _.
                if_split (Ensures IsSound) (leb (u32 (c.pc + 4)) memory_size) (λ _. last c h)
                  (λ _. h)))
  where
    last :
        (c : CpuCore)
        → IsSound c
        → Ensures IsSound
            (fetch_instr c.pc c >>= λ r. if r.1.running then ok (fill_first r.0 r.1) else ok r.1)
    last c h = filled (fetch_instr c.pc c) (fetch_instr-IsSound c.pc c h)
      where
        filled :
            (m : Outcome (ℕ × CpuCore))
            → Ensures SoundFetched m
            → Ensures IsSound (m >>= λ r. if r.1.running then ok (fill_first r.0 r.1) else ok r.1)
        filled (ok r) k =
            if_split (Ensures IsSound) r.1.running (λ _. filled-IsSound r.0 r.1 k) (λ _. k)
        filled (thrown e) k = tt
        filled undefined k = tt

-- A chain whose first part has one property and whose second part turns it into another.
pub Ensures-chain :
    {A B : Type 0} (P : A → Type 0) (Q : B → Type 0) (m : Outcome A) (f : A → Outcome B)
    → Ensures P m
    → ((a : A) → P a → Ensures Q (f a))
    → Ensures Q (m >>= f)
Ensures-chain P Q (ok a) f h k = k a h
Ensures-chain P Q (thrown e) f h k = tt
Ensures-chain P Q undefined f h k = tt
