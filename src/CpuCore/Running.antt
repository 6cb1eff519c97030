-- ===== src/CpuCore/Running.antt =====
-- When the loop of `CPUCore::run` (src/CPUCore.cpp) ends.
use simple_rv.Prelude.{
  ℕ, ◌≡◌, refl, sym, ap, ◌∙◌, subst, arith, Bool, true, ◌&&◌, ◌||◌, not, ◌==◌, if_split,
  if◌then◌else◌, has_bits, List, [], ◌∷◌, ok, ◌>>=◌, >>=-eq-ok, u32, leb, ltb, ◌+◌, ◌>>◌,
}
use simple_rv.Types.{PipelineSlot, prv_m, memory_size, count, MemWbBuffer}
use simple_rv.RegisterFile.{exception_delegated, interrupt_delegated, hw_set_mtip}
use simple_rv.MemorySystem.{increment_timer, timer_interrupt_pending, read, read_double_instr}
use simple_rv.MemorySystem.Translate.{translate}
use simple_rv.PipelineRegisters.{flush}
use simple_rv.CpuCore
use simple_rv.CpuCore.{begin_cycle, stages, tick, run}
use simple_rv.CpuCore.State.{CpuCore}
use simple_rv.CpuCore.Trap.{
  handle_trap, take_interrupt, scan_interrupts, interrupts, Interrupt, global_ie, ie_val, ip_val,
  check_and_handle_interrupts,
}
use simple_rv.CpuCore.WriteBack.{ebreak, write_back_slot, write_back}
use simple_rv.CpuCore.MemoryAccess.{memory_access}
use simple_rv.CpuCore.Execute.{
  execute, execute_and_commit, resolve_branch, handle_slot_trap, handle_slot_traps, return_from_m,
  return_from_s,
}
use simple_rv.CpuCore.Fetch.{
  fetch_access, fetch_instr, fetch_one, fetch_two, fetch, fill_first, fill_second,
}
use simple_rv.CpuCore.Invariant.Memory.{Ensures, Ensures-bind, Ensures-chain, memory_access-keeps}

-- The slot of MEM_WB holds one of the two words that halt.
abbrev pub halts : PipelineSlot → Bool
halts s = s.valid && (s.instr == ebreak || s.instr == 0)

handle_trap-running : (p q r : ℕ) (c : CpuCore) → (handle_trap p q r c).running ≡ c.running
unfolding handle_trap
handle_trap-running p q r c =
    if_split (λ (d : CpuCore). d.running ≡ c.running)
      (exception_delegated c.reg_file q && not (c.reg_file.privilege == prv_m)) (λ _. refl)
      (λ _. refl)

write_back-running :
    (c : CpuCore)
    → (write_back c).running ≡ (
        c.running
        && not (halts c.pipe_regs.mem_wb.slots.lane0 || halts c.pipe_regs.mem_wb.slots.lane1))
unfolding write_back write_back_slot
write_back-running c = ground arith

-- A core that runs as `b` says, with the latch `w` in MEM_WB.
record Waits (b : Bool) (w : MemWbBuffer) (c : CpuCore) : Type 0 where
  running : c.running ≡ b
  latch : c.pipe_regs.mem_wb ≡ w

take_interrupt-Waits :
    (b : Bool) (w : MemWbBuffer) (cause : ℕ) (c : CpuCore)
    → Waits b w c
    → Waits b w (take_interrupt cause c)
unfolding take_interrupt flush
take_interrupt-Waits b w cause c h =
    if_split (Waits b w)
      (interrupt_delegated c.reg_file cause || not (c.reg_file.privilege == prv_m))
      (λ _. record { running = h.running; latch = h.latch })
      (λ _. record { running = h.running; latch = h.latch })

scan_interrupts-Waits :
    (b : Bool) (w : MemWbBuffer) (is : List Interrupt) (ie ip : ℕ) (c : CpuCore)
    → Waits b w c
    → Waits b w (scan_interrupts is ie ip c)
unfolding scan_interrupts
scan_interrupts-Waits b w [] ie ip c h = h
scan_interrupts-Waits b w (i ∷ is) ie ip c h =
    if_split (Waits b w) (has_bits ie i.mask && has_bits ip i.mask)
      (λ _. take_interrupt-Waits b w i.cause c h) (λ _. scan_interrupts-Waits b w is ie ip c h)

begin_cycle-Waits : (c : CpuCore) → Waits c.running c.pipe_regs.mem_wb (begin_cycle c)
unfolding begin_cycle check_and_handle_interrupts
begin_cycle-Waits c =
    let m = increment_timer c.memory in
    let f = hw_set_mtip (timer_interrupt_pending m) c.reg_file in
    let d = record c { memory = m; reg_file = f } in
    let waits : Waits c.running c.pipe_regs.mem_wb d = record { running = refl; latch = refl } in
    if_split (Waits c.running c.pipe_regs.mem_wb) (global_ie f)
      (λ _. scan_interrupts-Waits _ _ interrupts (ie_val f) (ip_val f) d waits) (λ _. waits)

resolve_branch-running : (c : CpuCore) → (resolve_branch c).running ≡ c.running
unfolding resolve_branch
resolve_branch-running c = ground arith

handle_slot_trap-running :
    (s : PipelineSlot) (slot_pc : ℕ) (c : CpuCore)
    → (handle_slot_trap s slot_pc c).running ≡ c.running
unfolding handle_slot_trap return_from_m return_from_s
handle_slot_trap-running s slot_pc c =
    if_split (λ (d : CpuCore). d.running ≡ c.running) s.d.is_ecall
      (λ _. handle_trap-running _ _ _ c)
      λ _.
        if_split (λ (d : CpuCore). d.running ≡ c.running) s.d.is_illegal
          (λ _. handle_trap-running _ _ _ c) (λ _. ground arith)

handle_slot_traps-running : (c : CpuCore) → (handle_slot_traps c).running ≡ c.running
unfolding handle_slot_traps
handle_slot_traps-running c =
    let b = c.pipe_regs.ex_mem in
    ground (
      arith,
      handle_slot_trap-running b.slots.lane0 b.pc c,
      handle_slot_trap-running b.slots.lane1 (u32 (b.pc + 4)) c,
    )

execute-running : (c : CpuCore) → (execute c).running ≡ c.running
unfolding execute execute_and_commit
execute-running c =
    handle_slot_traps-running (resolve_branch (execute_and_commit c))
    ∙ resolve_branch-running (execute_and_commit c)

-- The core runs as `b` says.
abbrev Runs : Bool → CpuCore → Type 0
Runs b c = c.running ≡ b

memory_access-Runs : (c : CpuCore) → Ensures (Runs c.running) (memory_access c)
memory_access-Runs c =
    memory_access-keeps (Runs c.running) (λ p q r d k. handle_trap-running p q r d ∙ k)
      (λ i s d k. k) (λ m d k. k) c refl

abbrev RunsFetched : Bool → ℕ × CpuCore → Type 0
RunsFetched b r = r.1.running ≡ b

fetch_instr-Runs : (pc : ℕ) (c : CpuCore) → Ensures (RunsFetched c.running) (fetch_instr pc c)
unfolding fetch_instr
fetch_instr-Runs pc c =
    Ensures-bind (RunsFetched c.running) (translate (fetch_access c pc) c.memory) _ λ t.
      if_split (Ensures (RunsFetched c.running)) t.0.fault (λ _. handle_trap-running _ _ _ _)
        λ _. Ensures-bind (RunsFetched c.running) (read t.0.paddr 4 t.1) _ (λ r. refl)

fetched-Runs :
    (fill : ℕ → CpuCore → CpuCore) (pc : ℕ) (c : CpuCore)
    → ((word : ℕ) (d : CpuCore) → (fill word d).running ≡ d.running)
    → Ensures
        (Runs c.running)
        (fetch_instr pc c >>= λ r. if r.1.running then ok (fill r.0 r.1) else ok r.1)
fetched-Runs fill pc c same =
    Ensures-chain (RunsFetched c.running) (Runs c.running) (fetch_instr pc c) _
      (fetch_instr-Runs pc c)
      λ r k. if_split (Ensures (Runs c.running)) r.1.running (λ _. same r.0 r.1 ∙ k) (λ _. k)

fetch_two-Runs : (c : CpuCore) → Ensures (Runs c.running) (fetch_two c)
unfolding fetch_two
fetch_two-Runs c = Ensures-bind (Runs c.running) (translate (fetch_access c c.pc) c.memory) _ λ t.
    if_split (Ensures (Runs c.running)) t.0.fault (λ _. handle_trap-running _ _ _ _)
      λ _.
        if_split (Ensures (Runs c.running)) (not (t.0.paddr >> 12 == u32 (t.0.paddr + 7) >> 12))
          (λ _. Ensures-bind (Runs c.running) (read t.0.paddr 4 t.1) _ (λ r. refl))
          λ _.
            if_split (Ensures (Runs c.running)) (leb (u32 (t.0.paddr + 8)) memory_size)
              (λ _. Ensures-bind (Runs c.running) (read_double_instr t.0.paddr t.1) _ (λ w. refl))
              (λ _. refl)

fetch-Runs : (c : CpuCore) → Ensures (Runs c.running) (fetch c)
unfolding fetch fetch_one
fetch-Runs c =
    if_split (Ensures (Runs c.running)) c.pipe_regs.if_id.slots.lane0.valid (λ _. refl)
      λ _.
        if_split (Ensures (Runs c.running)) c.pipe_regs.if_id.slots.lane1.valid
          (λ _.
            if_split (Ensures (Runs c.running)) (ltb c.pc memory_size)
              (λ _. fetched-Runs (λ w d. fill_second w d) c.pc _ (λ w d. refl)) (λ _. refl))
          λ _.
            if_split (Ensures (Runs c.running)) (leb (u32 (c.pc + 8)) memory_size)
              (λ _. fetch_two-Runs c)
              λ _.
                if_split (Ensures (Runs c.running)) (leb (u32 (c.pc + 4)) memory_size)
                  (λ _. fetched-Runs (λ w d. fill_first w d) c.pc c (λ w d. refl)) (λ _. refl)

stages-Runs : (c : CpuCore) → Ensures (Runs (write_back c).running) (stages c)
unfolding stages CpuCore.decode_and_issue
stages-Runs c =
    Ensures-chain (Runs (write_back c).running) (Runs (write_back c).running)
      (memory_access (write_back c)) _ (memory_access-Runs (write_back c))
      λ d k.
        subst (λ b. Ensures (Runs b) (fetch (CpuCore.decode_and_issue (execute d))))
          (execute-running d ∙ k) (fetch-Runs (CpuCore.decode_and_issue (execute d)))

-- A running core runs on after a cycle that returns exactly if the cycle writes back neither an
-- EBREAK nor the word 0 from a valid slot of MEM_WB; no trap, interrupt or fault stops it.
pub tick-running :
    (c d : CpuCore)
    → c.running ≡ true
    → tick c ≡ ok d
    → d.running ≡ not (halts c.pipe_regs.mem_wb.slots.lane0 || halts c.pipe_regs.mem_wb.slots.lane1)
unfolding tick
tick-running c d on e =
    let b = begin_cycle c in
    let on_still =
      not (halts c.pipe_regs.mem_wb.slots.lane0 || halts c.pipe_regs.mem_wb.slots.lane1) in
    let waits = begin_cycle-Waits c in
    let written : (write_back b).running ≡ on_still =
      write_back-running b ∙ ground (arith, waits.running, waits.latch) in
    let (r, staged, same) = >>=-eq-ok (stages b) _ (
      sym (
        ap
          (λ x.
            if x
            then (stages b >>= λ r. ok (record r { cycle_count = count r.cycle_count }))
            else ok b)
          (waits.running ∙ on))
      ∙ e) in
    let kept : Runs (write_back b).running r =
      subst (Ensures (Runs (write_back b).running)) staged (stages-Runs b) in
    subst (λ (x : CpuCore). x.running ≡ on_still) (ok_injective same) (kept ∙ written)
  where
    ok_injective : {x y : CpuCore} → ok x ≡ ok y → x ≡ y
    ok_injective h = cc
