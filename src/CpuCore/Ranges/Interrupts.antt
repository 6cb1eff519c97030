-- ===== src/CpuCore/Ranges/Interrupts.antt =====
-- The start of `tick` with `checkAndHandleInterrupts`, and `writeBack`, of src/CPUCore.cpp keep the
-- ranges of the core's fields.
use simple_rv.Prelude.{
  ℕ, arith, IsWord, true, false, ◌&&◌, ◌||◌, not, ◌==◌, if_split, has_bits, List, [], ◌∷◌,
}
use simple_rv.Types.{prv_m, prv_s, PipelineSlot}
use simple_rv.RegisterFile.{RegisterFile, interrupt_delegated, hw_set_mtip}
use simple_rv.RegisterFile.Address.{
  addr_of, mstatus_csr, mepc_csr, mcause_csr, mtvec_csr, sstatus_csr, sepc_csr, scause_csr,
  stvec_csr,
}
use simple_rv.RegisterFile.Valid.{
  IsValid, read_csr-IsWord, write_csr-IsValid, write_rd-IsValid, set_privilege-IsValid,
  hw_set_mtip-IsValid,
}
use simple_rv.MemorySystem.{increment_timer, timer_interrupt_pending}
use simple_rv.CpuCore.{begin_cycle}
use simple_rv.CpuCore.State.{CpuCore}
use simple_rv.CpuCore.Trap.{
  Interrupt, interrupts, interrupt_to_s, interrupt_to_m, take_interrupt, scan_interrupts, global_ie,
  ie_val, ip_val, check_and_handle_interrupts,
}
use simple_rv.CpuCore.WriteBack.{write_back_slot, write_back, ebreak}
use simple_rv.CpuCore.Ranges.{IsRangedSlot, IsRanged, flush-IsRangedLatches}
use simple_rv.CpuCore.Ranges.Values.{sstatus_on_trap-IsWord, mstatus_on_trap-IsWord}

interrupt_to_s-IsValid :
    (pc cause : ℕ) (f : RegisterFile)
    → IsWord pc
    → IsWord cause
    → IsValid f
    → IsValid (interrupt_to_s pc cause f)
unfolding interrupt_to_s
interrupt_to_s-IsValid pc cause f p q h = set_privilege-IsValid prv_s _ (
    write_csr-IsValid (addr_of scause_csr) cause _ q (
      write_csr-IsValid (addr_of sepc_csr) pc _ p
        (write_csr-IsValid (addr_of sstatus_csr) _ f (sstatus_on_trap-IsWord _ f.privilege) h)))

interrupt_to_m-IsValid :
    (pc cause : ℕ) (f : RegisterFile)
    → IsWord pc
    → IsWord cause
    → IsValid f
    → IsValid (interrupt_to_m pc cause f)
unfolding interrupt_to_m
interrupt_to_m-IsValid pc cause f p q h = set_privilege-IsValid prv_m _ (
    write_csr-IsValid (addr_of mcause_csr) cause _ q (
      write_csr-IsValid (addr_of mepc_csr) pc _ p
        (write_csr-IsValid (addr_of mstatus_csr) _ f (mstatus_on_trap-IsWord _ f.privilege) h)))

take_interrupt-IsRanged :
    (cause : ℕ) (c : CpuCore) → IsWord cause → IsRanged c → IsRanged (take_interrupt cause c)
unfolding take_interrupt
take_interrupt-IsRanged cause c q h =
    let latches = flush-IsRangedLatches c.pipe_regs h.latches in
    let to_s = interrupt_to_s-IsValid c.pc cause c.reg_file h.pc q h.registers in
    let to_m = interrupt_to_m-IsValid c.pc cause c.reg_file h.pc q h.registers in
    if_split IsRanged (interrupt_delegated c.reg_file cause || not (c.reg_file.privilege == prv_m))
      (λ _. record {
        latches = latches;
        registers = to_s;
        host = h.host;
        pc = read_csr-IsWord (addr_of stvec_csr) _ to_s;
      })
      (λ _. record {
        latches = latches;
        registers = to_m;
        host = h.host;
        pc = read_csr-IsWord (addr_of mtvec_csr) _ to_m;
      })

abbrev HaveWords : List Interrupt → Type 0
HaveWords [] = Unit
HaveWords (i ∷ is) = IsWord i.cause × HaveWords is

interrupts-HaveWords : HaveWords interrupts
interrupts-HaveWords =
    (omega arith, (omega arith, (omega arith, (omega arith, (omega arith, (omega arith, tt))))))

scan_interrupts-IsRanged :
    (is : List Interrupt) (ie ip : ℕ) (c : CpuCore)
    → HaveWords is
    → IsRanged c
    → IsRanged (scan_interrupts is ie ip c)
unfolding scan_interrupts
scan_interrupts-IsRanged [] ie ip c w h = h
scan_interrupts-IsRanged (i ∷ is) ie ip c w h =
    if_split IsRanged (has_bits ie i.mask && has_bits ip i.mask)
      (λ _. take_interrupt-IsRanged i.cause c w.0 h)
      (λ _. scan_interrupts-IsRanged is ie ip c w.1 h)

pub begin_cycle-IsRanged : (c : CpuCore) → IsRanged c → IsRanged (begin_cycle c)
unfolding begin_cycle check_and_handle_interrupts increment_timer
begin_cycle-IsRanged c h =
    let m = increment_timer c.memory in
    let f = hw_set_mtip (timer_interrupt_pending m) c.reg_file in
    let d = record c { memory = m; reg_file = f } in
    let ranged : IsRanged d = record {
      latches = h.latches;
      registers = hw_set_mtip-IsValid (timer_interrupt_pending m) c.reg_file h.registers;
      host = record { buffered = h.host.buffered; waiting = h.host.waiting };
      pc = h.pc;
    } in
    if_split IsRanged (global_ie f)
      (λ _. scan_interrupts-IsRanged interrupts (ie_val f) (ip_val f) d interrupts-HaveWords ranged)
      (λ _. ranged)

write_back_slot-IsRanged :
    (s : PipelineSlot) (c : CpuCore) → IsRangedSlot s → IsRanged c → IsRanged (write_back_slot s c)
unfolding write_back_slot
write_back_slot-IsRanged s c w h =
    if_split IsRanged s.valid
      (λ _.
        if_split IsRanged (s.instr == ebreak) (λ _. halted)
          λ _.
            if_split IsRanged (s.instr == 0) (λ _. halted)
              λ _. record {
                latches = h.latches;
                registers =
                    if_split IsValid (s.reg_write && not (s.rd == 0))
                      (λ _.
                        write_rd-IsValid s.rd s.result true c.reg_file w.result_word h.registers)
                      (λ _. h.registers);
                host = h.host;
                pc = h.pc;
              })
      (λ _. h)
  where
    halted : IsRanged (record c { running = false })
    halted = record { latches = h.latches; registers = h.registers; host = h.host; pc = h.pc }

pub write_back-IsRanged : (c : CpuCore) → IsRanged c → IsRanged (write_back c)
unfolding write_back write_back_slot
write_back-IsRanged c h =
    let pair = h.latches.mem_wb in
    write_back_slot-IsRanged c.pipe_regs.mem_wb.slots.lane1 _ pair.lane1
      (write_back_slot-IsRanged c.pipe_regs.mem_wb.slots.lane0 c pair.lane0 h)
