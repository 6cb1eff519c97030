-- ===== src/CpuCore/Interrupts.antt =====
-- `CPUCore::checkAndHandleInterrupts` of src/CPUCore.cpp: an interrupt that M-mode takes. Which one
-- is taken is in Priority.
pub mod Priority
use simple_rv.Prelude.{
  ℕ, ◌>>◌, ◌≡◌, refl, arith, Bool, true, false, ◌&&◌, if_split, has_bits, bit_and, List, [], ◌∷◌,
}
use simple_rv.Prelude.Bits.{has_bits-bit}
use simple_rv.Types.{mstatus_mie, mstatus_mpie, mstatus_mpp, prv_m, empty_if_id, empty_id_ex, count}
use simple_rv.RegisterFile.{read_csr, write_csr, set_privilege, interrupt_delegated}
use simple_rv.RegisterFile.Address.{addr_of, mtvec_csr}
use simple_rv.PipelineRegisters.{flush}
use simple_rv.CpuCore.State.{CpuCore}
use simple_rv.CpuCore.Trap.{
  Interrupt, interrupts, take_interrupt, scan_interrupts, check_and_handle_interrupts, global_ie,
  ie_val, ip_val, interrupt_to_m, mstatus_on_trap,
}
use simple_rv.CpuCore.Trap.Status.{mstatus_on_trap-bits, mpp_field}

-- What M-mode finds when an interrupt is taken.
pub record TakenInM (cause : ℕ) (c d : CpuCore) : Type 0 where
  pub epc : d.reg_file.mepc ≡ c.pc
  pub reason : d.reg_file.mcause ≡ cause
  pub level : d.reg_file.privilege ≡ prv_m
  pub vector : d.pc ≡ c.reg_file.mtvec
  pub disabled : has_bits d.reg_file.mstatus mstatus_mie ≡ false
  pub saved_enable :
      has_bits d.reg_file.mstatus mstatus_mpie ≡ has_bits c.reg_file.mstatus mstatus_mie
  pub saved_level : bit_and d.reg_file.mstatus mstatus_mpp >> 11 ≡ prv_m
  pub same_gpr : d.reg_file.gpr ≡ c.reg_file.gpr
  pub no_fetched : d.pipe_regs.if_id ≡ empty_if_id
  pub no_decoded : d.pipe_regs.id_ex ≡ empty_id_ex
  pub still_executing : d.pipe_regs.ex_mem ≡ c.pipe_regs.ex_mem
  pub still_retiring : d.pipe_regs.mem_wb ≡ c.pipe_regs.mem_wb

abbrev interrupted : ℕ → CpuCore → CpuCore
interrupted cause c =
    let f = interrupt_to_m c.pc cause c.reg_file in
    record c {
      reg_file = f;
      pc = read_csr f (addr_of mtvec_csr);
      pipe_regs = flush c.pipe_regs;
      stats = record (c.stats) { interrupt_flushes = count c.stats.interrupt_flushes };
    }

take_interrupt-interrupted :
    (cause : ℕ) (c : CpuCore)
    → interrupt_delegated c.reg_file cause ≡ false
    → c.reg_file.privilege ≡ prv_m
    → take_interrupt cause c ≡ interrupted cause c
unfolding take_interrupt
take_interrupt-interrupted cause c h l = rw (h, l) refl

-- An interrupt that is not delegated and is taken in M-mode saves the program counter of the fetch
-- stage, the cause, the M-mode interrupt enable and the privilege level, disables the M-mode
-- interrupts, goes to `mtvec`, empties IF_ID and ID_EX, and leaves the general registers, EX_MEM and
-- MEM_WB alone.
pub take_interrupt-TakenInM :
    (cause : ℕ) (c : CpuCore)
    → interrupt_delegated c.reg_file cause ≡ false
    → c.reg_file.privilege ≡ prv_m
    → TakenInM cause c (take_interrupt cause c)
unfolding interrupt_to_m read_csr write_csr set_privilege flush
take_interrupt-TakenInM cause c h l =
    let m = c.reg_file.mstatus in
    let prv = c.reg_file.privilege in
    let bits = mstatus_on_trap-bits m prv (omega arith) in
    rw (take_interrupt-interrupted cause c h l) (record {
      epc = refl;
      reason = refl;
      level = refl;
      vector = refl;
      disabled = rw (has_bits-bit 3 (mstatus_on_trap m prv), bits.0) refl;
      saved_enable = rw (has_bits-bit 7 (mstatus_on_trap m prv), bits.1, has_bits-bit 3 m) refl;
      saved_level = rw (mpp_field (mstatus_on_trap m prv)) (omega (arith, bits));
      same_gpr = refl;
      no_fetched = refl;
      no_decoded = refl;
      still_executing = refl;
      still_retiring = refl;
    })
