-- ===== src/CpuCore/Trap.antt =====
-- `handleTrap` and `checkAndHandleInterrupts` of src/CPUCore.cpp.
pub mod Status
pub mod Laws
pub mod Return
use simple_rv.Prelude.{
  ℕ, ◌<<◌, Bool, true, false, ◌&&◌, ◌||◌, not, ◌==◌, if◌then◌else◌, bit_and, bit_or, complement,
  has_bits, List, [], ◌∷◌,
}
use simple_rv.Types.{
  mstatus_sie, mstatus_mie, mstatus_spie, mstatus_mpie, mstatus_spp, mstatus_mpp, prv_m, prv_s,
  mcause_mei_int, mcause_msi_int, mcause_timer_int, mcause_sei_int, mcause_ssi_int, mcause_sti_int,
  mip_meip, mip_msip, mip_mtip, mip_seip, mip_ssip, mip_stip, count,
}
use simple_rv.RegisterFile.{
  RegisterFile, read_csr, write_csr, set_privilege, interrupt_delegated, exception_delegated,
}
use simple_rv.RegisterFile.Address.{
  addr_of, mstatus_csr, mie_csr, mip_csr, mepc_csr, mcause_csr, mtval_csr, mtvec_csr, sstatus_csr,
  sie_csr, sip_csr, sepc_csr, scause_csr, stval_csr, stvec_csr,
}
use simple_rv.PipelineRegisters.{flush}
use simple_rv.CpuCore.State.{CpuCore, drop_ex_mem}

-- The status word on entry to S-mode: SPIE takes SIE, SIE is cleared, SPP takes the privilege.
unfoldable pub sstatus_on_trap : ℕ → ℕ → ℕ
sstatus_on_trap sstatus prv =
    let cleared = bit_and sstatus (complement mstatus_sie) in
    let kept =
      if has_bits sstatus mstatus_sie
      then bit_or cleared mstatus_spie
      else bit_and cleared (complement mstatus_spie) in
    bit_or (bit_and kept (complement mstatus_spp)) (prv << 8)

-- The same for M-mode: MPIE, MIE and MPP.
unfoldable pub mstatus_on_trap : ℕ → ℕ → ℕ
mstatus_on_trap mstatus prv =
    let cleared = bit_and mstatus (complement mstatus_mie) in
    let kept =
      bit_or (bit_and cleared (complement mstatus_mpie))
        (if has_bits mstatus mstatus_mie then mstatus_mpie else 0) in
    bit_or (bit_and kept (complement mstatus_mpp)) (prv << 11)

unfoldable pub trap_to_s : ℕ → ℕ → ℕ → RegisterFile → RegisterFile
trap_to_s fault_pc cause tval f =
    let sstatus = sstatus_on_trap (read_csr f (addr_of sstatus_csr)) f.privilege in
    set_privilege prv_s (
      write_csr (addr_of stval_csr) tval (
        write_csr (addr_of scause_csr) cause
          (write_csr (addr_of sepc_csr) fault_pc (write_csr (addr_of sstatus_csr) sstatus f))))

unfoldable pub trap_to_m : ℕ → ℕ → ℕ → RegisterFile → RegisterFile
trap_to_m fault_pc cause tval f =
    let mstatus = mstatus_on_trap (read_csr f (addr_of mstatus_csr)) f.privilege in
    set_privilege prv_m (
      write_csr (addr_of mtval_csr) tval (
        write_csr (addr_of mcause_csr) cause
          (write_csr (addr_of mepc_csr) fault_pc (write_csr (addr_of mstatus_csr) mstatus f))))

unfoldable pub handle_trap : ℕ → ℕ → ℕ → CpuCore → CpuCore
handle_trap fault_pc cause tval c =
    let to_s = trap_to_s fault_pc cause tval c.reg_file in
    let to_m = trap_to_m fault_pc cause tval c.reg_file in
    let pipe_regs = drop_ex_mem (flush c.pipe_regs) in
    if exception_delegated c.reg_file cause && not (c.reg_file.privilege == prv_m)
    then record c { reg_file = to_s; pc = read_csr to_s (addr_of stvec_csr); pipe_regs = pipe_regs }
    else record c { reg_file = to_m; pc = read_csr to_m (addr_of mtvec_csr); pipe_regs = pipe_regs }

-- The mask is the same in MIE and in MIP.
pub record Interrupt : Type 0 where
  pub cause : ℕ
  pub mask : ℕ

abbrev pub interrupts : List Interrupt
interrupts =
    record { cause = mcause_mei_int; mask = mip_meip }
    ∷ record { cause = mcause_msi_int; mask = mip_msip }
    ∷ record { cause = mcause_timer_int; mask = mip_mtip }
    ∷ record { cause = mcause_sei_int; mask = mip_seip }
    ∷ record { cause = mcause_ssi_int; mask = mip_ssip }
    ∷ record { cause = mcause_sti_int; mask = mip_stip }
    ∷ []

unfoldable pub interrupt_to_s : ℕ → ℕ → RegisterFile → RegisterFile
interrupt_to_s pc cause f =
    let sstatus = sstatus_on_trap (read_csr f (addr_of sstatus_csr)) f.privilege in
    set_privilege prv_s (
      write_csr (addr_of scause_csr) cause
        (write_csr (addr_of sepc_csr) pc (write_csr (addr_of sstatus_csr) sstatus f)))

unfoldable pub interrupt_to_m : ℕ → ℕ → RegisterFile → RegisterFile
interrupt_to_m pc cause f =
    let mstatus = mstatus_on_trap (read_csr f (addr_of mstatus_csr)) f.privilege in
    set_privilege prv_m (
      write_csr (addr_of mcause_csr) cause
        (write_csr (addr_of mepc_csr) pc (write_csr (addr_of mstatus_csr) mstatus f)))

-- The body of the loop for an interrupt that is enabled and pending.
unfoldable pub take_interrupt : ℕ → CpuCore → CpuCore
take_interrupt cause c =
    let to_s = interrupt_to_s c.pc cause c.reg_file in
    let to_m = interrupt_to_m c.pc cause c.reg_file in
    let stats = record (c.stats) { interrupt_flushes = count c.stats.interrupt_flushes } in
    if interrupt_delegated c.reg_file cause || not (c.reg_file.privilege == prv_m)
    then record c {
      reg_file = to_s;
      pc = read_csr to_s (addr_of stvec_csr);
      pipe_regs = flush c.pipe_regs;
      stats = stats;
    }
    else record c {
      reg_file = to_m;
      pc = read_csr to_m (addr_of mtvec_csr);
      pipe_regs = flush c.pipe_regs;
      stats = stats;
    }

-- The first interrupt of the list that is enabled in `ie` and pending in `ip` is taken.
unfoldable pub scan_interrupts : List Interrupt → ℕ → ℕ → CpuCore → CpuCore
scan_interrupts [] ie ip c = c
scan_interrupts (i ∷ is) ie ip c =
    let rest = scan_interrupts is ie ip c in
    if has_bits ie i.mask && has_bits ip i.mask then take_interrupt i.cause c else rest

-- The global enable of the current privilege level.
unfoldable pub global_ie : RegisterFile → Bool
global_ie f =
    let mstatus = read_csr f (addr_of mstatus_csr) in
    if f.privilege == prv_m then has_bits mstatus mstatus_mie else has_bits mstatus mstatus_sie

-- The enabled and the pending interrupts that the level looks at.
unfoldable pub ie_val : RegisterFile → ℕ
ie_val f =
    if f.privilege == prv_m then read_csr f (addr_of mie_csr) else read_csr f (addr_of sie_csr)

unfoldable pub ip_val : RegisterFile → ℕ
ip_val f =
    if f.privilege == prv_m then read_csr f (addr_of mip_csr) else read_csr f (addr_of sip_csr)

unfoldable pub check_and_handle_interrupts : CpuCore → CpuCore
check_and_handle_interrupts c =
    if global_ie c.reg_file
    then scan_interrupts interrupts (ie_val c.reg_file) (ip_val c.reg_file) c
    else c
