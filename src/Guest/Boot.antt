-- ===== src/Guest/Boot.antt =====
-- The control registers that `_start` of Resource/CProgram/main.c sets up, and the timer interrupt
-- that the simulator then takes.
use simple_rv.Prelude.{ℕ, ◌≡◌, refl, true, bit_or}
use simple_rv.Types.{prv_m, mcause_timer_int}
use simple_rv.RegisterFile.{
  RegisterFile, read_csr, write_csr, read_register, write_register, hw_set_mtip, set_privilege,
  interrupt_delegated,
}
use simple_rv.RegisterFile.Address.{csr_of}
use simple_rv.PipelineRegisters.{flush}
use simple_rv.CpuCore.State.{CpuCore}
use simple_rv.CpuCore.Trap.{
  check_and_handle_interrupts, scan_interrupts, take_interrupt, interrupt_to_m, global_ie, ie_val,
  ip_val,
}

-- `csrw 0x305, isr_addr; csrs 0x304, 0x80; csrsi 0x300, 0x08`.
unfoldable pub boot : ℕ → RegisterFile → RegisterFile
boot isr_addr f =
    let f1 = write_csr 0x305 isr_addr f in
    let f2 = write_csr 0x304 (bit_or (read_csr f1 0x304) 0x80) f1 in
    write_csr 0x300 (bit_or (read_csr f2 0x300) 0x08) f2

-- The registers that `boot` builds on, as the reset leaves them.
pub record IsReset (f : RegisterFile) : Type 0 where
  pub machine : f.privilege ≡ prv_m
  pub mstatus_clear : f.mstatus ≡ 0
  pub mie_clear : f.mie ≡ 0
  pub mip_clear : f.mip ≡ 0
  pub mideleg_clear : f.mideleg ≡ 0

-- Once `_start` has set up the control registers after a reset, a core with the timer interrupt
-- pending goes to the handler in M-mode with the timer's cause, and keeps its pc in mepc.
pub boot-interrupt :
    (isr_addr : ℕ) (f : RegisterFile) (c : CpuCore)
    → IsReset f
    → (let d =
          check_and_handle_interrupts
            (record c { reg_file = hw_set_mtip true (boot isr_addr f) }) in
        (d.pc ≡ isr_addr)
        × (d.reg_file.mcause ≡ mcause_timer_int)
        × (d.reg_file.mepc ≡ c.pc)
        × (d.reg_file.privilege ≡ prv_m))
unfolding check_and_handle_interrupts scan_interrupts take_interrupt interrupt_to_m global_ie ie_val
    ip_val boot read_csr write_csr read_register write_register hw_set_mtip set_privilege
    interrupt_delegated csr_of flush
boot-interrupt isr_addr f c h =
    rw (h.machine, h.mstatus_clear, h.mie_clear, h.mip_clear, h.mideleg_clear)
      (refl, refl, refl, refl)
