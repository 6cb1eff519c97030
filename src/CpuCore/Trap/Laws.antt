-- ===== src/CpuCore/Trap/Laws.antt =====
-- `CPUCore::handleTrap` of src/CPUCore.cpp on both of its branches.
use simple_rv.Prelude.{
  ℕ, ◌<◌, ◌≡◌, ◌⊎◌, refl, arith, ap, true, false, ◌&&◌, not, ◌==◌, if◌then◌else◌, has_bits, bit_and,
  ◌>>◌,
}
use simple_rv.Prelude.Bits.{has_bits-bit, merge, bit_and-merge_other}
use simple_rv.Types.{
  mstatus_sie, mstatus_mie, mstatus_spie, mstatus_mpie, mstatus_spp, mstatus_mpp, sstatus_mask,
  prv_m, prv_s, empty_if_id, empty_id_ex,
}
use simple_rv.RegisterFile.{RegisterFile, read_csr, write_csr, set_privilege, exception_delegated}
use simple_rv.RegisterFile.Address.{addr_of, mtvec_csr, stvec_csr}
use simple_rv.PipelineRegisters.{flush}
use simple_rv.CpuCore.State.{CpuCore, drop_ex_mem}
use simple_rv.CpuCore.Trap.{handle_trap, trap_to_m, trap_to_s, mstatus_on_trap, sstatus_on_trap}
use simple_rv.CpuCore.Trap.Status.{
  mpp_field, mstatus_on_trap-bits, sstatus_on_trap-bits, sstatus_view-bits,
}

-- The trap is taken in M-mode.
abbrev pub ToM : ℕ → RegisterFile → Type 0
ToM cause f = (exception_delegated f cause ≡ false) ⊎ (f.privilege ≡ prv_m)

abbrev pub ToS : ℕ → RegisterFile → Type 0
ToS cause f = (exception_delegated f cause ≡ true) × (f.privilege < 2)

-- What M-mode finds on entry.
pub record EntersM (fault_pc cause tval : ℕ) (c d : CpuCore) : Type 0 where
  pub epc : d.reg_file.mepc ≡ fault_pc
  pub reason : d.reg_file.mcause ≡ cause
  pub value : d.reg_file.mtval ≡ tval
  pub level : d.reg_file.privilege ≡ prv_m
  pub vector : d.pc ≡ c.reg_file.mtvec
  pub disabled : has_bits d.reg_file.mstatus mstatus_mie ≡ false
  pub saved_enable :
      has_bits d.reg_file.mstatus mstatus_mpie ≡ has_bits c.reg_file.mstatus mstatus_mie
  pub saved_level : bit_and d.reg_file.mstatus mstatus_mpp >> 11 ≡ c.reg_file.privilege
  pub same_gpr : d.reg_file.gpr ≡ c.reg_file.gpr
  pub no_fetched : d.pipe_regs.if_id ≡ empty_if_id
  pub no_decoded : d.pipe_regs.id_ex ≡ empty_id_ex
  pub no_executed0 : d.pipe_regs.ex_mem.slots.lane0.valid ≡ false
  pub no_executed1 : d.pipe_regs.ex_mem.slots.lane1.valid ≡ false
  pub still_retiring : d.pipe_regs.mem_wb ≡ c.pipe_regs.mem_wb

-- The two outcomes of `handle_trap`.
abbrev emptied : CpuCore → RegisterFile → ℕ → CpuCore
emptied c f pc = record c { reg_file = f; pc = pc; pipe_regs = drop_ex_mem (flush c.pipe_regs) }

abbrev in_m : ℕ → ℕ → ℕ → CpuCore → CpuCore
in_m fault_pc cause tval c =
    let f = trap_to_m fault_pc cause tval c.reg_file in emptied c f (read_csr f (addr_of mtvec_csr))

abbrev in_s : ℕ → ℕ → ℕ → CpuCore → CpuCore
in_s fault_pc cause tval c =
    let f = trap_to_s fault_pc cause tval c.reg_file in emptied c f (read_csr f (addr_of stvec_csr))

handle_trap-in_m :
    (fault_pc cause tval : ℕ) (c : CpuCore)
    → ToM cause c.reg_file
    → handle_trap fault_pc cause tval c ≡ in_m fault_pc cause tval c
unfolding handle_trap
handle_trap-in_m fault_pc cause tval c h =
    let stays : (exception_delegated c.reg_file cause && not (c.reg_file.privilege == prv_m))
        ≡ false =
      ground arith in
    ap (λ b. if b then in_s fault_pc cause tval c else in_m fault_pc cause tval c) stays

handle_trap-in_s :
    (fault_pc cause tval : ℕ) (c : CpuCore)
    → ToS cause c.reg_file
    → handle_trap fault_pc cause tval c ≡ in_s fault_pc cause tval c
unfolding handle_trap
handle_trap-in_s fault_pc cause tval c h =
    let goes : (exception_delegated c.reg_file cause && not (c.reg_file.privilege == prv_m))
        ≡ true =
      ground arith in
    ap (λ b. if b then in_s fault_pc cause tval c else in_m fault_pc cause tval c) goes

-- A trap that is not delegated, or that is raised in M-mode, saves the program counter, the cause,
-- the value, the M-mode interrupt enable and the privilege level (one below 4), disables the M-mode
-- interrupts, goes to `mtvec` in M-mode, keeps the general registers and MEM_WB, and empties every
-- other latch.
pub handle_trap-EntersM :
    (fault_pc cause tval : ℕ) (c : CpuCore)
    → ToM cause c.reg_file
    → c.reg_file.privilege < 4
    → EntersM fault_pc cause tval c (handle_trap fault_pc cause tval c)
unfolding trap_to_m read_csr write_csr set_privilege flush
handle_trap-EntersM fault_pc cause tval c h p =
    let m = c.reg_file.mstatus in
    let bits = mstatus_on_trap-bits m c.reg_file.privilege p in
    rw (handle_trap-in_m fault_pc cause tval c h) (record {
      epc = refl;
      reason = refl;
      value = refl;
      level = refl;
      vector = refl;
      disabled = rw (has_bits-bit 3 (mstatus_on_trap m c.reg_file.privilege), bits.0) refl;
      saved_enable =
          rw (has_bits-bit 7 (mstatus_on_trap m c.reg_file.privilege), bits.1, has_bits-bit 3 m)
            refl;
      saved_level = rw (mpp_field (mstatus_on_trap m c.reg_file.privilege)) (omega (arith, bits));
      same_gpr = refl;
      no_fetched = refl;
      no_decoded = refl;
      no_executed0 = refl;
      no_executed1 = refl;
      still_retiring = refl;
    })

-- What S-mode finds on entry.
pub record EntersS (fault_pc cause tval : ℕ) (c d : CpuCore) : Type 0 where
  pub epc : d.reg_file.sepc ≡ fault_pc
  pub reason : d.reg_file.scause ≡ cause
  pub value : d.reg_file.stval ≡ tval
  pub level : d.reg_file.privilege ≡ prv_s
  pub vector : d.pc ≡ c.reg_file.stvec
  pub disabled : has_bits d.reg_file.mstatus mstatus_sie ≡ false
  pub saved_enable :
      has_bits d.reg_file.mstatus mstatus_spie ≡ has_bits c.reg_file.mstatus mstatus_sie
  pub saved_level : has_bits d.reg_file.mstatus mstatus_spp ≡ (c.reg_file.privilege == prv_s)
  pub m_state_kept :
      (d.reg_file.mepc ≡ c.reg_file.mepc)
      × (d.reg_file.mcause ≡ c.reg_file.mcause)
      × (d.reg_file.mtval ≡ c.reg_file.mtval)
      × (has_bits d.reg_file.mstatus mstatus_mie ≡ has_bits c.reg_file.mstatus mstatus_mie)
  pub same_gpr : d.reg_file.gpr ≡ c.reg_file.gpr
  pub no_fetched : d.pipe_regs.if_id ≡ empty_if_id
  pub no_decoded : d.pipe_regs.id_ex ≡ empty_id_ex

-- A delegated exception of S-mode or U-mode saves the program counter, the cause, the value, the
-- S-mode interrupt enable and the privilege level in the S-mode registers, disables the S-mode
-- interrupts, goes to `stvec` in S-mode, empties IF_ID and ID_EX, and leaves the general registers,
-- the M-mode trap registers and the M-mode interrupt enable alone.
pub handle_trap-EntersS :
    (fault_pc cause tval : ℕ) (c : CpuCore)
    → ToS cause c.reg_file
    → EntersS fault_pc cause tval c (handle_trap fault_pc cause tval c)
unfolding trap_to_s read_csr write_csr set_privilege flush
handle_trap-EntersS fault_pc cause tval c h =
    let m = c.reg_file.mstatus in
    let prv = c.reg_file.privilege in
    let new = sstatus_on_trap (bit_and m sstatus_mask) prv in
    let bits = sstatus_on_trap-bits (bit_and m sstatus_mask) prv (omega arith) in
    let view = sstatus_view-bits m m in
    let kept = sstatus_view-bits m new in
    rw (handle_trap-in_s fault_pc cause tval c h) (record {
      epc = refl;
      reason = refl;
      value = refl;
      level = refl;
      vector = refl;
      disabled = rw (has_bits-bit 1 (merge m new sstatus_mask), kept.0, bits.0) refl;
      saved_enable =
          rw (has_bits-bit 5 (merge m new sstatus_mask), kept.1, bits.1, view.3, has_bits-bit 1 m)
            refl;
      saved_level = rw (has_bits-bit 8 (merge m new sstatus_mask), kept.2, bits.2) (ground arith);
      m_state_kept = (
        refl,
        refl,
        refl,
        ap (λ t. not (t == 0))
            (bit_and-merge_other m new sstatus_mask mstatus_mie (omega arith) (omega arith) refl),
      );
      same_gpr = refl;
      no_fetched = refl;
      no_decoded = refl;
    })
