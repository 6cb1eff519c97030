-- ===== src/CpuCore/Trap/Return.antt =====
-- MRET and SRET in `CPUCore::execute` of src/CPUCore.cpp.
use simple_rv.Prelude.{
  ℕ, ◌<◌, ◌≡◌, refl, arith, ◌∙◌, ap, ap₂, Bool, ◌==◌, if◌then◌else◌, has_bits, bit_and, ◌>>◌,
}
use simple_rv.Prelude.Bits.{has_bits-bit, merge}
use simple_rv.Types.{
  mstatus_sie, mstatus_mie, mstatus_spie, mstatus_mpie, mstatus_spp, mstatus_mpp, sstatus_mask,
  prv_s, prv_u,
}
use simple_rv.RegisterFile.{read_csr, write_csr, set_privilege}
use simple_rv.CpuCore.State.{CpuCore}
use simple_rv.CpuCore.Trap.{handle_trap}
use simple_rv.CpuCore.Execute.{return_from_m, return_from_s, mstatus_on_mret, sstatus_on_sret}
use simple_rv.CpuCore.Trap.Laws.{ToM, ToS, handle_trap-EntersM, handle_trap-EntersS}
use simple_rv.CpuCore.Trap.Status.{mstatus_on_mret-bits, sstatus_on_sret-bits, sstatus_view-bits}

-- The program counter, the privilege level and the interrupt enable of a level.
pub record Context : Type 0 where
  pub pc : ℕ
  pub privilege : ℕ
  pub enabled : Bool

abbrev pub m_context : CpuCore → Context
m_context c = record {
  pc = c.pc;
  privilege = c.reg_file.privilege;
  enabled = has_bits c.reg_file.mstatus mstatus_mie;
}

abbrev pub s_context : CpuCore → Context
s_context c = record {
  pc = c.pc;
  privilege = c.reg_file.privilege;
  enabled = has_bits c.reg_file.mstatus mstatus_sie;
}

-- MRET takes the context from `mepc`, MPP and MPIE.
pub return_from_m-context :
    (c : CpuCore)
    → m_context (return_from_m c) ≡ record {
      pc = c.reg_file.mepc;
      privilege = bit_and c.reg_file.mstatus mstatus_mpp >> 11;
      enabled = has_bits c.reg_file.mstatus mstatus_mpie;
    }
unfolding return_from_m read_csr write_csr set_privilege
return_from_m-context c =
    let m = c.reg_file.mstatus in
    let same : has_bits (mstatus_on_mret m) mstatus_mie ≡ has_bits m mstatus_mpie =
      rw (has_bits-bit 3 (mstatus_on_mret m), (mstatus_on_mret-bits m).0, has_bits-bit 7 m) refl in
    ap (λ b. record { pc = c.reg_file.mepc; privilege = bit_and m mstatus_mpp >> 11; enabled = b })
      same

-- SRET takes the context from `sepc`, SPP and SPIE.
pub return_from_s-context :
    (c : CpuCore)
    → s_context (return_from_s c) ≡ record {
      pc = c.reg_file.sepc;
      privilege = if has_bits c.reg_file.mstatus mstatus_spp then prv_s else prv_u;
      enabled = has_bits c.reg_file.mstatus mstatus_spie;
    }
unfolding return_from_s read_csr write_csr set_privilege
return_from_s-context c =
    let m = c.reg_file.mstatus in
    let v = bit_and m sstatus_mask in
    let view = sstatus_view-bits m m in
    let kept = sstatus_view-bits m (sstatus_on_sret v) in
    let bits = sstatus_on_sret-bits v in
    let same_enable : has_bits (merge m (sstatus_on_sret v) sstatus_mask) mstatus_sie
        ≡ has_bits m mstatus_spie =
      rw
        (
          has_bits-bit 1 (merge m (sstatus_on_sret v) sstatus_mask),
          kept.0,
          bits.0,
          view.4,
          has_bits-bit 5 m,
        )
        refl in
    let same_level : has_bits v mstatus_spp ≡ has_bits m mstatus_spp =
      rw (has_bits-bit 8 v, view.5, has_bits-bit 8 m) refl in
    ap₂
      (λ b l. record { pc = c.reg_file.sepc; privilege = if l then prv_s else prv_u; enabled = b })
      same_enable same_level

-- A trap into M-mode followed by MRET gives back the privilege level and the M-mode interrupt
-- enable of before, for a level below 4, and goes on at the saved program counter.
pub return_from_m-handle_trap :
    (fault_pc cause tval : ℕ) (c : CpuCore)
    → ToM cause c.reg_file
    → c.reg_file.privilege < 4
    → m_context (return_from_m (handle_trap fault_pc cause tval c))
      ≡ m_context (record c { pc = fault_pc })
return_from_m-handle_trap fault_pc cause tval c h p =
    let e = handle_trap-EntersM fault_pc cause tval c h p in
    return_from_m-context (handle_trap fault_pc cause tval c) ∙ λ i. record {
      pc = e.epc i;
      privilege = e.saved_level i;
      enabled = e.saved_enable i;
    }

-- A delegated trap into S-mode, from S-mode or U-mode, followed by SRET gives back the privilege
-- level and the S-mode interrupt enable of before and goes on at the saved program counter.
pub return_from_s-handle_trap :
    (fault_pc cause tval : ℕ) (c : CpuCore)
    → ToS cause c.reg_file
    → s_context (return_from_s (handle_trap fault_pc cause tval c))
      ≡ s_context (record c { pc = fault_pc })
return_from_s-handle_trap fault_pc cause tval c h =
    let e = handle_trap-EntersS fault_pc cause tval c h in
    return_from_s-context (handle_trap fault_pc cause tval c) ∙ λ i. record {
      pc = e.epc i;
      privilege =
          (ap (λ b. if b then prv_s else prv_u) e.saved_level ∙ level c.reg_file.privilege h.1) i;
      enabled = e.saved_enable i;
    }
  where
    level : (prv : ℕ) → prv < 2 → (if prv == prv_s then prv_s else prv_u) ≡ prv
    level prv h = ground arith
