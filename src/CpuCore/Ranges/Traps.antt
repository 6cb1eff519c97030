-- ===== src/CpuCore/Ranges/Traps.antt =====
-- `handleTrap`, MRET and SRET of src/CPUCore.cpp keep the ranges of the core's fields.
use simple_rv.Prelude.{ℕ, IsWord, ◌&&◌, not, ◌==◌, if_split}
use simple_rv.Types.{prv_m, prv_s}
use simple_rv.RegisterFile.{RegisterFile, read_csr, exception_delegated}
use simple_rv.RegisterFile.Address.{
  addr_of, mstatus_csr, mepc_csr, mcause_csr, mtval_csr, mtvec_csr, sstatus_csr, sepc_csr,
  scause_csr, stval_csr, stvec_csr,
}
use simple_rv.RegisterFile.Valid.{
  IsValid, read_csr-IsWord, write_csr-IsValid, set_privilege-IsValid,
}
use simple_rv.PipelineRegisters.{flush}
use simple_rv.CpuCore.State.{CpuCore, drop_ex_mem}
use simple_rv.CpuCore.Trap.{trap_to_s, trap_to_m, handle_trap}
use simple_rv.CpuCore.Execute.{return_from_m, return_from_s}
use simple_rv.CpuCore.Ranges.{IsRanged, dropped-IsRangedLatches}
use simple_rv.CpuCore.Ranges.Values.{
  sstatus_on_trap-IsWord, mstatus_on_trap-IsWord, mstatus_on_mret-IsWord, sstatus_on_sret-IsWord,
}

trap_to_s-IsValid :
    (fault_pc cause tval : ℕ) (f : RegisterFile)
    → IsWord fault_pc
    → IsWord cause
    → IsWord tval
    → IsValid f
    → IsValid (trap_to_s fault_pc cause tval f)
unfolding trap_to_s
trap_to_s-IsValid fault_pc cause tval f p q r h = set_privilege-IsValid prv_s _ (
    write_csr-IsValid (addr_of stval_csr) tval _ r (
      write_csr-IsValid (addr_of scause_csr) cause _ q (
        write_csr-IsValid (addr_of sepc_csr) fault_pc _ p
          (write_csr-IsValid (addr_of sstatus_csr) _ f (sstatus_on_trap-IsWord _ f.privilege) h))))

trap_to_m-IsValid :
    (fault_pc cause tval : ℕ) (f : RegisterFile)
    → IsWord fault_pc
    → IsWord cause
    → IsWord tval
    → IsValid f
    → IsValid (trap_to_m fault_pc cause tval f)
unfolding trap_to_m
trap_to_m-IsValid fault_pc cause tval f p q r h = set_privilege-IsValid prv_m _ (
    write_csr-IsValid (addr_of mtval_csr) tval _ r (
      write_csr-IsValid (addr_of mcause_csr) cause _ q (
        write_csr-IsValid (addr_of mepc_csr) fault_pc _ p
          (write_csr-IsValid (addr_of mstatus_csr) _ f (mstatus_on_trap-IsWord _ f.privilege) h))))

pub handle_trap-IsRanged :
    (fault_pc cause tval : ℕ) (c : CpuCore)
    → IsWord fault_pc
    → IsWord cause
    → IsWord tval
    → IsRanged c
    → IsRanged (handle_trap fault_pc cause tval c)
unfolding handle_trap
handle_trap-IsRanged fault_pc cause tval c p q r h =
    let latches = dropped-IsRangedLatches c.pipe_regs h.latches in
    let to_s = trap_to_s-IsValid fault_pc cause tval c.reg_file p q r h.registers in
    let to_m = trap_to_m-IsValid fault_pc cause tval c.reg_file p q r h.registers in
    if_split IsRanged (exception_delegated c.reg_file cause && not (c.reg_file.privilege == prv_m))
      (λ _. record {
        latches = latches;
        registers = to_s;
        host = h.host;
        pc = read_csr-IsWord (addr_of stvec_csr) _ to_s;
      })
      (λ _. record {
        latches = latches;
        registers = to_m;
        host = h.host;
        pc = read_csr-IsWord (addr_of mtvec_csr) _ to_m;
      })

-- A core with another register file and pc, after a return from a trap.
returned-IsRanged :
    (f : RegisterFile) (csr : ℕ) (c : CpuCore)
    → IsValid f
    → IsRanged c
    → IsRanged (record c {
      reg_file = f;
      pc = read_csr f csr;
      pipe_regs = drop_ex_mem (flush c.pipe_regs);
    })
returned-IsRanged f csr c v h = record {
  latches = dropped-IsRangedLatches c.pipe_regs h.latches;
  registers = v;
  host = h.host;
  pc = read_csr-IsWord csr f v;
}

pub return_from_m-IsRanged : (c : CpuCore) → IsRanged c → IsRanged (return_from_m c)
unfolding return_from_m
return_from_m-IsRanged c h =
    returned-IsRanged _ (addr_of mepc_csr) c
      (set_privilege-IsValid _ _ (
        write_csr-IsValid (addr_of mstatus_csr) _ c.reg_file (mstatus_on_mret-IsWord _)
          h.registers))
      h

pub return_from_s-IsRanged : (c : CpuCore) → IsRanged c → IsRanged (return_from_s c)
unfolding return_from_s
return_from_s-IsRanged c h =
    returned-IsRanged _ (addr_of sepc_csr) c
      (set_privilege-IsValid _ _ (
        write_csr-IsValid (addr_of sstatus_csr) _ c.reg_file (sstatus_on_sret-IsWord _)
          h.registers))
      h
