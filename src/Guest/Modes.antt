-- ===== src/Guest/Modes.antt =====
-- Resource/CProgram/mode_test.c: the handler of calls from S-mode, as accesses to control
-- registers.
use simple_rv.Prelude.{ℕ, ◌+◌, ◌≡◌, refl, ◌∙◌, arith, u32, true, ◌==◌, bit_and, if◌then◌else◌}
use simple_rv.Types.{PipelineSlot, prv_s, mcause_ecall_s}
use simple_rv.RegisterFile.{
  RegisterFile, read_csr, write_csr, read_register, write_register, set_privilege,
  exception_delegated,
}
use simple_rv.RegisterFile.Address.{csr_of}
use simple_rv.CpuCore.State.{CpuCore}
use simple_rv.CpuCore.Trap.{handle_trap}
use simple_rv.CpuCore.Trap.Laws.{handle_trap-EntersS}
use simple_rv.CpuCore.Execute.{handle_slot_trap, return_from_s, ecall_cause}

-- The handler up to its `sret`: after a call from S-mode it adds 4 to `sepc`.
unfoldable pub s_trap_entry : RegisterFile → RegisterFile
s_trap_entry f =
    let sepc = read_csr f 0x141 in
    if bit_and (read_csr f 0x142) 0x7FFFFFFF == 9 then write_csr 0x141 (u32 (sepc + 4)) f else f

-- The handler and its `sret` after a call from S-mode.
handled :
    (c : CpuCore) (f : RegisterFile)
    → f.scause ≡ mcause_ecall_s
    → (return_from_s (record c { reg_file = s_trap_entry f })).pc ≡ u32 (f.sepc + 4)
unfolding return_from_s s_trap_entry read_csr write_csr read_register write_register set_privilege
    csr_of
handled c f e = let call : (bit_and f.scause 0x7FFFFFFF == 9) ≡ true = rw e refl in rw call refl

-- A call from S-mode that is delegated goes to the address in stvec, in S-mode, and after
-- `s_trap_entry` and its SRET the program goes on eight bytes behind the address of the call, not
-- four: the simulator and the handler both step over it.
pub ecall-s_trap_entry :
    (slot : PipelineSlot) (slot_pc : ℕ) (c : CpuCore)
    → slot.d.is_ecall ≡ true
    → c.reg_file.privilege ≡ prv_s
    → exception_delegated c.reg_file mcause_ecall_s ≡ true
    → (let t = handle_slot_trap slot slot_pc c in
        (t.pc ≡ c.reg_file.stvec)
        × (t.reg_file.privilege ≡ prv_s)
        × ((return_from_s (record t { reg_file = s_trap_entry t.reg_file })).pc
            ≡ u32 (slot_pc + 8)))
unfolding handle_slot_trap
ecall-s_trap_entry slot slot_pc c e l d =
    let t = handle_trap (u32 (slot_pc + 4)) mcause_ecall_s 0 c in
    let s = handle_trap-EntersS (u32 (slot_pc + 4)) mcause_ecall_s 0 c (d, omega (arith, l)) in
    let level : ecall_cause c.reg_file.privilege ≡ mcause_ecall_s = rw l refl in
    rw (e, level) (s.vector, s.level, handled t t.reg_file s.reason ∙ omega (arith, s.epc))
