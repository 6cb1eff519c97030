-- ===== src/CpuCore/Front.antt =====
-- IF_ID, ID_EX and the pc through the stages of `CPUCore::tick` (src/CPUCore.cpp) that leave them
-- alone or flush them: the interrupts, `writeBack` and `execute`.
use simple_rv.Prelude.{◌||◌, ◌&&◌, not, if_split, ◌==◌, has_bits, List, [], ◌∷◌, ℕ}
use simple_rv.Types.{IfIdBuffer, IdExBuffer, empty_if_id, empty_id_ex, PipelineSlot, prv_m}
use simple_rv.RegisterFile.{interrupt_delegated, exception_delegated}
use simple_rv.PipelineRegisters.{flush}
use simple_rv.CpuCore.{begin_cycle}
use simple_rv.CpuCore.State.{CpuCore}
use simple_rv.CpuCore.WriteBack.{ebreak, write_back_slot, write_back}
use simple_rv.CpuCore.Trap.{
  handle_trap, take_interrupt, scan_interrupts, interrupts, global_ie, ie_val, ip_val,
  check_and_handle_interrupts, Interrupt,
}
use simple_rv.CpuCore.Execute.{
  execute_and_commit, resolve_branch, return_from_m, return_from_s, handle_slot_trap, trapped,
  handle_slot_traps, execute,
}

-- A property of the front latches and the pc that holds of empty latches.
module _ (Q : IfIdBuffer → IdExBuffer → ℕ → Type 0)
    (empty : (pc : ℕ) → Q empty_if_id empty_id_ex pc) where
  abbrev Front : CpuCore → Type 0
  Front c = Q c.pipe_regs.if_id c.pipe_regs.id_ex c.pc

  pub handle_trap-Front :
      (fault_pc cause tval : ℕ) (c : CpuCore) → Front (handle_trap fault_pc cause tval c)
  unfolding handle_trap flush
  handle_trap-Front fault_pc cause tval c =
      if_split Front (exception_delegated c.reg_file cause && not (c.reg_file.privilege == prv_m))
        (λ _. empty _) (λ _. empty _)

  take_interrupt-Front : (cause : ℕ) (c : CpuCore) → Front (take_interrupt cause c)
  unfolding take_interrupt flush
  take_interrupt-Front cause c =
      if_split Front (interrupt_delegated c.reg_file cause || not (c.reg_file.privilege == prv_m))
        (λ _. empty _) (λ _. empty _)

  scan_interrupts-Front :
      (is : List Interrupt) (ie ip : ℕ) (c : CpuCore) → Front c → Front (scan_interrupts is ie ip c)
  unfolding scan_interrupts
  scan_interrupts-Front [] ie ip c h = h
  scan_interrupts-Front (i ∷ is) ie ip c h =
      if_split Front (has_bits ie i.mask && has_bits ip i.mask)
        (λ _. take_interrupt-Front i.cause c) (λ _. scan_interrupts-Front is ie ip c h)

  check_and_handle_interrupts-Front :
      (c : CpuCore) → Front c → Front (check_and_handle_interrupts c)
  unfolding check_and_handle_interrupts
  check_and_handle_interrupts-Front c h =
      if_split Front (global_ie c.reg_file)
        (λ _. scan_interrupts-Front interrupts (ie_val c.reg_file) (ip_val c.reg_file) c h) (λ _. h)

  pub begin_cycle-Front : (c : CpuCore) → Front c → Front (begin_cycle c)
  unfolding begin_cycle
  begin_cycle-Front c h = check_and_handle_interrupts-Front _ h

  write_back_slot-Front :
      (slot : PipelineSlot) (c : CpuCore) → Front c → Front (write_back_slot slot c)
  unfolding write_back_slot
  write_back_slot-Front slot c h =
      if_split Front slot.valid
        (λ _.
          if_split Front (slot.instr == ebreak) (λ _. h)
            λ _. if_split Front (slot.instr == 0) (λ _. h) (λ _. h))
        (λ _. h)

  pub write_back-Front : (c : CpuCore) → Front c → Front (write_back c)
  unfolding write_back
  write_back-Front c h = write_back_slot-Front _ _ (write_back_slot-Front _ c h)

  execute_and_commit-Front : (c : CpuCore) → Front c → Front (execute_and_commit c)
  unfolding execute_and_commit
  execute_and_commit-Front c h = h

  resolve_branch-Front : (c : CpuCore) → Front c → Front (resolve_branch c)
  unfolding resolve_branch
  resolve_branch-Front c h =
      let br = c.pipe_regs.ex_mem.slots.lane0 in
      if_split Front (br.valid && br.d.is_branch)
        (λ _. if_split Front br.d.predicted_taken (λ _. h) (λ _. empty _))
        (λ _. if_split Front (br.valid && br.d.predicted_taken) (λ _. empty _) (λ _. h))

  return_from_m-Front : (c : CpuCore) → Front (return_from_m c)
  unfolding return_from_m flush
  return_from_m-Front c = empty _

  return_from_s-Front : (c : CpuCore) → Front (return_from_s c)
  unfolding return_from_s flush
  return_from_s-Front c = empty _

  handle_slot_trap-Front :
      (slot : PipelineSlot) (slot_pc : ℕ) (c : CpuCore)
      → Front c
      → Front (handle_slot_trap slot slot_pc c)
  unfolding handle_slot_trap
  handle_slot_trap-Front slot slot_pc c h =
      if_split Front slot.d.is_ecall (λ _. handle_trap-Front _ _ _ c)
        λ _.
          if_split Front slot.d.is_illegal (λ _. handle_trap-Front _ _ _ c)
            λ _.
              if_split Front slot.d.is_mret (λ _. return_from_m-Front c)
                λ _. if_split Front slot.d.is_sret (λ _. return_from_s-Front c) (λ _. h)

  handle_slot_traps-Front : (c : CpuCore) → Front c → Front (handle_slot_traps c)
  unfolding handle_slot_traps
  handle_slot_traps-Front c h =
      let s0 = c.pipe_regs.ex_mem.slots.lane0 in
      let s1 = c.pipe_regs.ex_mem.slots.lane1 in
      if_split Front s0.valid
        (λ _.
          if_split Front (trapped s0.d) (λ _. handle_slot_trap-Front s0 _ c h)
            (λ _.
              if_split Front (s1.valid && trapped s1.d) (λ _. handle_slot_trap-Front s1 _ c h)
                (λ _. h)))
        (λ _. h)

  pub execute-Front : (c : CpuCore) → Front c → Front (execute c)
  unfolding execute
  execute-Front c h =
      handle_slot_traps-Front _ (resolve_branch-Front _ (execute_and_commit-Front c h))
