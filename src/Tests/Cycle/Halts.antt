-- ===== src/Tests/Cycle/Halts.antt =====
-- The end of the main loop at the program of three instructions.
use simple_rv.Prelude.{
  ◌≡◌, refl, arith, Bool, true, false, ◌&&◌, ◌||◌, some, Outcome, ok, thrown, undefined, ◌>>=◌,
}
use simple_rv.CpuCore
use simple_rv.CpuCore.State.{CpuCore}
use simple_rv.CpuCore.{new_core, init, begin_cycle, stages, tick, run}
use simple_rv.CpuCore.Execute
use simple_rv.CpuCore.Execute.{
  commit_csr, commit_sfence, resolve_branch, mstatus_on_mret, sstatus_on_sret, return_from_m,
  return_from_s, handle_slot_trap, handle_slot_traps, execute_and_commit,
}
use simple_rv.CpuCore.Fetch.{fetch_instr, fetch_one, fetch_two, fetch}
use simple_rv.CpuCore.MemoryAccess.{
  load_width, store_width, misaligned, extend_loaded, load_slot, store_slot, access_slot,
  memory_access,
}
use simple_rv.CpuCore.Trap.{
  sstatus_on_trap, mstatus_on_trap, trap_to_s, trap_to_m, handle_trap, interrupt_to_s,
  interrupt_to_m, take_interrupt, scan_interrupts, global_ie, ie_val, ip_val,
  check_and_handle_interrupts,
}
use simple_rv.CpuCore.WriteBack.{write_back_slot, write_back}
use simple_rv.ExecutionEngine
use simple_rv.ExecutionEngine.{
  forward_mem_wb, forward_ex_mem, get_operand, execute_r_type, execute_i_type, execute_jump,
  execute_branch, csr_update, execute_csr, execute_slot, execute_lane,
}
use simple_rv.ExecutionEngine.Alu.{alu, alu_imm, branch_taken}
use simple_rv.IssueUnit
use simple_rv.IssueUnit.{
  can_issue_together, load_use, cross_cycle_stall, issue_bubble, issue_predicted, issue_two,
  issue_one, issue_decoded,
}
use simple_rv.IssueUnit.Decode.{
  imm_i, imm_s, imm_b, imm_u, imm_j, extract_fields, decode_system, decode_opcode, predict, decode,
  decode_instruction,
}
use simple_rv.MemorySystem.{
  new_memory_system, byte_at, load_loop, store_loop, read_clint, read_polled, read, copy_bytes,
  read_double_instr, write_clint, write, load_program, increment_timer, timer_interrupt_pending,
}
use simple_rv.MemorySystem.Keyboard.{poll, check_host_keyboard}
use simple_rv.MemorySystem.TlbEntries.{
  new_tlb, tlb_insert, tlb_flush, hit, lookup_entries, tlb_lookup,
}
use simple_rv.MemorySystem.Translate.{
  leaf_fault, tlb_flags, finish_leaf, walk_level0, walk, translate_sv32, translate,
}
use simple_rv.PipelineRegisters.{flush}
use simple_rv.PipelineRegisters.{reset}
use simple_rv.RegisterFile.{
  new_register_file, read_rs1, write_rd, read_register, read_csr, write_register, write_csr,
  set_privilege, hw_set_mtip, interrupt_delegated, exception_delegated,
}
use simple_rv.RegisterFile.Address.{csr_of}
use simple_rv.SystemConfig.{default_128mb}
use simple_rv.Types.{count}
use simple_rv.CpuCore.Running.{halts}
use simple_rv.CpuCore.Stops.{Stops, halts-Stops}
use simple_rv.Tests.{at_reset}
use simple_rv.Tests.Cycle.{steps}

-- The core of the sixth cycle, which writes EBREAK back, and what the cycle makes of it.
abbrev last_cycle : Outcome (CpuCore × CpuCore)
last_cycle = steps 5 at_reset >>= λ c. tick c >>= λ d. ok (c, d)

abbrev halting : Outcome (CpuCore × CpuCore) → Bool
halting (ok r) =
    r.0.running
    && (halts r.0.pipe_regs.mem_wb.slots.lane0 || halts r.0.pipe_regs.mem_wb.slots.lane1)
halting _ = false

last_cycle-halting : halting last_cycle ≡ true
unfolding new_core init CpuCore.decode_and_issue begin_cycle stages tick run commit_csr
    commit_sfence resolve_branch mstatus_on_mret sstatus_on_sret return_from_m return_from_s
    handle_slot_trap handle_slot_traps execute_and_commit Execute.execute fetch_instr fetch_one
    fetch_two fetch load_width store_width misaligned extend_loaded load_slot store_slot access_slot
    memory_access sstatus_on_trap mstatus_on_trap trap_to_s trap_to_m handle_trap interrupt_to_s
    interrupt_to_m take_interrupt scan_interrupts global_ie ie_val ip_val
    check_and_handle_interrupts write_back_slot write_back forward_mem_wb forward_ex_mem get_operand
    execute_r_type execute_i_type execute_jump execute_branch csr_update execute_csr execute_slot
    execute_lane ExecutionEngine.execute alu alu_imm branch_taken can_issue_together load_use
    cross_cycle_stall issue_bubble issue_predicted issue_two issue_one issue_decoded
    IssueUnit.decode_and_issue imm_i imm_s imm_b imm_u imm_j extract_fields decode_system
    decode_opcode predict decode decode_instruction new_memory_system byte_at load_loop store_loop
    read_clint read_polled read copy_bytes read_double_instr write_clint write load_program
    increment_timer timer_interrupt_pending poll check_host_keyboard new_tlb tlb_insert tlb_flush
    hit lookup_entries tlb_lookup leaf_fault tlb_flags finish_leaf walk_level0 walk translate_sv32
    translate flush reset new_register_file read_rs1 write_rd read_register read_csr write_register
    write_csr set_privilege hw_set_mtip interrupt_delegated exception_delegated csr_of default_128mb
    count steps
last_cycle-halting = refl

record IsHalting (r : CpuCore × CpuCore) : Type 0 where
  running : r.0.running ≡ true
  halted : (halts r.0.pipe_regs.mem_wb.slots.lane0 || halts r.0.pipe_regs.mem_wb.slots.lane1) ≡ true
  ticked : tick r.0 ≡ ok r.1

halting-IsHalting :
    (m : Outcome CpuCore)
    → halting (m >>= λ c. tick c >>= λ d. ok (c, d)) ≡ true
    → (r : CpuCore × CpuCore) × IsHalting r
halting-IsHalting (ok c) h = from_tick (tick c) refl h
  where
    from_tick :
        (n : Outcome CpuCore)
        → tick c ≡ n
        → halting (n >>= λ d. ok (c, d)) ≡ true
        → (r : CpuCore × CpuCore) × IsHalting r
    from_tick (ok d) t k =
        ((c, d), record { running = ground arith; halted = ground arith; ticked = t })
    from_tick (thrown e) t k = absurd (cc)
    from_tick undefined t k = absurd (cc)
halting-IsHalting (thrown e) h = absurd (cc)
halting-IsHalting undefined h = absurd (cc)

last : (r : CpuCore × CpuCore) × IsHalting r
last = halting-IsHalting (steps 5 at_reset) last_cycle-halting

halts-Stops_example : Stops last.0.0 last.0.1 × (run 2 last.0.0 ≡ ok (some last.0.1))
halts-Stops_example = halts-Stops last.0.0 last.0.1 last.1.running last.1.halted last.1.ticked
