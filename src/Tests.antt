-- ===== src/Tests.antt =====
-- Runs of the whole core on small programs.
mod Registers
mod Memory
mod Decode
mod Engine
mod Isa
mod Core
mod Cycle
mod Guest
use simple_rv.Prelude.{
  ℕ, ◌+◌, ◌≡◌, refl, Bool, true, false, Option, none, some, List, [], ◌∷◌, Outcome, ok, thrown,
  undefined, ◌>>=◌,
}
use simple_rv.CpuCore
use simple_rv.CpuCore.State.{CpuCore}
use simple_rv.CpuCore.Cycle.{Reaches, start, run-Reaches}
use simple_rv.CpuCore.{new_core, init, begin_cycle, stages, tick, run}
use simple_rv.CpuCore.Execute
use simple_rv.CpuCore.Execute.{
  commit_csr, commit_sfence, resolve_branch, mstatus_on_mret, sstatus_on_sret, return_from_m,
  return_from_s, handle_slot_trap, handle_slot_traps, execute_and_commit,
}
use simple_rv.CpuCore.Fetch.{fetch_instr, fetch_one, fetch_two, fetch}
use simple_rv.CpuCore.MemoryAccess.{
  load_width, store_width, misaligned, extend_loaded, load_slot, store_slot, access_slot,
  memory_access,
}
use simple_rv.CpuCore.Trap.{
  sstatus_on_trap, mstatus_on_trap, trap_to_s, trap_to_m, handle_trap, interrupt_to_s,
  interrupt_to_m, take_interrupt, scan_interrupts, global_ie, ie_val, ip_val,
  check_and_handle_interrupts,
}
use simple_rv.CpuCore.WriteBack.{write_back_slot, write_back}
use simple_rv.ExecutionEngine
use simple_rv.ExecutionEngine.{
  forward_mem_wb, forward_ex_mem, get_operand, execute_r_type, execute_i_type, execute_jump,
  execute_branch, csr_update, execute_csr, execute_slot, execute_lane,
}
use simple_rv.ExecutionEngine.Alu.{alu, alu_imm, branch_taken}
use simple_rv.IssueUnit
use simple_rv.IssueUnit.{
  can_issue_together, load_use, cross_cycle_stall, issue_bubble, issue_predicted, issue_two,
  issue_one, issue_decoded,
}
use simple_rv.IssueUnit.Decode.{
  imm_i, imm_s, imm_b, imm_u, imm_j, extract_fields, decode_system, decode_opcode, predict, decode,
  decode_instruction,
}
use simple_rv.MemorySystem.{
  new_memory_system, byte_at, load_loop, store_loop, read_clint, read_polled, read, copy_bytes,
  read_double_instr, write_clint, write, load_program, increment_timer, timer_interrupt_pending,
}
use simple_rv.MemorySystem.Keyboard.{poll, check_host_keyboard}
use simple_rv.MemorySystem.TlbEntries.{
  new_tlb, tlb_insert, tlb_flush, hit, lookup_entries, tlb_lookup,
}
use simple_rv.MemorySystem.Translate.{
  leaf_fault, tlb_flags, finish_leaf, walk_level0, walk, translate_sv32, translate,
}
use simple_rv.PipelineRegisters.{flush}
use simple_rv.PipelineRegisters.{reset}
use simple_rv.RegisterFile.{
  new_register_file, read_rs1, write_rd, read_register, read_csr, write_register, write_csr,
  set_privilege, hw_set_mtip, interrupt_delegated, exception_delegated,
}
use simple_rv.RegisterFile.Address.{csr_of}
use simple_rv.SystemConfig.{default_128mb}
use simple_rv.Types.{count}

-- addi x1, x0, 5; addi x3, x1, 7; ebreak
abbrev add_program : List ℕ
add_program = 0x93 ∷ 0x00 ∷ 0x50 ∷ 0x00 ∷ 0x93 ∷ 0x81 ∷ 0x70 ∷ 0x00 ∷ 0x73 ∷ 0x00 ∷ 0x10 ∷ 0x00 ∷ []

abbrev observe : Outcome (Option simple_rv.CpuCore.State.CpuCore) → List ℕ
observe (ok (some c)) = c.reg_file.gpr 1 ∷ c.reg_file.gpr 3 ∷ c.cycle_count ∷ c.instr_count ∷ []
observe _ = []

add_run :
    observe (init (some add_program) (new_core default_128mb []) >>= λ c. run 30 c)
    ≡ 5 ∷ 12 ∷ 6 ∷ 2 ∷ []
unfolding new_core init CpuCore.decode_and_issue begin_cycle stages tick run commit_csr
    commit_sfence resolve_branch mstatus_on_mret sstatus_on_sret return_from_m return_from_s
    handle_slot_trap handle_slot_traps execute_and_commit Execute.execute fetch_instr fetch_one
    fetch_two fetch load_width store_width misaligned extend_loaded load_slot store_slot access_slot
    memory_access sstatus_on_trap mstatus_on_trap trap_to_s trap_to_m handle_trap interrupt_to_s
    interrupt_to_m take_interrupt scan_interrupts global_ie ie_val ip_val
    check_and_handle_interrupts write_back_slot write_back forward_mem_wb forward_ex_mem get_operand
    execute_r_type execute_i_type execute_jump execute_branch csr_update execute_csr execute_slot
    execute_lane ExecutionEngine.execute alu alu_imm branch_taken can_issue_together load_use
    cross_cycle_stall issue_bubble issue_predicted issue_two issue_one issue_decoded
    IssueUnit.decode_and_issue imm_i imm_s imm_b imm_u imm_j extract_fields decode_system
    decode_opcode predict decode decode_instruction new_memory_system byte_at load_loop store_loop
    read_clint read_polled read copy_bytes read_double_instr write_clint write load_program
    increment_timer timer_interrupt_pending poll check_host_keyboard new_tlb tlb_insert tlb_flush
    hit lookup_entries tlb_lookup leaf_fault tlb_flags finish_leaf walk_level0 walk translate_sv32
    translate flush reset new_register_file read_rs1 write_rd read_register read_csr write_register
    write_csr set_privilege hw_set_mtip interrupt_delegated exception_delegated csr_of default_128mb
    count
add_run = refl

abbrev at_reset : CpuCore
at_reset = elim (init (some add_program) (new_core default_128mb [])) [
  | ok c ↦ c
  | thrown e ↦ new_core default_128mb []
  | undefined ↦ new_core default_128mb []
]

abbrev returned : Outcome (Option CpuCore) → Bool
returned (ok (some c)) = true
returned _ = false

returned-some :
    (m : Outcome (Option CpuCore)) → returned m ≡ true → (d : CpuCore) × (m ≡ ok (some d))
returned-some (ok (some c)) h = (c, refl)
returned-some (ok none) h = absurd (cc)
returned-some (thrown e) h = absurd (cc)
returned-some undefined h = absurd (cc)

at_reset-Reaches : Reaches default_128mb (some add_program) [] at_reset
unfolding init load_program
at_reset-Reaches = start refl

run-stops : returned (run 30 at_reset) ≡ true
unfolding new_core init CpuCore.decode_and_issue begin_cycle stages tick run commit_csr
    commit_sfence resolve_branch mstatus_on_mret sstatus_on_sret return_from_m return_from_s
    handle_slot_trap handle_slot_traps execute_and_commit Execute.execute fetch_instr fetch_one
    fetch_two fetch load_width store_width misaligned extend_loaded load_slot store_slot access_slot
    memory_access sstatus_on_trap mstatus_on_trap trap_to_s trap_to_m handle_trap interrupt_to_s
    interrupt_to_m take_interrupt scan_interrupts global_ie ie_val ip_val
    check_and_handle_interrupts write_back_slot write_back forward_mem_wb forward_ex_mem get_operand
    execute_r_type execute_i_type execute_jump execute_branch csr_update execute_csr execute_slot
    execute_lane ExecutionEngine.execute alu alu_imm branch_taken can_issue_together load_use
    cross_cycle_stall issue_bubble issue_predicted issue_two issue_one issue_decoded
    IssueUnit.decode_and_issue imm_i imm_s imm_b imm_u imm_j extract_fields decode_system
    decode_opcode predict decode decode_instruction new_memory_system byte_at load_loop store_loop
    read_clint read_polled read copy_bytes read_double_instr write_clint write load_program
    increment_timer timer_interrupt_pending poll check_host_keyboard new_tlb tlb_insert tlb_flush
    hit lookup_entries tlb_lookup leaf_fault tlb_flags finish_leaf walk_level0 walk translate_sv32
    translate flush reset new_register_file read_rs1 write_rd read_register read_csr write_register
    write_csr set_privilege hw_set_mtip interrupt_delegated exception_delegated csr_of default_128mb
    count
run-stops = refl

stopped : (d : CpuCore) × (run 30 at_reset ≡ ok (some d))
stopped = returned-some (run 30 at_reset) run-stops
