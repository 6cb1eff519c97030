-- ===== src/Tests/Cycle.antt =====
-- The theorems on whole cycles at the cores that a program of three instructions reaches.
mod Halts
use simple_rv.Prelude.{
  ℕ, zero, suc, ◌+◌, ◌≤◌, ◌≡◌, refl, ap, ◌∙◌, subst, arith, Bool, true, false, ◌&&◌, ◌||◌, Option,
  some, List, [], ◌∷◌, Outcome, ok, thrown, undefined, ◌>>=◌, >>=-eq-ok, u32, if◌then◌else◌,
}
use simple_rv.CpuCore
use simple_rv.CpuCore.State.{CpuCore}
use simple_rv.CpuCore.Cycle.{Reaches, cycle}
use simple_rv.CpuCore.{new_core, init, begin_cycle, stages, tick, run}
use simple_rv.CpuCore.Execute
use simple_rv.CpuCore.Execute.{
  commit_csr, commit_sfence, resolve_branch, mstatus_on_mret, sstatus_on_sret, return_from_m,
  return_from_s, handle_slot_trap, handle_slot_traps, execute_and_commit,
}
use simple_rv.CpuCore.Fetch.{fetch_instr, fetch_one, fetch_two, fetch}
use simple_rv.CpuCore.MemoryAccess.{
  load_width, store_width, misaligned, extend_loaded, load_slot, store_slot, access_slot,
  memory_access,
}
use simple_rv.CpuCore.Trap.{
  sstatus_on_trap, mstatus_on_trap, trap_to_s, trap_to_m, handle_trap, interrupt_to_s,
  interrupt_to_m, take_interrupt, scan_interrupts, global_ie, ie_val, ip_val,
  check_and_handle_interrupts,
}
use simple_rv.CpuCore.WriteBack.{write_back_slot, write_back}
use simple_rv.ExecutionEngine
use simple_rv.ExecutionEngine.{
  forward_mem_wb, forward_ex_mem, get_operand, execute_r_type, execute_i_type, execute_jump,
  execute_branch, csr_update, execute_csr, execute_slot, execute_lane,
}
use simple_rv.ExecutionEngine.Alu.{alu, alu_imm, branch_taken}
use simple_rv.IssueUnit
use simple_rv.IssueUnit.{
  can_issue_together, load_use, cross_cycle_stall, issue_bubble, issue_predicted, issue_two,
  issue_one, issue_decoded,
}
use simple_rv.IssueUnit.Decode.{
  imm_i, imm_s, imm_b, imm_u, imm_j, extract_fields, decode_system, decode_opcode, predict, decode,
  decode_instruction,
}
use simple_rv.MemorySystem.{
  new_memory_system, byte_at, load_loop, store_loop, read_clint, read_polled, read, copy_bytes,
  read_double_instr, write_clint, write, load_program, increment_timer, timer_interrupt_pending,
}
use simple_rv.MemorySystem.Keyboard.{poll, check_host_keyboard}
use simple_rv.MemorySystem.TlbEntries.{
  new_tlb, tlb_insert, tlb_flush, hit, lookup_entries, tlb_lookup,
}
use simple_rv.MemorySystem.Translate.{
  leaf_fault, tlb_flags, finish_leaf, walk_level0, walk, translate_sv32, translate,
}
use simple_rv.PipelineRegisters.{flush}
use simple_rv.PipelineRegisters.{reset}
use simple_rv.RegisterFile.{
  new_register_file, read_rs1, write_rd, read_register, read_csr, write_register, write_csr,
  set_privilege, hw_set_mtip, interrupt_delegated, exception_delegated,
}
use simple_rv.RegisterFile.Address.{csr_of}
use simple_rv.SystemConfig.{default_128mb}
use simple_rv.Types.{count, ExMemBuffer}
use simple_rv.CpuCore.Ranges.{IsRanged}
use simple_rv.CpuCore.Ranges.Cycle.{IsWordConfig, Reaches-IsRanged, memory_access-IsSettled}
use simple_rv.CpuCore.Running.{halts}
use simple_rv.CpuCore.Stops.{Stops, run-Stops, halts-Stops}
use simple_rv.CpuCore.Sequential.{id_ex-IsRangedIdEx, cycle-executes_first, cycle-executes_second}
use simple_rv.SystemConfig.{SystemConfig}
use simple_rv.ExecutionEngine.Forwarding.{retired}
use simple_rv.ExecutionEngine.Alu.Signed.{add}
use simple_rv.Isa.{Instruction, imm, layout, signals, has_imm}
use simple_rv.Isa.Assemble.{decode-assemble}
use simple_rv.CpuCore.Path.{upcoming, IsFollowing}
use simple_rv.CpuCore.Path.Stages.{Reaches-IsFollowing}
use simple_rv.CpuCore.Path.Next.{cycle-goes_on}
use simple_rv.Isa.Meaning.{value, next_pc}
use simple_rv.Isa.Engine.{computed, goes_to}
use simple_rv.Isa.Sequential.{complete}
use simple_rv.Isa.Pairs.{IsSettled}
use simple_rv.Tests.{add_program, at_reset, at_reset-Reaches, stopped}
use simple_rv.CpuCore.Commit.Plain.{computes}
use simple_rv.CpuCore.Commit.Handed.{Next}
use simple_rv.CpuCore.Commit.Cycle.{cycle-completes}
use simple_rv.Types.{prv_m}

unfoldable steps : ℕ → CpuCore → Outcome CpuCore
unfolding tick
steps zero c = ok c
steps (suc n) c = tick c >>= λ d. steps n d

steps-Reaches :
    (n : ℕ) {config : SystemConfig} {file : Option (List ℕ)} {input : List (Option ℕ)}
    {c d : CpuCore}
    → Reaches config file input c
    → steps n c ≡ ok d
    → Reaches config file input d
unfolding steps
steps-Reaches zero {config} {file} {input} {c = c} {d = d} r h =
    let same : c ≡ d = cc in subst (λ x. Reaches config file input x) same r
steps-Reaches (suc n) {c = c} r h =
    let (x, ticked, rest) = >>=-eq-ok (tick c) (λ x. steps n x) h in
    steps-Reaches n (cycle r ticked) rest

default-IsWordConfig : IsWordConfig default_128mb
unfolding default_128mb
default-IsWordConfig = record {
  pc_word = omega arith;
  sp_word = omega arith;
  mtvec_word = omega arith;
}

Reaches-IsRanged_example : IsRanged at_reset
Reaches-IsRanged_example = Reaches-IsRanged default-IsWordConfig tt at_reset-Reaches

-- The core of the third cycle as its execute stage finds it.
abbrev accessed : Outcome CpuCore
accessed = steps 2 at_reset >>= λ c. memory_access (write_back (begin_cycle c))

-- The rest of the cycle and the start of the next one.
unfoldable onward : CpuCore → Outcome CpuCore
onward d = fetch (CpuCore.decode_and_issue (Execute.execute d)) >>= λ e.
    memory_access (write_back (begin_cycle (record e { cycle_count = count e.cycle_count })))

abbrev is_ok : Outcome CpuCore → Bool
is_ok (ok d) = true
is_ok _ = false

abbrev flag : Bool → ℕ
flag b = if b then 1 else 0

abbrev waiting : Outcome CpuCore → List ℕ
waiting (ok d) =
    let slots = d.pipe_regs.id_ex.slots in
    flag slots.lane0.valid
    ∷ flag slots.lane1.valid
    ∷ slots.lane0.instr
    ∷ slots.lane1.instr
    ∷ d.reg_file.privilege
    ∷ flag (halts d.pipe_regs.mem_wb.slots.lane0)
    ∷ flag (halts d.pipe_regs.mem_wb.slots.lane1)
    ∷ flag (is_ok (onward d))
    ∷ []
waiting _ = []

accessed-waiting : waiting accessed ≡ 1 ∷ 1 ∷ 0x00500093 ∷ 0x00708193 ∷ 3 ∷ 0 ∷ 0 ∷ 1 ∷ []
unfolding new_core init CpuCore.decode_and_issue begin_cycle stages tick run commit_csr
    commit_sfence resolve_branch mstatus_on_mret sstatus_on_sret return_from_m return_from_s
    handle_slot_trap handle_slot_traps execute_and_commit Execute.execute fetch_instr fetch_one
    fetch_two fetch load_width store_width misaligned extend_loaded load_slot store_slot access_slot
    memory_access sstatus_on_trap mstatus_on_trap trap_to_s trap_to_m handle_trap interrupt_to_s
    interrupt_to_m take_interrupt scan_interrupts global_ie ie_val ip_val
    check_and_handle_interrupts write_back_slot write_back forward_mem_wb forward_ex_mem get_operand
    execute_r_type execute_i_type execute_jump execute_branch csr_update execute_csr execute_slot
    execute_lane ExecutionEngine.execute alu alu_imm branch_taken can_issue_together load_use
    cross_cycle_stall issue_bubble issue_predicted issue_two issue_one issue_decoded
    IssueUnit.decode_and_issue imm_i imm_s imm_b imm_u imm_j extract_fields decode_system
    decode_opcode predict decode decode_instruction new_memory_system byte_at load_loop store_loop
    read_clint read_polled read copy_bytes read_double_instr write_clint write load_program
    increment_timer timer_interrupt_pending poll check_host_keyboard new_tlb tlb_insert tlb_flush
    hit lookup_entries tlb_lookup leaf_fault tlb_flags finish_leaf walk_level0 walk translate_sv32
    translate flush reset new_register_file read_rs1 write_rd read_register read_csr write_register
    write_csr set_privilege hw_set_mtip interrupt_delegated exception_delegated csr_of default_128mb
    count steps onward
accessed-waiting = refl

-- A core whose ID_EX holds these two words, in M-mode, with nothing that halts in MEM_WB.
record HoldsPair (a b : ℕ) (d : CpuCore) : Type 0 where
  valid0 : d.pipe_regs.id_ex.slots.lane0.valid ≡ true
  valid1 : d.pipe_regs.id_ex.slots.lane1.valid ≡ true
  instr0 : d.pipe_regs.id_ex.slots.lane0.instr ≡ a
  instr1 : d.pipe_regs.id_ex.slots.lane1.instr ≡ b
  machine : d.reg_file.privilege ≡ prv_m
  quiet0 : halts d.pipe_regs.mem_wb.slots.lane0 ≡ false
  quiet1 : halts d.pipe_regs.mem_wb.slots.lane1 ≡ false
  onwards : is_ok (onward d) ≡ true

flag-true : (b : Bool) → flag b ≡ 1 → b ≡ true
flag-true true h = refl
flag-true false h = absurd (omega arith)

flag-false : (b : Bool) → flag b ≡ 0 → b ≡ false
flag-false true h = absurd (omega arith)
flag-false false h = refl

waiting-HoldsPair :
    (m : Outcome CpuCore) (a b : ℕ)
    → waiting m ≡ 1 ∷ 1 ∷ a ∷ b ∷ 3 ∷ 0 ∷ 0 ∷ 1 ∷ []
    → (d : CpuCore) × (m ≡ ok d) × HoldsPair a b d
waiting-HoldsPair (ok d) a b h = (
  d,
  refl,
  record {
    valid0 = flag-true _ (cc);
    valid1 = flag-true _ (cc);
    instr0 = cc;
    instr1 = cc;
    machine = cc;
    quiet0 = flag-false _ (cc);
    quiet1 = flag-false _ (cc);
    onwards = flag-true _ (cc);
  },
)
waiting-HoldsPair (thrown e) a b h = absurd (cc)
waiting-HoldsPair undefined a b h = absurd (cc)

pair_core : (d : CpuCore) × (accessed ≡ ok d) × HoldsPair 0x00500093 0x00708193 d
pair_core = waiting-HoldsPair accessed 0x00500093 0x00708193 accessed-waiting

abbrev executing : CpuCore
executing = pair_core.0

reached_core :
    (c : CpuCore) × (steps 2 at_reset ≡ ok c)
    × (memory_access (write_back (begin_cycle c)) ≡ ok executing)
reached_core = >>=-eq-ok (steps 2 at_reset) _ pair_core.1

reached : Reaches default_128mb (some add_program) [] reached_core.0
reached = steps-Reaches 2 at_reset-Reaches reached_core.1

abbrev executed : ExMemBuffer
executed =
    ExecutionEngine.execute executing.pipe_regs.id_ex executing.pipe_regs.ex_mem
      executing.pipe_regs.mem_wb executing.reg_file

-- addi x1, x0, 5; addi x3, x1, 7
abbrev five : Instruction
five = imm add 1 0 5

abbrev seven_more : Instruction
seven_more = imm add 3 1 7

cycle-executes_first_example :
    (computed executed.slots.lane0
      ≡ value five
          (u32 (executing.pipe_regs.id_ex.pc + 0))
          (read_rs1 (retired executing.pipe_regs.mem_wb executing.reg_file))
          (read_csr executing.reg_file))
    × (goes_to executed.slots.lane0 (u32 (executing.pipe_regs.id_ex.pc + 0))
        ≡ next_pc five
            (u32 (executing.pipe_regs.id_ex.pc + 0))
            (read_rs1 (retired executing.pipe_regs.mem_wb executing.reg_file)))
unfolding layout has_imm
cycle-executes_first_example =
    cycle-executes_first default-IsWordConfig tt reached reached_core.2 five
      (refl, omega arith, omega arith, omega arith) pair_core.2.valid0 pair_core.2.instr0

cycle-executes_second_example :
    computed executed.slots.lane1
    ≡ value seven_more
        (u32 (executing.pipe_regs.id_ex.pc + 4))
        (read_rs1 (
          complete five
            (u32 (executing.pipe_regs.id_ex.pc + 0))
            0
            (retired executing.pipe_regs.mem_wb executing.reg_file)))
        (read_csr executing.reg_file)
unfolding layout has_imm
cycle-executes_second_example =
    cycle-executes_second default-IsWordConfig tt reached reached_core.2 five seven_more
      (refl, omega arith, omega arith, omega arith) (refl, omega arith, omega arith, omega arith)
      pair_core.2.valid1 pair_core.2.instr0 pair_core.2.instr1 0

legal : executing.pipe_regs.id_ex.slots.lane1.d.is_illegal ≡ false
unfolding layout has_imm signals
legal =
    ap (λ x. x.is_illegal)
      ((id_ex-IsRangedIdEx default-IsWordConfig tt reached reached_core.2).decoded1
        pair_core.2.valid1)
    ∙ ap (λ w. (decode w).is_illegal) pair_core.2.instr1
    ∙ ap (λ x. x.is_illegal)
        (decode-assemble seven_more (refl, omega arith, omega arith, omega arith))

cycle-goes_on_example :
    (let e = Execute.execute executing in
      let pc0 = u32 (executing.pipe_regs.id_ex.pc + 0) in
      let next =
        next_pc five pc0 (read_rs1 (retired executing.pipe_regs.mem_wb executing.reg_file)) in
      (upcoming e.pipe_regs.if_id e.pc ≡ (
        if e.pipe_regs.ex_mem.slots.lane1.valid
        then u32 (executing.pipe_regs.id_ex.pc + 8)
        else next))
      × (e.pipe_regs.ex_mem.slots.lane1.valid ≡ true → next ≡ u32 (pc0 + 4)))
unfolding layout has_imm signals
cycle-goes_on_example =
    cycle-goes_on default-IsWordConfig tt reached reached_core.2 five
      (refl, omega arith, omega arith, omega arith) refl pair_core.2.valid0 pair_core.2.instr0
      (λ v. legal)

Reaches-IsFollowing_example : IsFollowing reached_core.0
Reaches-IsFollowing_example = Reaches-IsFollowing reached

is_ok-ok : (m : Outcome CpuCore) → is_ok m ≡ true → (d : CpuCore) × (m ≡ ok d)
is_ok-ok (ok d) h = (d, refl)
is_ok-ok (thrown e) h = absurd (cc)
is_ok-ok undefined h = absurd (cc)

onward-Next : (d : CpuCore) → is_ok (onward d) ≡ true → (d' : CpuCore) × Next d d'
unfolding onward
onward-Next d h =
    let (d', e) = is_ok-ok (onward d) h in
    let (between, fetched, accessed) =
      >>=-eq-ok (fetch (CpuCore.decode_and_issue (Execute.execute d))) _ e in
    (d', record { between = between; fetched = fetched; accessed = accessed })

next_core : (d' : CpuCore) × Next executing d'
next_core = onward-Next executing pair_core.2.onwards

cycle-completes_example :
    read_rs1 (retired next_core.0.pipe_regs.mem_wb next_core.0.reg_file) 3
    ≡ read_rs1
        (if executing.pipe_regs.id_ex.slots.lane1.valid
          then complete seven_more (u32 (executing.pipe_regs.id_ex.pc + 4)) 0 (
              complete five
                (u32 (executing.pipe_regs.id_ex.pc + 0))
                0
                (retired executing.pipe_regs.mem_wb executing.reg_file))
          else complete five
              (u32 (executing.pipe_regs.id_ex.pc + 0))
              0
              (retired executing.pipe_regs.mem_wb executing.reg_file))
        3
unfolding layout has_imm computes
cycle-completes_example =
    cycle-completes default-IsWordConfig tt reached reached_core.2 pair_core.2.machine next_core.1
      pair_core.2.quiet0 pair_core.2.quiet1 five seven_more
      (refl, omega arith, omega arith, omega arith) (refl, omega arith, omega arith, omega arith)
      refl refl pair_core.2.valid0 pair_core.2.instr0 (λ v. pair_core.2.instr1) 3
