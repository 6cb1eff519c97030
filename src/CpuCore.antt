-- ===== src/CpuCore.antt =====
-- include/CPUCore.h and src/CPUCore.cpp: reset, one clock cycle and the main loop. The stages and
-- the trap logic are in the children.
pub mod State
pub mod Trap
pub mod WriteBack
pub mod MemoryAccess
pub mod Execute
pub mod Fetch
pub mod Front
pub mod Invariant
pub mod Ranges
pub mod Sequential
pub mod Path
pub mod Commit
pub mod Cycle
pub mod Running
pub mod Stops
pub mod Interrupts
pub mod Faults
use simple_rv.Prelude.{
  ℕ, zero, suc, Bool, true, false, ◌&&◌, if◌then◌else◌, Option, none, some, List, Outcome, ok,
  thrown, undefined, ◌>>=◌,
}
use simple_rv.Types.{count, no_stats, empty_if_id, empty_id_ex, empty_ex_mem, empty_mem_wb}
use simple_rv.SystemConfig.{SystemConfig, default_128mb}
use simple_rv.MemorySystem.{
  new_memory_system, load_program, increment_timer, timer_interrupt_pending,
}
use simple_rv.RegisterFile.{new_register_file, write_rd, write_csr, hw_set_mtip}
use simple_rv.RegisterFile.Address.{addr_of, mtvec_csr}
use simple_rv.PipelineRegisters.{reset}
use simple_rv.IssueUnit
use simple_rv.IssueUnit.{Issue}
use State.{CpuCore}
use Trap.{check_and_handle_interrupts}
use WriteBack.{write_back}
use MemoryAccess.{memory_access}
use Execute.{execute}
use Fetch.{fetch}

-- `CPUCore(cfg)` beside a keyboard that will give `input`.
unfoldable pub new_core : SystemConfig → List (Option ℕ) → CpuCore
new_core config input = record {
  config = config;
  memory = new_memory_system input;
  reg_file = new_register_file;
  pipe_regs = record {
    if_id = empty_if_id;
    id_ex = empty_id_ex;
    ex_mem = empty_ex_mem;
    mem_wb = empty_mem_wb;
  };
  pc = 0;
  cycle_count = 0;
  instr_count = 0;
  running = true;
  stats = no_stats;
}

unfoldable pub init : Option (List ℕ) → CpuCore → Outcome CpuCore
init file c = load_program file c.memory >>= λ m. ok (record c {
  pipe_regs = reset c.pipe_regs;
  memory = m;
  pc = c.config.pc_init;
  cycle_count = 0;
  instr_count = 0;
  stats = no_stats;
  running = true;
  reg_file =
      write_csr (addr_of mtvec_csr) c.config.mtvec_init
        (write_rd 2 c.config.sp_init true new_register_file);
})

-- The method `decodeAndIssue` of the core, around that of the issue unit.
unfoldable pub decode_and_issue : CpuCore → CpuCore
decode_and_issue c =
    let start : Issue = record {
      if_id = c.pipe_regs.if_id;
      id_ex = c.pipe_regs.id_ex;
      stats = c.stats;
    } in
    let s = IssueUnit.decode_and_issue start in
    let slot0 = s.id_ex.slots.lane0 in
    record c {
      pipe_regs = record (c.pipe_regs) { if_id = s.if_id; id_ex = s.id_ex };
      pc =
          if slot0.valid && slot0.d.predicted_taken && slot0.d.is_branch
          then slot0.jump_target
          else c.pc;
      stats =
          if slot0.valid && s.id_ex.slots.lane1.valid
          then record (s.stats) { dual_issues = count s.stats.dual_issues }
          else if slot0.valid
          then record (s.stats) { single_issues = count s.stats.single_issues }
          else record (s.stats) { stall_cycles = count s.stats.stall_cycles };
    }

-- The timer, its pending bit and the interrupts, at the start of a cycle.
unfoldable pub begin_cycle : CpuCore → CpuCore
begin_cycle c =
    let m = increment_timer c.memory in
    check_and_handle_interrupts
      (record c { memory = m; reg_file = hw_set_mtip (timer_interrupt_pending m) c.reg_file })

-- The five stages, from the last to the first.
unfoldable pub stages : CpuCore → Outcome CpuCore
stages c = memory_access (write_back c) >>= λ c'. fetch (decode_and_issue (execute c'))

unfoldable pub tick : CpuCore → Outcome CpuCore
tick c =
    let c' = begin_cycle c in
    if c'.running
    then (stages c' >>= λ d. ok (record d { cycle_count = count d.cycle_count }))
    else ok c'

-- `while (running) tick()`: `none` when the fuel runs out, which the source's loop does not do.
unfoldable pub run : ℕ → CpuCore → Outcome (Option CpuCore)
run zero c = ok none
run (suc fuel) c =
    let rest = tick c >>= λ c'. run fuel c' in if c.running then rest else ok (some c)

-- `main` on a program file: the exit status. What the program leaves undefined has none.
unfoldable pub exit_status : {A : Type 0} → Outcome (Option A) → Option ℕ
exit_status (ok none) = none
exit_status (ok (some c)) = some 0
exit_status (thrown e) = some 1
exit_status undefined = none

unfoldable pub main : ℕ → Option (Option (List ℕ)) → List (Option ℕ) → Option ℕ
main fuel none input = some 1
main fuel (some file) input =
    exit_status (init file (new_core default_128mb input) >>= λ c. run fuel c)
