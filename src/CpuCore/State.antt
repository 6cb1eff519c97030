-- ===== src/CpuCore/State.antt =====
-- The members of `CPUCore` (include/CPUCore.h) that change. The issue unit and the execution
-- engine have no state.
use simple_rv.Prelude.{ℕ, Bool}
use simple_rv.Types.{PipelineStats, invalidate}
use simple_rv.SystemConfig.{SystemConfig}
use simple_rv.MemorySystem.{MemorySystem}
use simple_rv.RegisterFile.{RegisterFile}
use simple_rv.PipelineRegisters.{PipelineRegisters}

pub record CpuCore : Type 0 where
  pub config : SystemConfig
  pub memory : MemorySystem
  pub reg_file : RegisterFile
  pub pipe_regs : PipelineRegisters
  pub pc : ℕ
  pub cycle_count : ℕ
  pub instr_count : ℕ
  pub running : Bool
  pub stats : PipelineStats

-- `ex_mem.slots[0].valid = false; ex_mem.slots[1].valid = false`.
abbrev pub drop_ex_mem : PipelineRegisters → PipelineRegisters
drop_ex_mem p = record p {
  ex_mem = record (p.ex_mem) {
    slots = record {
      lane0 = invalidate p.ex_mem.slots.lane0;
      lane1 = invalidate p.ex_mem.slots.lane1;
    };
  };
}
