-- ===== src/Types/Stats.antt =====
-- `PipelineStats` of include/common.h, counters of 64 bits.
use simple_rv.Prelude.{ℕ, ◌+◌, u64}

pub record PipelineStats : Type 0 where
  pub dual_issues : ℕ
  pub single_issues : ℕ
  pub stall_cycles : ℕ
  pub branches_predicted : ℕ
  pub branches_mispredicted : ℕ
  pub branch_flushes : ℕ
  pub load_use_stalls : ℕ
  pub interrupt_flushes : ℕ
  pub memory_port_conflicts : ℕ

-- `PipelineStats()`, which `reset` assigns.
abbrev pub no_stats : PipelineStats
no_stats = record {
  dual_issues = 0;
  single_issues = 0;
  stall_cycles = 0;
  branches_predicted = 0;
  branches_mispredicted = 0;
  branch_flushes = 0;
  load_use_stalls = 0;
  interrupt_flushes = 0;
  memory_port_conflicts = 0;
}

-- `counter++` on a `uint64_t`.
unfoldable pub count : ℕ → ℕ
count n = u64 (n + 1)
