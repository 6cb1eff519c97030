-- ===== src/CpuCore/Commit/Handed.antt =====
-- What the engine built, on its way to the registers, through `CPUCore::tick` (src/CPUCore.cpp).
use simple_rv.Prelude.{
  ℕ, ◌≡◌, sym, ap, ◌∙◌, subst, true, false, Outcome, ok, thrown, undefined, ◌&&◌,
}
use simple_rv.Types.{ExMemBuffer, prv_m, count}
use simple_rv.RegisterFile.{write_rd}
use simple_rv.ExecutionEngine
use simple_rv.ExecutionEngine.Forwarding.{retire, retired}
use simple_rv.CpuCore
use simple_rv.CpuCore.{begin_cycle}
use simple_rv.CpuCore.State.{CpuCore}
use simple_rv.CpuCore.WriteBack.{write_back}
use simple_rv.CpuCore.MemoryAccess.{memory_access}
use simple_rv.CpuCore.Execute
use simple_rv.CpuCore.Execute.{trapped}
use simple_rv.CpuCore.Fetch.{fetch}
use simple_rv.CpuCore.Invariant.Memory.{Ensures}
use simple_rv.CpuCore.Running.{halts}
use simple_rv.CpuCore.Commit.Keeps.{Has, begin_cycle-Has, fetch-Has}
use simple_rv.CpuCore.Commit.Stages.{
  IsQuietSlot, execute-quiet, write_back-retired, write_back-latches, retire-gpr, retired-gpr,
  memory_access-quiet, memory_access-alone,
}
use simple_rv.CpuCore.Commit.Results.{IsIdle, IsAlone}

-- From the execute stage of a cycle to that of the next: the rest of the cycle, and the stages of the
-- next one that come before.
pub record Next (d d' : CpuCore) : Type 0 where
  pub between : CpuCore
  pub fetched : fetch (CpuCore.decode_and_issue (Execute.execute d)) ≡ ok between
  pub accessed :
      memory_access
        (write_back (begin_cycle (record between { cycle_count = count between.cycle_count })))
      ≡ ok d'

-- The core as the memory stage of the next cycle finds it.
pub record Handed (d d' : CpuCore) (x : ExMemBuffer) : Type 0 where
  core : CpuCore
  latch : core.pipe_regs.ex_mem ≡ x
  gpr : core.reg_file.gpr ≡ (retired d.pipe_regs.mem_wb d.reg_file).gpr
  accessed : memory_access core ≡ ok d'

-- What the engine built, without a branch, a trap or an interrupt's trace, reaches that stage.
pub handed :
    (d d' : CpuCore)
    → Next d d'
    → d.reg_file.privilege ≡ prv_m
    → (let p = d.pipe_regs in
        let x = ExecutionEngine.execute p.id_ex p.ex_mem p.mem_wb d.reg_file in
        IsQuietSlot x.slots.lane0
        → (x.slots.lane1.valid && trapped x.slots.lane1.d) ≡ false
        → halts p.mem_wb.slots.lane0 ≡ false
        → halts p.mem_wb.slots.lane1 ≡ false
        → Handed d d' x)
unfolding CpuCore.decode_and_issue
handed d d' n machine q0 q1 h0 h1 =
    let w = d.pipe_regs.mem_wb in
    let g = d.reg_file.gpr in
    let x = ExecutionEngine.execute d.pipe_regs.id_ex d.pipe_regs.ex_mem w d.reg_file in
    let (has_engine, level) = execute-quiet d q0 q1 in
    let issued : Has x w g (CpuCore.decode_and_issue (Execute.execute d)) = record {
      ex_mem = has_engine.ex_mem;
      mem_wb = has_engine.mem_wb;
      gpr = has_engine.gpr;
    } in
    let has_fetched =
      subst (Ensures (Has x w g)) n.fetched
        (fetch-Has x w g (CpuCore.decode_and_issue (Execute.execute d)) (level ∙ machine) issued) in
    let counted = record (n.between) { cycle_count = count n.between.cycle_count } in
    let b = begin_cycle counted in
    let has_begun = begin_cycle-Has x w g counted (record {
      ex_mem = has_fetched.ex_mem;
      mem_wb = has_fetched.mem_wb;
      gpr = has_fetched.gpr;
    }) in
    record {
      core = write_back b;
      latch = ap (λ p. p.ex_mem) (write_back-latches b) ∙ has_begun.ex_mem;
      gpr =
          ap (λ f. f.gpr)
            (write_back-retired b (ap (λ y. halts y.slots.lane0) has_begun.mem_wb ∙ h0)
                (ap (λ y. halts y.slots.lane1) has_begun.mem_wb ∙ h1)
              ∙ ap (λ y. retired y b.reg_file) has_begun.mem_wb)
          ∙ retired-gpr w b.reg_file d.reg_file has_begun.gpr;
      accessed = n.accessed;
    }

-- The general registers once MEM_WB has retired, where the memory stage returned.
abbrev pub left : CpuCore → ℕ → ℕ
left d = (retired d.pipe_regs.mem_wb d.reg_file).gpr

left_after : Outcome CpuCore → ℕ → ℕ
left_after (ok r) = left r
left_after (thrown e) = λ r. 0
left_after undefined = λ r. 0

-- What retires of a pair.
pub retires_pair :
    (d d' : CpuCore) (x : ExMemBuffer)
    → Handed d d' x
    → x.slots.lane0.valid ≡ true
    → x.slots.lane1.valid ≡ true
    → IsIdle x
    → left d'
      ≡ (retire x.slots.lane1 (retire x.slots.lane0 (retired d.pipe_regs.mem_wb d.reg_file))).gpr
unfolding left_after
retires_pair d d' x h v0 v1 idle =
    let c = h.core in
    let quiet =
      memory_access-quiet c (ap (λ y. y.slots.lane0.valid) h.latch ∙ v0)
        (ap (λ y. y.slots.lane1.valid) h.latch ∙ v1)
        (ap (λ y. y.mem_read.lane0) h.latch ∙ idle.read0)
        (ap (λ y. y.mem_read.lane1) h.latch ∙ idle.read1)
        (ap (λ y. y.mem_write.lane0) h.latch ∙ idle.write0)
        (ap (λ y. y.mem_write.lane1) h.latch ∙ idle.write1) in
    ap left_after (sym h.accessed ∙ quiet)
    ∙ ap (λ y. (retire y.slots.lane1 (retire y.slots.lane0 c.reg_file)).gpr) h.latch
    ∙ retire-gpr x.slots.lane1 _ _ (retire-gpr x.slots.lane0 _ _ h.gpr)

-- What retires of an instruction alone.
pub retires_alone :
    (d d' : CpuCore) (x : ExMemBuffer)
    → Handed d d' x
    → x.slots.lane0.valid ≡ true
    → IsAlone x
    → left d' ≡ (retire x.slots.lane0 (retired d.pipe_regs.mem_wb d.reg_file)).gpr
unfolding left_after retire write_rd
retires_alone d d' x h v0 alone =
    let c = h.core in
    let quiet =
      memory_access-alone c (ap (λ y. y.slots.lane0.valid) h.latch ∙ v0)
        (ap (λ y. y.slots.lane1.valid) h.latch ∙ alone.empty1)
        (ap (λ y. y.mem_read.lane0) h.latch ∙ alone.read0)
        (ap (λ y. y.mem_write.lane0) h.latch ∙ alone.write0) in
    ap left_after (sym h.accessed ∙ quiet)
    ∙ ap (λ y. (retire y.slots.lane0 c.reg_file).gpr) h.latch
    ∙ retire-gpr x.slots.lane0 _ _ h.gpr
