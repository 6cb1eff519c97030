-- ===== src/CpuCore/Commit/Cycle.antt =====
-- Two cycles of `CPUCore::tick` (src/CPUCore.cpp) from the execute stage of one to that of the next.
use simple_rv.Prelude.{
  ℕ, ◌+◌, ◌≡◌, sym, ap, ◌∙◌, subst, u32, true, false, if◌then◌else◌, ◌==◌, Option, List, ok, ◌&&◌,
  inl, inr, Bool-cases,
}
use mathlib.Core.Path.{fun_ext}
use simple_rv.Types.{ExMemBuffer, prv_m}
use simple_rv.SystemConfig.{SystemConfig}
use simple_rv.RegisterFile.{RegisterFile, read_rs1, read_csr}
use simple_rv.RegisterFile.ReadWrite.{read_csr-write_rd}
use simple_rv.IssueUnit.Pairing.{ArePairable}
use simple_rv.ExecutionEngine
use simple_rv.ExecutionEngine.Forwarding.{retire, retired}
use simple_rv.CpuCore.{begin_cycle}
use simple_rv.CpuCore.State.{CpuCore}
use simple_rv.CpuCore.WriteBack.{write_back}
use simple_rv.CpuCore.MemoryAccess.{memory_access}
use simple_rv.CpuCore.Execute.{trapped}
use simple_rv.CpuCore.Cycle.{Reaches}
use simple_rv.PipelineRegisters.{PipelineRegisters}
use simple_rv.CpuCore.Ranges.{AreBytes, IsRangedIdEx}
use simple_rv.CpuCore.Ranges.Cycle.{IsWordConfig, memory_access-IsSettled}
use simple_rv.CpuCore.Running.{halts}
use simple_rv.CpuCore.Sequential.{id_ex-IsRangedIdEx, core-IsSound, slot-Carries}
use simple_rv.CpuCore.Commit.Plain.{computes, computes-IsQuiet}
use simple_rv.CpuCore.Commit.Stages.{IsQuietSlot}
use simple_rv.CpuCore.Commit.Results.{
  IsResult, IsResult-IsQuietSlot, retire-complete, first-IsResult, second-IsResult, execute-IsIdle,
  execute-IsAlone,
}
use simple_rv.Isa.{Instruction, IsEncodable, assemble, decoded}
use simple_rv.Isa.Meaning.{value}
use simple_rv.Isa.Sequential.{Carries, complete, read_csr-retired}
use simple_rv.Isa.Pairs.{IsSettled, execute-first, execute-second}
use simple_rv.CpuCore.Commit.Handed.{Next, handed, left, retires_pair, retires_alone}

-- The control registers are read alike before and after general registers are written.
read_csr-complete :
    (i : Instruction) (pc loaded : ℕ) (f : RegisterFile)
    → read_csr (complete i pc loaded f) ≡ read_csr f
read_csr-complete i pc loaded f = fun_ext (λ a. read_csr-write_rd _ _ _ f a)

-- A core that is reached, at the execute stage of a cycle in M-mode and at that of the next.
module _ {config : SystemConfig} {file : Option (List ℕ)} {input : List (Option ℕ)}
    {c d d' : CpuCore} (words : IsWordConfig config) (keys : AreBytes input)
    (reached : Reaches config file input c)
    (accessed : memory_access (write_back (begin_cycle c)) ≡ ok d)
    (machine : d.reg_file.privilege ≡ prv_m) (next : Next d d')
    (h0 : halts d.pipe_regs.mem_wb.slots.lane0 ≡ false)
    (h1 : halts d.pipe_regs.mem_wb.slots.lane1 ≡ false) (i0 i1 : Instruction) (e0 : IsEncodable i0)
    (e1 : IsEncodable i1) (p0 : computes i0 ≡ true) (p1 : computes i1 ≡ true)
    (v0 : d.pipe_regs.id_ex.slots.lane0.valid ≡ true)
    (w0 : d.pipe_regs.id_ex.slots.lane0.instr ≡ assemble i0) where
  abbrev p : PipelineRegisters
  p = d.pipe_regs

  abbrev f : RegisterFile
  f = d.reg_file

  abbrev before : RegisterFile
  before = retired p.mem_wb f

  abbrev pc0 : ℕ
  pc0 = u32 (p.id_ex.pc + 0)

  abbrev pc1 : ℕ
  pc1 = u32 (p.id_ex.pc + 4)

  abbrev x : ExMemBuffer
  x = ExecutionEngine.execute p.id_ex p.ex_mem p.mem_wb f

  abbrev mid : RegisterFile
  mid = complete i0 pc0 0 before

  ranged : IsRangedIdEx p.id_ex
  ranged = id_ex-IsRangedIdEx words keys reached accessed

  settled : IsSettled p.ex_mem p.mem_wb f
  settled = memory_access-IsSettled words keys reached accessed

  c0 : Carries p.id_ex.slots.lane0 i0
  c0 = slot-Carries p.id_ex.slots.lane0 i0 ranged.slots.lane0 v0 (ranged.decoded0 v0) e0 w0

  result0 : IsResult x.slots.lane0 i0 (value i0 pc0 (read_rs1 before) (read_csr f))
  result0 =
      first-IsResult p.id_ex p.ex_mem p.mem_wb f i0 _ p0 c0
        (execute-first p.id_ex p.ex_mem p.mem_wb f settled i0 c0).0

  quiet0 : IsQuietSlot x.slots.lane0
  quiet0 = IsResult-IsQuietSlot x.slots.lane0 i0 _ p0 result0

  same_csrs : read_csr f ≡ read_csr before
  same_csrs = fun_ext (λ a. sym (read_csr-retired p.mem_wb f a))

  done0 : retire x.slots.lane0 before ≡ mid
  done0 = retire-complete x.slots.lane0 i0 pc0 (read_csr f) before p0 same_csrs result0

  no_memory0 : p.id_ex.slots.lane0.d.is_memory ≡ false
  no_memory0 = ap (λ y. y.is_memory) c0.decodes ∙ (computes-IsQuiet i0 p0).no_memory

  completes_alone : p.id_ex.slots.lane1.valid ≡ false → left d' ≡ mid.gpr
  completes_alone v1 =
      let alone = execute-IsAlone p.id_ex p.ex_mem p.mem_wb f ranged v0 no_memory0 v1 in
      let no_trap1 = ap (λ b. b && trapped x.slots.lane1.d) alone.empty1 in
      retires_alone d d' x (handed d d' next machine quiet0 no_trap1 h0 h1) result0.valid alone
      ∙ ap (λ y. y.gpr) done0

  completes_pair :
      p.id_ex.slots.lane1.valid ≡ true
      → p.id_ex.slots.lane1.instr ≡ assemble i1
      → left d' ≡ (complete i1 pc1 0 mid).gpr
  completes_pair v1 w1 =
      let pairable = ((core-IsSound words keys reached accessed).paired v1).1 in
      let c1 =
        slot-Carries p.id_ex.slots.lane1 i1 ranged.slots.lane1 v1 (ranged.decoded1 v1) e1 w1 in
      let pair =
        subst (λ y. ArePairable (decoded i0) y) c1.decodes
          (subst (λ y. ArePairable y p.id_ex.slots.lane1.d) c0.decodes pairable) in
      let result1 : IsResult x.slots.lane1 i1 (value i1 pc1 (read_rs1 mid) (read_csr f)) =
        second-IsResult p.id_ex p.ex_mem p.mem_wb f i1 _ v0 p1 c1
          (execute-second p.id_ex p.ex_mem p.mem_wb f settled i0 c0 i1 c1 pair 0) in
      let no_memory1 = ap (λ y. y.is_memory) c1.decodes ∙ (computes-IsQuiet i1 p1).no_memory in
      let idle = execute-IsIdle p.id_ex p.ex_mem p.mem_wb f ranged v0 no_memory0 v1 no_memory1 in
      let quiet1 = IsResult-IsQuietSlot x.slots.lane1 i1 _ p1 result1 in
      let no_trap1 =
        ap (λ b. x.slots.lane1.valid && b) quiet1.no_trap ∙ ap (λ b. b && false) quiet1.valid in
      let done1 : retire x.slots.lane1 mid ≡ complete i1 pc1 0 mid =
        retire-complete x.slots.lane1 i1 pc1 (read_csr f) mid p1
          (same_csrs ∙ sym (read_csr-complete i0 pc0 0 before)) result1 in
      retires_pair d d' x (handed d d' next machine quiet0 no_trap1 h0 h1) result0.valid
        result1.valid idle
      ∙ ap (λ y. (retire x.slots.lane1 y).gpr) done0
      ∙ ap (λ y. y.gpr) done1

  -- On a core that is reached from a reset with words in its configuration and bytes at its
  -- keyboard, in M-mode, at the execute stage of a cycle: the first slot of ID_EX, or both, hold
  -- LUI, AUIPC or register or immediate arithmetic. If neither slot of MEM_WB halts, then at the
  -- execute stage of the next cycle the general registers that the instructions of MEM_WB leave are
  -- those of a machine that completes the first instruction and then the second, if that one is
  -- valid, from the registers that the instructions of MEM_WB left before. Interrupts may be taken
  -- in between.
  pub cycle-completes :
      (d.pipe_regs.id_ex.slots.lane1.valid ≡ true
        → d.pipe_regs.id_ex.slots.lane1.instr ≡ assemble i1)
      → (r : ℕ)
      → (let pc = d.pipe_regs.id_ex.pc in
          let first_done = complete i0 (u32 (pc + 0)) 0 (retired d.pipe_regs.mem_wb d.reg_file) in
          read_rs1 (retired d'.pipe_regs.mem_wb d'.reg_file) r
          ≡ read_rs1
              (if d.pipe_regs.id_ex.slots.lane1.valid
                then complete i1 (u32 (pc + 4)) 0 first_done
                else first_done)
              r)
  unfolding read_rs1
  cycle-completes w1 r = elim (Bool-cases p.id_ex.slots.lane1.valid) [
    | inl v1 ↦ rw v1 (ap (λ (g : ℕ → ℕ). if r == 0 then 0 else g r) (completes_pair v1 (w1 v1)))
    | inr v1 ↦ rw v1 (ap (λ (g : ℕ → ℕ). if r == 0 then 0 else g r) (completes_alone v1))
  ]
