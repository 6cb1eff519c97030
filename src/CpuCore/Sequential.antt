-- ===== src/CpuCore/Sequential.antt =====
-- A pair of instructions through the stages of `CPUCore::tick` (src/CPUCore.cpp), against a machine
-- that completes them one after the other.
use simple_rv.Prelude.{ℕ, ◌+◌, ◌<◌, ◌≡◌, sym, ap, subst, ◌∙◌, u32, true, Option, List, ok}
use simple_rv.Types.{PipelineSlot, IdExBuffer, second}
use simple_rv.SystemConfig.{SystemConfig}
use simple_rv.RegisterFile.{read_rs1, read_csr}
use simple_rv.IssueUnit.Decode.{decode}
use simple_rv.IssueUnit.Pairing.{ArePairable}
use simple_rv.ExecutionEngine.{execute}
use simple_rv.ExecutionEngine.Forwarding.{retired}
use simple_rv.CpuCore.{begin_cycle}
use simple_rv.CpuCore.State.{CpuCore}
use simple_rv.CpuCore.WriteBack.{write_back}
use simple_rv.CpuCore.MemoryAccess.{memory_access}
use simple_rv.CpuCore.Cycle.{Reaches, Reaches-IsSound}
use simple_rv.CpuCore.Invariant.{IsSound, begin_cycle-IsSound, write_back-IsSound}
use simple_rv.CpuCore.Invariant.Memory.{Ensures, memory_access-IsSound}
use simple_rv.CpuCore.Ranges.{IsRangedSlot, IsRangedIdEx, AreBytes}
use simple_rv.CpuCore.Ranges.Interrupts.{begin_cycle-IsRanged, write_back-IsRanged}
use simple_rv.CpuCore.Ranges.Accesses.{IsAccessed}
use simple_rv.CpuCore.Ranges.Memory.{memory_access-IsAccessed}
use simple_rv.CpuCore.Ranges.Cycle.{IsWordConfig, Reaches-IsRanged, memory_access-IsSettled}
use simple_rv.Isa.{Instruction, IsEncodable, assemble, decoded}
use simple_rv.Isa.Assemble.{decode-assemble}
use simple_rv.Isa.Meaning.{value, next_pc}
use simple_rv.Isa.Engine.{computed, goes_to}
use simple_rv.Isa.Sequential.{Carries, complete}
use simple_rv.Isa.Pairs.{execute-first, execute-second}

pub slot-Carries :
    (s : PipelineSlot) (i : Instruction)
    → IsRangedSlot s
    → s.valid ≡ true
    → s.d ≡ decode s.instr
    → IsEncodable i
    → s.instr ≡ assemble i
    → Carries s i
slot-Carries s i h v d e w = record {
  encodable = e;
  valid = v;
  decodes = d ∙ ap decode w ∙ decode-assemble i e;
  same_rd = h.same_rd;
  same_write = h.same_write;
  in_range = subst (λ r. r < 32) (sym h.same_rd) h.low;
}

-- The core as the execute stage of a cycle finds it.
module _ {config : SystemConfig} {file : Option (List ℕ)} {input : List (Option ℕ)} {c d : CpuCore}
    (words : IsWordConfig config) (keys : AreBytes input) (reached : Reaches config file input c)
    (accessed : memory_access (write_back (begin_cycle c)) ≡ ok d) where
  pub id_ex-IsRangedIdEx : IsRangedIdEx d.pipe_regs.id_ex
  id_ex-IsRangedIdEx =
      let ranged =
        write_back-IsRanged _ (begin_cycle-IsRanged c (Reaches-IsRanged words keys reached)) in
      (subst (Ensures (IsAccessed second)) accessed
        (memory_access-IsAccessed _ ranged)).ranged.latches.id_ex

  pub core-IsSound : IsSound d
  core-IsSound =
      let sound = write_back-IsSound _ (begin_cycle-IsSound c (Reaches-IsSound reached)) in
      subst (Ensures IsSound) accessed (memory_access-IsSound _ sound)

  abbrev b : IdExBuffer
  b = d.pipe_regs.id_ex

  -- In every cycle of a core that is reached from a reset with words in its configuration and bytes
  -- at its keyboard: where the first slot of ID_EX holds the word of an instruction, the engine
  -- computes the number and the next address that the manual gives that instruction in the
  -- registers that the instructions of MEM_WB leave. The next address is that of an instruction that
  -- does not trap.
  pub cycle-executes_first :
      (i0 : Instruction)
      → IsEncodable i0
      → d.pipe_regs.id_ex.slots.lane0.valid ≡ true
      → d.pipe_regs.id_ex.slots.lane0.instr ≡ assemble i0
      → (let p = d.pipe_regs in
          let out = execute p.id_ex p.ex_mem p.mem_wb d.reg_file in
          let pc0 = u32 (p.id_ex.pc + 0) in
          (computed out.slots.lane0
            ≡ value i0 pc0 (read_rs1 (retired p.mem_wb d.reg_file)) (read_csr d.reg_file))
          × (goes_to out.slots.lane0 pc0 ≡ next_pc i0 pc0 (read_rs1 (retired p.mem_wb d.reg_file))))
  cycle-executes_first i0 e0 v0 w0 =
      let p = d.pipe_regs in
      let r = id_ex-IsRangedIdEx in
      execute-first p.id_ex p.ex_mem p.mem_wb d.reg_file
        (memory_access-IsSettled words keys reached accessed) i0
        (slot-Carries p.id_ex.slots.lane0 i0 r.slots.lane0 v0 (r.decoded0 v0) e0 w0)

  -- Where both slots of ID_EX hold the words of instructions and the second is valid, the engine
  -- computes for the second the number that the manual gives it in the registers that a machine has
  -- after it completed the first one on its own, whatever that one loads if it is a load. The core is
  -- reached from a reset with words in its configuration and bytes at its keyboard.
  pub cycle-executes_second :
      (i0 i1 : Instruction)
      → IsEncodable i0
      → IsEncodable i1
      → d.pipe_regs.id_ex.slots.lane1.valid ≡ true
      → d.pipe_regs.id_ex.slots.lane0.instr ≡ assemble i0
      → d.pipe_regs.id_ex.slots.lane1.instr ≡ assemble i1
      → (loaded : ℕ)
      → (let p = d.pipe_regs in
          computed (execute p.id_ex p.ex_mem p.mem_wb d.reg_file).slots.lane1
          ≡ value i1
              (u32 (p.id_ex.pc + 4))
              (read_rs1 (complete i0 (u32 (p.id_ex.pc + 0)) loaded (retired p.mem_wb d.reg_file)))
              (read_csr d.reg_file))
  cycle-executes_second i0 i1 e0 e1 v1 w0 w1 loaded =
      let p = d.pipe_regs in
      let r = id_ex-IsRangedIdEx in
      let (v0, pairable) = core-IsSound.paired v1 in
      let c0 = slot-Carries p.id_ex.slots.lane0 i0 r.slots.lane0 v0 (r.decoded0 v0) e0 w0 in
      let c1 = slot-Carries p.id_ex.slots.lane1 i1 r.slots.lane1 v1 (r.decoded1 v1) e1 w1 in
      execute-second p.id_ex p.ex_mem p.mem_wb d.reg_file
        (memory_access-IsSettled words keys reached accessed) i0 c0 i1 c1
        (subst (λ x. ArePairable (decoded i0) x) c1.decodes
          (subst (λ x. ArePairable x p.id_ex.slots.lane1.d) c0.decodes pairable))
        loaded
