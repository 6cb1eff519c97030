-- ===== src/CpuCore/Path/Next.antt =====
-- `CPUCore::execute` of src/CPUCore.cpp against the manual: where the pipeline goes on behind an
-- instruction.
use simple_rv.Prelude.{
  ℕ, ◌+◌, ◌≡◌, sym, ◌∙◌, ap, subst, arith, u32, true, false, if◌then◌else◌, Option, List, ok,
}
use simple_rv.SystemConfig.{SystemConfig}
use simple_rv.RegisterFile.{read_rs1}
use simple_rv.ExecutionEngine.Forwarding.{retired}
use simple_rv.CpuCore.{begin_cycle}
use simple_rv.CpuCore.State.{CpuCore}
use simple_rv.CpuCore.WriteBack.{write_back}
use simple_rv.CpuCore.MemoryAccess.{memory_access}
use simple_rv.CpuCore.Execute
use simple_rv.CpuCore.Execute.{
  execute_and_commit, drop_slot1, resolve_branch, handle_slot_traps, trapped,
}
use simple_rv.CpuCore.Cycle.{Reaches}
use simple_rv.CpuCore.Ranges.{AreBytes}
use simple_rv.CpuCore.Ranges.Cycle.{IsWordConfig}
use simple_rv.CpuCore.Sequential.{
  core-IsSound, cycle-executes_first, slot-Carries, id_ex-IsRangedIdEx,
}
use simple_rv.CpuCore.Path.{upcoming, Follows, IsFollowing, empty-Follows}
use simple_rv.CpuCore.Path.Stages.{memory_access-IsFollowing, Reaches-IsFollowing}
use simple_rv.CpuCore.Front.{begin_cycle-Front, write_back-Front}
use simple_rv.CpuCore.Invariant.Memory.{Ensures}
use simple_rv.Isa.{Instruction, IsEncodable, assemble, decoded}
use simple_rv.Isa.Meaning.{next_pc}
use simple_rv.Isa.Sequential.{execute-lane0}
use simple_rv.CpuCore.Path.Kept.{execute_slot-IsTarget, execute-KeepsLatch}
use simple_rv.CpuCore.Path.Resolve.{execute-GoesOn}

module _ {config : SystemConfig} {file : Option (List ℕ)} {input : List (Option ℕ)} {c d : CpuCore}
    (words : IsWordConfig config) (keys : AreBytes input) (reached : Reaches config file input c)
    (accessed : memory_access (write_back (begin_cycle c)) ≡ ok d) where
  core-IsFollowing : IsFollowing d
  core-IsFollowing =
      let h = begin_cycle-Front Follows empty-Follows c (Reaches-IsFollowing reached) in
      let w = write_back-Front Follows empty-Follows _ h in
      subst (Ensures IsFollowing) accessed (memory_access-IsFollowing _ w)

  -- In every cycle of a core that is reached from a reset with words in its configuration and bytes
  -- at its keyboard, where the first slot of ID_EX holds the word of an instruction that neither
  -- traps nor returns from a trap, and the second slot is no illegal instruction: after the execute
  -- stage, the address of the next instruction to be decoded is that of the instruction that
  -- follows in the program. This is the manual's next address of the first slot's instruction, in the
  -- registers that the instructions of MEM_WB leave, however the branch was predicted. Where the
  -- second slot's instruction goes on as well, it is the one at that next address, and what is
  -- decoded next stands behind it.
  pub cycle-goes_on :
      (i0 : Instruction)
      → IsEncodable i0
      → trapped (decoded i0) ≡ false
      → d.pipe_regs.id_ex.slots.lane0.valid ≡ true
      → d.pipe_regs.id_ex.slots.lane0.instr ≡ assemble i0
      → (d.pipe_regs.id_ex.slots.lane1.valid ≡ true
          → d.pipe_regs.id_ex.slots.lane1.d.is_illegal ≡ false)
      → (let p = d.pipe_regs in
          let e = Execute.execute d in
          let pc0 = u32 (p.id_ex.pc + 0) in
          let next = next_pc i0 pc0 (read_rs1 (retired p.mem_wb d.reg_file)) in
          (upcoming e.pipe_regs.if_id e.pc
            ≡ (if e.pipe_regs.ex_mem.slots.lane1.valid then u32 (p.id_ex.pc + 8) else next))
          × (e.pipe_regs.ex_mem.slots.lane1.valid ≡ true → next ≡ u32 (pc0 + 4)))
  unfolding Execute.execute execute_and_commit
  cycle-goes_on i0 e0 quiet v0 w0 legal =
      let p = d.pipe_regs in
      let r = id_ex-IsRangedIdEx words keys reached accessed in
      let carried = slot-Carries p.id_ex.slots.lane0 i0 r.slots.lane0 v0 (r.decoded0 v0) e0 w0 in
      let follows = core-IsFollowing in
      let first_next = (cycle-executes_first words keys reached accessed i0 e0 v0 w0).1 in
      let lane = execute-lane0 p.id_ex p.ex_mem p.mem_wb d.reg_file v0 in
      let e = handle_slot_traps (resolve_branch (execute_and_commit d)) in
      let on =
        execute-GoesOn (execute_and_commit d)
          (execute-KeepsLatch p.id_ex p.ex_mem p.mem_wb d.reg_file v0) v0 follows
          (λ t.
            let (is_jump, aim) =
              execute_slot-IsTarget p.id_ex.slots.lane0 p.id_ex p.mem_wb d.reg_file p.ex_mem i0
                carried.decodes t in
            (
              is_jump,
              λ b. ap (λ s. s.jump_target) lane ∙ aim (sym (ap (λ s. s.d.is_branch) lane) ∙ b),
            ))
          (ap trapped carried.decodes ∙ quiet)
          (λ v.
            let (w, pairable) = (core-IsSound words keys reached accessed).paired v in
            ground (arith, pairable.system_alone, legal v)) in
      (
        subst
            (λ n.
              upcoming e.pipe_regs.if_id e.pc
              ≡ (if e.pipe_regs.ex_mem.slots.lane1.valid then u32 (p.id_ex.pc + 8) else n))
            first_next on.0,
        λ v. sym first_next ∙ on.1 v,
      )
