-- ===== src/CpuCore/Path/Resolve.antt =====
-- The check of the branch and of the traps in `CPUCore::execute` of src/CPUCore.cpp, on a predicted
-- path.
use simple_rv.Prelude.{
  ◌+◌, ◌≡◌, refl, sym, ◌∙◌, ap, subst, arith, u32, true, false, ◌&&◌, if◌then◌else◌, if_split,
}
use simple_rv.Types.{PipelineSlot, IdExBuffer}
use simple_rv.CpuCore.State.{CpuCore}
use simple_rv.CpuCore.Execute.{drop_slot1, resolve_branch, handle_slot_traps, trapped}
use simple_rv.CpuCore.Path.{upcoming, IsFollowing}
use simple_rv.Isa.Engine.{goes_to}
use simple_rv.CpuCore.Path.Kept.{KeepsLatch}

-- The core between the engine and the check of the branch: the prediction for ID_EX is followed.
module _ (c : CpuCore) (kept : KeepsLatch c.pipe_regs.id_ex c.pipe_regs.ex_mem)
    (valid0 : c.pipe_regs.id_ex.slots.lane0.valid ≡ true) (follows : IsFollowing c) where
  abbrev e : IdExBuffer
  e = c.pipe_regs.id_ex

  abbrev out : PipelineSlot
  out = c.pipe_regs.ex_mem.slots.lane0

  -- The core goes on behind the second slot, or where the first one goes to.
  abbrev GoesOn : CpuCore → Type 0
  GoesOn r = upcoming r.pipe_regs.if_id r.pc ≡ (
      if r.pipe_regs.ex_mem.slots.lane1.valid then u32 (e.pc + 8) else goes_to out (u32 (e.pc + 0)))

  -- A taken branch that is predicted goes where fetching went; the first slot of ID_EX was decoded
  -- to it.
  resolve_branch-GoesOn :
      (e.slots.lane0.d.predicted_taken ≡ true
        → (e.slots.lane0.d.is_branch ≡ true)
          × (out.d.is_branch ≡ true → out.jump_target ≡ u32 (u32 (e.pc + 0) + e.slots.lane0.d.imm)))
      → GoesOn (resolve_branch c)
  unfolding resolve_branch
  resolve_branch-GoesOn target =
      let issued = follows.issued valid0 in
      let same = kept.path.predicted_taken in
      if_split GoesOn (out.valid && out.d.is_branch)
        (λ taken.
          if_split GoesOn out.d.predicted_taken
            (λ p.
              let (is_jump, aim) = target (sym same ∙ p) in
              let t = follows.target valid0 (cc) in ground (arith, issued, t, aim (cc)))
            (λ p. ground arith))
        (λ untaken.
          if_split GoesOn (out.valid && out.d.predicted_taken)
            (λ p. ground (arith, kept.pc, kept.first_valid))
            (λ p. ground (arith, issued, same, kept.first_valid, kept.second_valid)))

  -- The check of the branch keeps the first slot, and the second one if it is still there.
  record IsKept (r : CpuCore) : Type 0 where
    first_kept : r.pipe_regs.ex_mem.slots.lane0 ≡ out
    second_kept :
        r.pipe_regs.ex_mem.slots.lane1.valid ≡ true
        → (e.slots.lane1.valid ≡ true)
          × (r.pipe_regs.ex_mem.slots.lane1 ≡ c.pipe_regs.ex_mem.slots.lane1)
    right_path : r.pipe_regs.ex_mem.slots.lane1.valid ≡ true → out.d.is_branch ≡ false

  dropped-IsKept : (r : CpuCore) → r.pipe_regs.ex_mem ≡ drop_slot1 c.pipe_regs.ex_mem → IsKept r
  dropped-IsKept r h = record {
    first_kept = ap (λ x. x.slots.lane0) h;
    second_kept = λ v. absurd (cc (v, ap (λ x. x.slots.lane1.valid) h));
    right_path = λ v. absurd (cc (v, ap (λ x. x.slots.lane1.valid) h));
  }

  resolve_branch-IsKept : IsKept (resolve_branch c)
  unfolding resolve_branch
  resolve_branch-IsKept =
      if_split IsKept (out.valid && out.d.is_branch)
        (λ _.
          if_split IsKept out.d.predicted_taken (λ _. dropped-IsKept _ refl)
            (λ _. dropped-IsKept _ refl))
        (λ untaken.
          if_split IsKept (out.valid && out.d.predicted_taken) (λ _. dropped-IsKept _ refl)
            (λ _. record {
              first_kept = refl;
              second_kept = λ v. (sym kept.second_valid ∙ v, refl);
              right_path = λ v. ground (arith, untaken, kept.first_valid);
            }))

  -- With no slot that traps the core stays where the branch left it.
  untrapped :
      (r : CpuCore)
      → IsKept r
      → trapped e.slots.lane0.d ≡ false
      → (e.slots.lane1.valid ≡ true → trapped e.slots.lane1.d ≡ false)
      → handle_slot_traps r ≡ r
  unfolding handle_slot_traps
  untrapped r k no_trap0 no_trap1 =
      let s0 = r.pipe_regs.ex_mem.slots.lane0 in
      let s1 = r.pipe_regs.ex_mem.slots.lane1 in
      let quiet0 : trapped s0.d ≡ false =
        ap (λ s. trapped s.d) k.first_kept ∙ kept.path.same_trapped ∙ no_trap0 in
      let quiet1 : s1.valid ≡ true → trapped s1.d ≡ false = λ v.
        let (there, same) = k.second_kept v in
        ap (λ s. trapped s.d) same ∙ (kept.second_path there).same_trapped ∙ no_trap1 there in
      if_split (λ x. x ≡ r) s0.valid
        (λ _.
          if_split (λ x. x ≡ r) (trapped s0.d) (λ t. absurd (cc (t, quiet0)))
            (λ _.
              if_split (λ x. x ≡ r) (s1.valid && trapped s1.d)
                (λ t. absurd (ground (arith, t, quiet1))) (λ _. refl)))
        (λ _. refl)

  -- The core after the whole stage, where no slot traps.
  pub execute-GoesOn :
      (e.slots.lane0.d.predicted_taken ≡ true
        → (e.slots.lane0.d.is_branch ≡ true)
          × (out.d.is_branch ≡ true → out.jump_target ≡ u32 (u32 (e.pc + 0) + e.slots.lane0.d.imm)))
      → trapped e.slots.lane0.d ≡ false
      → (e.slots.lane1.valid ≡ true → trapped e.slots.lane1.d ≡ false)
      → (let r = handle_slot_traps (resolve_branch c) in
          GoesOn r
          × (r.pipe_regs.ex_mem.slots.lane1.valid ≡ true
              → goes_to out (u32 (e.pc + 0)) ≡ u32 (u32 (e.pc + 0) + 4)))
  execute-GoesOn target no_trap0 no_trap1 =
      let k = resolve_branch-IsKept in
      subst
        (λ r.
          GoesOn r
          × (r.pipe_regs.ex_mem.slots.lane1.valid ≡ true
              → goes_to out (u32 (e.pc + 0)) ≡ u32 (u32 (e.pc + 0) + 4)))
        (sym (untrapped (resolve_branch c) k no_trap0 no_trap1))
        (resolve_branch-GoesOn target, λ v. rw (k.right_path v) refl)
