-- ===== src/CpuCore/Commit/Stages.antt =====
-- The stages of `CPUCore::tick` (src/CPUCore.cpp) around instructions that only compute.
use simple_rv.Prelude.{
  ℕ, ◌≡◌, refl, sym, ap, ◌∙◌, subst, arith, Bool, true, false, ◌&&◌, not, ◌==◌, if_split,
  if◌then◌else◌, Bool-cases, inl, inr, ltb, ok,
}
use simple_rv.Types.{PipelineSlot, MemWbBuffer, empty_mem_wb, first, second}
use simple_rv.RegisterFile.{RegisterFile, write_rd}
use simple_rv.ExecutionEngine.Forwarding.{retire, retired}
use simple_rv.ExecutionEngine
use simple_rv.CpuCore.State.{CpuCore}
use simple_rv.CpuCore.WriteBack.{ebreak, write_back_slot, write_back}
use simple_rv.CpuCore.MemoryAccess.{access_slot, memory_access, put_mem_wb}
use simple_rv.CpuCore.Execute
use simple_rv.CpuCore.Execute.{
  commit_csr, execute_and_commit, resolve_branch, handle_slot_traps, trapped, commit_sfence,
}
use simple_rv.CpuCore.Running.{halts}
use simple_rv.CpuCore.Commit.Keeps.{Has, write_csr-gpr, write_csr-privilege}

-- A slot behind the engine that asks for no branch and no trap.
pub record IsQuietSlot (s : PipelineSlot) : Type 0 where
  pub valid : s.valid ≡ true
  pub no_branch : s.d.is_branch ≡ false
  pub no_prediction : s.d.predicted_taken ≡ false
  pub no_trap : trapped s.d ≡ false

commit_csr-gpr : (s : PipelineSlot) (f : RegisterFile) → (commit_csr s f).gpr ≡ f.gpr
unfolding commit_csr
commit_csr-gpr s f =
    if_split (λ (r : RegisterFile). r.gpr ≡ f.gpr) (s.valid && s.d.is_csr)
      (λ _. write_csr-gpr s.d.csr_addr s.csr_write_val f) (λ _. refl)

commit_csr-privilege :
    (s : PipelineSlot) (f : RegisterFile) → (commit_csr s f).privilege ≡ f.privilege
unfolding commit_csr
commit_csr-privilege s f =
    if_split (λ (r : RegisterFile). r.privilege ≡ f.privilege) (s.valid && s.d.is_csr)
      (λ _. write_csr-privilege s.d.csr_addr s.csr_write_val f) (λ _. refl)

resolve_branch-quiet :
    (c : CpuCore) → IsQuietSlot c.pipe_regs.ex_mem.slots.lane0 → resolve_branch c ≡ c
unfolding resolve_branch
resolve_branch-quiet c h = rw (h.valid, h.no_branch, h.no_prediction) refl

handle_slot_traps-quiet :
    (c : CpuCore)
    → IsQuietSlot c.pipe_regs.ex_mem.slots.lane0
    → (c.pipe_regs.ex_mem.slots.lane1.valid && trapped c.pipe_regs.ex_mem.slots.lane1.d) ≡ false
    → handle_slot_traps c ≡ c
unfolding handle_slot_traps
handle_slot_traps-quiet c h k = rw (h.valid, h.no_trap, k) refl

execute-same :
    (c : CpuCore)
    → (let x = (execute_and_commit c).pipe_regs.ex_mem in
        IsQuietSlot x.slots.lane0
        → (x.slots.lane1.valid && trapped x.slots.lane1.d) ≡ false
        → Execute.execute c ≡ execute_and_commit c)
unfolding Execute.execute
execute-same c h k =
    ap handle_slot_traps (resolve_branch-quiet (execute_and_commit c) h)
    ∙ handle_slot_traps-quiet (execute_and_commit c) h k

-- The core after the execute stage: what the engine built, and the privilege level of before.
pub execute-quiet :
    (c : CpuCore)
    → (let p = c.pipe_regs in
        let x = ExecutionEngine.execute p.id_ex p.ex_mem p.mem_wb c.reg_file in
        IsQuietSlot x.slots.lane0
        → (x.slots.lane1.valid && trapped x.slots.lane1.d) ≡ false
        → Has x p.mem_wb c.reg_file.gpr (Execute.execute c)
          × ((Execute.execute c).reg_file.privilege ≡ c.reg_file.privilege))
unfolding execute_and_commit
execute-quiet c h k =
    let p = c.pipe_regs in
    let x = ExecutionEngine.execute p.id_ex p.ex_mem p.mem_wb c.reg_file in
    let f = commit_csr x.slots.lane0 c.reg_file in
    let same = execute-same c h k in
    (
      subst (Has x p.mem_wb c.reg_file.gpr) (sym same) (record {
        ex_mem = refl;
        mem_wb = refl;
        gpr = commit_csr-gpr x.slots.lane1 f ∙ commit_csr-gpr x.slots.lane0 c.reg_file;
      }),
      ap (λ d. d.reg_file.privilege) same
          ∙ commit_csr-privilege x.slots.lane1 f
          ∙ commit_csr-privilege x.slots.lane0 c.reg_file,
    )

-- The test for register 0, made twice.
one_gate :
    (w n t : Bool) (written old : RegisterFile)
    → (if w && n then (if n && t then written else old) else old)
      ≡ (if w && n && t then written else old)
one_gate true true t written old = refl
one_gate true false t written old = refl
one_gate false n t written old = refl

write_back_slot-retire :
    (s : PipelineSlot) (c : CpuCore)
    → halts s ≡ false
    → (write_back_slot s c).reg_file ≡ retire s c.reg_file
unfolding write_back_slot retire write_rd
write_back_slot-retire s c h =
    if_split (λ (d : CpuCore). d.reg_file ≡ retire s c.reg_file) s.valid
      (λ v.
        if_split (λ (d : CpuCore). d.reg_file ≡ retire s c.reg_file) (s.instr == ebreak)
          (λ e. absurd (cc))
          λ e.
            if_split (λ (d : CpuCore). d.reg_file ≡ retire s c.reg_file) (s.instr == 0)
              (λ z. absurd (cc)) (λ z. rw v (one_gate s.reg_write (not (s.rd == 0)) _ _ _)))
      (λ v. rw v refl)

-- Instructions that do not halt are written back as they retire.
pub write_back-retired :
    (c : CpuCore)
    → halts c.pipe_regs.mem_wb.slots.lane0 ≡ false
    → halts c.pipe_regs.mem_wb.slots.lane1 ≡ false
    → (write_back c).reg_file ≡ retired c.pipe_regs.mem_wb c.reg_file
unfolding write_back
write_back-retired c h0 h1 =
    let slots = c.pipe_regs.mem_wb.slots in
    write_back_slot-retire slots.lane1 (write_back_slot slots.lane0 c) h1
    ∙ ap (retire slots.lane1) (write_back_slot-retire slots.lane0 c h0)

write_back_slot-latches :
    (s : PipelineSlot) (c : CpuCore) → (write_back_slot s c).pipe_regs ≡ c.pipe_regs
unfolding write_back_slot
write_back_slot-latches s c = ground arith

pub write_back-latches : (c : CpuCore) → (write_back c).pipe_regs ≡ c.pipe_regs
unfolding write_back
write_back-latches c =
    write_back_slot-latches c.pipe_regs.mem_wb.slots.lane1
      (write_back_slot c.pipe_regs.mem_wb.slots.lane0 c)
    ∙ write_back_slot-latches c.pipe_regs.mem_wb.slots.lane0 c

-- Registers that agree before the instructions of a latch retire agree after it.
pub retire-gpr :
    (s : PipelineSlot) (f g : RegisterFile) → f.gpr ≡ g.gpr → (retire s f).gpr ≡ (retire s g).gpr
unfolding retire write_rd
retire-gpr s f g h = elim (Bool-cases (s.valid && s.reg_write && not (s.rd == 0) && ltb s.rd 32)) [
  | inl e ↦ rw e (ap (λ (k : ℕ → ℕ). λ r. if r == s.rd then s.result else k r) h)
  | inr e ↦ rw e h
]

pub retired-gpr :
    (b : MemWbBuffer) (f g : RegisterFile) → f.gpr ≡ g.gpr → (retired b f).gpr ≡ (retired b g).gpr
retired-gpr b f g h = retire-gpr b.slots.lane1 _ _ (retire-gpr b.slots.lane0 f g h)

-- A slot of MEM_WB and one of EX_MEM whose instructions access no memory.
pub memory_access-quiet :
    (c : CpuCore)
    → (let x = c.pipe_regs.ex_mem in
        x.slots.lane0.valid ≡ true
        → x.slots.lane1.valid ≡ true
        → x.mem_read.lane0 ≡ false
        → x.mem_read.lane1 ≡ false
        → x.mem_write.lane0 ≡ false
        → x.mem_write.lane1 ≡ false
        → memory_access c
          ≡ ok (
              put_mem_wb second x.slots.lane1 (
                put_mem_wb first x.slots.lane0
                  (record c { pipe_regs = record (c.pipe_regs) { mem_wb = empty_mem_wb } }))))
unfolding memory_access access_slot
memory_access-quiet c v0 v1 r0 r1 w0 w1 = rw (v0, r0, w0, v1, r1, w1) refl

pub memory_access-alone :
    (c : CpuCore)
    → (let x = c.pipe_regs.ex_mem in
        x.slots.lane0.valid ≡ true
        → x.slots.lane1.valid ≡ false
        → x.mem_read.lane0 ≡ false
        → x.mem_write.lane0 ≡ false
        → memory_access c
          ≡ ok (
              put_mem_wb first x.slots.lane0
                (record c { pipe_regs = record (c.pipe_regs) { mem_wb = empty_mem_wb } })))
unfolding memory_access access_slot
memory_access-alone c v0 v1 r0 w0 = rw (v0, r0, w0, v1) refl
