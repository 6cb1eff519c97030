-- ===== src/CpuCore/Path/Kept.antt =====
-- What `ExecutionEngine::execute` of src/ExecutionEngine.cpp keeps of a prediction.
use simple_rv.Prelude.{◌+◌, ◌≡◌, refl, sym, ◌∙◌, ap, subst, arith, u32, true}
use simple_rv.Types.{
  DecodedData, PipelineSlot, IdExBuffer, ExMemBuffer, MemWbBuffer, Lane, first, second,
}
use simple_rv.RegisterFile.{RegisterFile}
use simple_rv.ExecutionEngine
use simple_rv.ExecutionEngine.{
  execute_slot, execute_r_type, execute_i_type, execute_jump, execute_branch, execute_csr,
  execute_lane,
}
use simple_rv.CpuCore.Execute.{trapped}
use simple_rv.Isa.{
  Instruction, branch, jal, csr, system, csrrw, csrrs, csrrc, csrrwi, csrrsi, csrrci, ecall, mret,
  sret, decoded, signals, layout,
}
use simple_rv.Isa.Sequential.{shown, execute-lane0, execute-lane1}

-- The execution of a slot keeps its prediction and what may trap.
pub record KeepsPath (s out : PipelineSlot) : Type 0 where
  pub predicted_taken : out.d.predicted_taken ≡ s.d.predicted_taken
  pub same_trapped : trapped out.d ≡ trapped s.d

execute_slot-KeepsPath :
    (s : PipelineSlot) (id_ex : IdExBuffer) (mem_wb : MemWbBuffer) (f : RegisterFile)
    (ex_mem : ExMemBuffer) (lane : Lane)
    → KeepsPath s (execute_slot s id_ex mem_wb f ex_mem lane)
unfolding execute_slot execute_r_type execute_i_type execute_jump execute_branch execute_csr
execute_slot-KeepsPath s id_ex mem_wb f ex_mem lane = ground arith

-- A branch or jump that is predicted to be taken, and is, goes to its pc and offset added.
module _ (s : PipelineSlot) (id_ex : IdExBuffer) (mem_wb : MemWbBuffer) (f : RegisterFile)
    (ex_mem : ExMemBuffer) where
  abbrev output : DecodedData → PipelineSlot
  output d = execute_slot (record s { d = d }) id_ex mem_wb f ex_mem first

  abbrev IsTarget : DecodedData → Type 0
  IsTarget d =
      (d.is_branch ≡ true)
      × ((output d).d.is_branch ≡ true → (output d).jump_target ≡ u32 (u32 (id_ex.pc + 0) + d.imm))

  decoded-IsTarget : (i : Instruction) → (decoded i).predicted_taken ≡ true → IsTarget (decoded i)
  unfolding execute_slot execute_jump execute_branch signals layout
  decoded-IsTarget (branch o rs1 rs2 v) p = (refl, λ b. ground arith)
  decoded-IsTarget (jal rd v) p = (refl, λ b. refl)
  decoded-IsTarget (csr csrrw rd rs1 a) p = cc
  decoded-IsTarget (csr csrrs rd rs1 a) p = cc
  decoded-IsTarget (csr csrrc rd rs1 a) p = cc
  decoded-IsTarget (csr csrrwi rd rs1 a) p = cc
  decoded-IsTarget (csr csrrsi rd rs1 a) p = cc
  decoded-IsTarget (csr csrrci rd rs1 a) p = cc
  decoded-IsTarget (system ecall) p = cc
  decoded-IsTarget (system mret) p = cc
  decoded-IsTarget (system sret) p = cc
  decoded-IsTarget (system o) p = cc
  decoded-IsTarget i p = cc

  pub execute_slot-IsTarget :
      (i : Instruction) → s.d ≡ decoded i → s.d.predicted_taken ≡ true → IsTarget s.d
  execute_slot-IsTarget i e p =
      subst IsTarget (sym e) (decoded-IsTarget i (sym (ap (λ d. d.predicted_taken) e) ∙ p))

-- What the engine makes of ID_EX beside the first slot's result.
pub record KeepsLatch (e : IdExBuffer) (x : ExMemBuffer) : Type 0 where
  pub pc : x.pc ≡ e.pc
  pub first_valid : x.slots.lane0.valid ≡ true
  pub path : KeepsPath e.slots.lane0 x.slots.lane0
  pub second_valid : x.slots.lane1.valid ≡ e.slots.lane1.valid
  pub second_path : e.slots.lane1.valid ≡ true → KeepsPath e.slots.lane1 x.slots.lane1

pub execute-KeepsLatch :
    (e : IdExBuffer) (x : ExMemBuffer) (m : MemWbBuffer) (f : RegisterFile)
    → e.slots.lane0.valid ≡ true
    → KeepsLatch e (ExecutionEngine.execute e x m f)
unfolding ExecutionEngine.execute execute_lane
execute-KeepsLatch e x m f v = record {
  pc = ground arith;
  first_valid = ap (λ s. s.valid) (execute-lane0 e x m f v);
  path =
      let k = execute_slot-KeepsPath e.slots.lane0 e m f x first in
      subst (KeepsPath e.slots.lane0) (sym (execute-lane0 e x m f v))
        (record { predicted_taken = k.predicted_taken; same_trapped = k.same_trapped });
  second_valid = ground arith;
  second_path = λ w.
      let k = execute_slot-KeepsPath e.slots.lane1 e m f (shown e x m f) second in
      subst (KeepsPath e.slots.lane1) (sym (execute-lane1 e x m f v w))
        (record { predicted_taken = k.predicted_taken; same_trapped = k.same_trapped });
}
