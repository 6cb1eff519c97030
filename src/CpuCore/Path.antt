-- ===== src/CpuCore/Path.antt =====
-- The addresses that `CPUCore::fetch` and the branch prediction of src/CPUCore.cpp follow.
pub mod Issue
pub mod Stages
pub mod Kept
pub mod Resolve
pub mod Next
pub mod Words
use simple_rv.Prelude.{ℕ, ◌+◌, ◌≡◌, u32, true, ◌&&◌, if◌then◌else◌}
use simple_rv.Types.{IfIdBuffer, IdExBuffer, empty_if_id, empty_id_ex}
use simple_rv.CpuCore.State.{CpuCore}

-- The address of the next instruction that is decoded, with `pc` to be fetched from.
abbrev pub upcoming : IfIdBuffer → ℕ → ℕ
upcoming b pc = if b.slots.lane0.valid then b.pc else pc

-- Where the program is taken to go on behind the instructions of ID_EX.
abbrev pub predicted : IdExBuffer → ℕ
predicted e =
    if e.slots.lane0.d.is_branch && e.slots.lane0.d.predicted_taken
    then e.slots.lane0.jump_target
    else if e.slots.lane1.valid
    then u32 (e.pc + 8)
    else u32 (e.pc + 4)

-- The pc stands behind what waits in IF_ID, and that is where the prediction went.
pub record Follows (b : IfIdBuffer) (e : IdExBuffer) (pc : ℕ) : Type 0 where
  pub fetched :
      b.slots.lane0.valid ≡ true
      → pc ≡ (if b.slots.lane1.valid then u32 (b.pc + 8) else u32 (b.pc + 4))
  pub issued : e.slots.lane0.valid ≡ true → upcoming b pc ≡ predicted e
  pub target :
      e.slots.lane0.valid ≡ true
      → (e.slots.lane0.d.is_branch && e.slots.lane0.d.predicted_taken) ≡ true
      → e.slots.lane0.jump_target ≡ u32 (e.pc + e.slots.lane0.d.imm)

abbrev pub IsFollowing : CpuCore → Type 0
IsFollowing c = Follows c.pipe_regs.if_id c.pipe_regs.id_ex c.pc

-- With empty front latches there is nothing to follow.
pub empty-Follows : (pc : ℕ) → Follows empty_if_id empty_id_ex pc
empty-Follows pc = record { fetched = λ v. cc; issued = λ v. cc; target = λ v. cc }
