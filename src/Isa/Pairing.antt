-- ===== src/Isa/Pairing.antt =====
-- `IssueUnit::canIssueTogether` of src/IssueUnit.cpp on the decoded words of two instructions,
-- against what the instructions themselves do.
use simple_rv.Prelude.{ℕ, ◌≡◌, ◌≢◌, Bool, true, false, ◌&&◌, ◌||◌, ◌==◌, is_negative}
use simple_rv.Isa.{
  Instruction, reg, imm, shift, load, store, branch, jal, jalr, csr, system, csrrw, csrrs, csrrc,
  ecall, mret, sret,
}

unfoldable pub accesses_memory : Instruction → Bool
accesses_memory (load o rd rs1 v) = true
accesses_memory (store o rs1 rs2 v) = true
accesses_memory _ = false

unfoldable pub changes_flow : Instruction → Bool
changes_flow (branch o rs1 rs2 v) = true
changes_flow (jal rd v) = true
changes_flow (jalr rd rs1 v) = true
changes_flow _ = false

-- The fetch goes on at the target: JAL, and a branch backwards.
unfoldable pub followed : Instruction → Bool
followed (branch o rs1 rs2 v) = is_negative v
followed (jal rd v) = true
followed _ = false

-- The register that a load fills, and 0 if there is none.
unfoldable pub loads_to : Instruction → ℕ
loads_to (load o rd rs1 v) = rd
loads_to _ = 0

unfoldable pub reads_register : Instruction → ℕ → Bool
reads_register (reg o rd rs1 rs2) r = rs1 == r || rs2 == r
reads_register (imm o rd rs1 v) r = rs1 == r
reads_register (shift o rd rs1 v) r = rs1 == r
reads_register (load o rd rs1 v) r = rs1 == r
reads_register (store o rs1 rs2 v) r = rs1 == r || rs2 == r
reads_register (branch o rs1 rs2 v) r = rs1 == r || rs2 == r
reads_register (jalr rd rs1 v) r = rs1 == r
reads_register (csr csrrw rd rs1 a) r = rs1 == r
reads_register (csr csrrs rd rs1 a) r = rs1 == r
reads_register (csr csrrc rd rs1 a) r = rs1 == r
reads_register _ r = false

-- It changes the level of privilege or accesses a control register.
unfoldable pub goes_alone : Instruction → Bool
goes_alone (csr o rd rs1 a) = true
goes_alone (system ecall) = true
goes_alone (system mret) = true
goes_alone (system sret) = true
goes_alone _ = false

-- Two instructions in a row may share a cycle.
pub record MayPair (i0 i1 : Instruction) : Type 0 where
  pub one_access : (accesses_memory i0 && accesses_memory i1) ≡ false
  pub straight : changes_flow i1 ≡ false
  pub in_path : followed i0 ≡ false
  pub no_load_use : loads_to i0 ≢ 0 → reads_register i1 (loads_to i0) ≡ false
  pub alone : (goes_alone i0 ≡ false) × (goes_alone i1 ≡ false)
