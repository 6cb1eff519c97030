-- ===== src/CpuCore/Commit/Plain.antt =====
-- The instructions that only compute: the engine changes nothing of them but the result.
use simple_rv.Prelude.{arith, ◌≡◌, refl, Bool, true, false}
use simple_rv.Types.{PipelineSlot, IdExBuffer, MemWbBuffer, ExMemBuffer, Lane, DecodedData}
use simple_rv.RegisterFile.{RegisterFile}
use simple_rv.ExecutionEngine.{execute_slot, execute_r_type, execute_i_type}
use simple_rv.CpuCore.Execute.{trapped}
use simple_rv.Isa.{Instruction, reg, imm, shift, lui, auipc, decoded, layout, signals}

unfoldable pub computes : Instruction → Bool
computes (reg o rd rs1 rs2) = true
computes (imm o rd rs1 v) = true
computes (shift o rd rs1 v) = true
computes (lui rd v) = true
computes (auipc rd v) = true
computes _ = false

pub execute_slot-d :
    (i : Instruction) (s : PipelineSlot) (id_ex : IdExBuffer) (mem_wb : MemWbBuffer)
    (f : RegisterFile) (ex_mem : ExMemBuffer) (lane : Lane)
    → computes i ≡ true
    → (execute_slot (record s { d = decoded i }) id_ex mem_wb f ex_mem lane).d ≡ decoded i
unfolding computes execute_slot execute_r_type execute_i_type signals layout
execute_slot-d (reg o rd rs1 rs2) s id_ex mem_wb f ex_mem lane h = refl
execute_slot-d (imm o rd rs1 v) s id_ex mem_wb f ex_mem lane h = refl
execute_slot-d (shift o rd rs1 v) s id_ex mem_wb f ex_mem lane h = refl
execute_slot-d (lui rd v) s id_ex mem_wb f ex_mem lane h = refl
execute_slot-d (auipc rd v) s id_ex mem_wb f ex_mem lane h = refl
execute_slot-d _ s id_ex mem_wb f ex_mem lane h = absurd (cc)

-- What the core's tests after the engine look at.
pub record IsQuiet (d : DecodedData) : Type 0 where
  pub no_branch : d.is_branch ≡ false
  pub no_prediction : d.predicted_taken ≡ false
  pub no_memory : d.is_memory ≡ false
  pub no_trap : trapped d ≡ false
  pub writes : d.reg_write ≡ true

pub computes-IsQuiet : (i : Instruction) → computes i ≡ true → IsQuiet (decoded i)
unfolding computes signals layout
computes-IsQuiet (reg o rd rs1 rs2) h = ground arith
computes-IsQuiet (imm o rd rs1 v) h = ground arith
computes-IsQuiet (shift o rd rs1 v) h = ground arith
computes-IsQuiet (lui rd v) h = ground arith
computes-IsQuiet (auipc rd v) h = ground arith
computes-IsQuiet _ h = absurd (cc)
