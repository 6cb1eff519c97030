-- ===== src/CpuCore/Commit/Results.antt =====
-- What `ExecutionEngine::execute` of src/ExecutionEngine.cpp makes of an instruction that only
-- computes.
use simple_rv.Prelude.{ℕ, ◌≡◌, refl, sym, ap, ◌∙◌, subst, arith, Bool, true, false}
use simple_rv.Types.{PipelineSlot, IdExBuffer, ExMemBuffer, MemWbBuffer, Lane, first, second}
use simple_rv.RegisterFile.{RegisterFile, read_rs1, read_csr}
use simple_rv.ExecutionEngine.{execute_slot, execute_lane, execute}
use simple_rv.ExecutionEngine.Forwarding.{retire}
use simple_rv.CpuCore.Ranges.{IsRangedIdEx}
use simple_rv.CpuCore.Commit.Plain.{computes, execute_slot-d, IsQuiet, computes-IsQuiet}
use simple_rv.CpuCore.Commit.Stages.{IsQuietSlot}
use simple_rv.Isa.{Instruction, decoded}
use simple_rv.Isa.Meaning.{value}
use simple_rv.Isa.Engine.{computed}
use simple_rv.Isa.Sequential.{
  Carries, execute_slot-Keeps, complete, execute-lane0, execute-lane1, shown,
}

-- A slot behind the engine that holds an instruction and its number.
pub record IsResult (s : PipelineSlot) (i : Instruction) (v : ℕ) : Type 0 where
  pub valid : s.valid ≡ true
  pub d : s.d ≡ decoded i
  pub rd : s.rd ≡ (decoded i).rd
  pub reg_write : s.reg_write ≡ (decoded i).reg_write
  pub result : s.result ≡ v

pub IsResult-IsQuietSlot :
    (s : PipelineSlot) (i : Instruction) (v : ℕ)
    → computes i ≡ true
    → IsResult s i v
    → IsQuietSlot s
IsResult-IsQuietSlot s i v h k =
    let q : IsQuiet s.d = subst IsQuiet (sym k.d) (computes-IsQuiet i h) in
    record {
      valid = k.valid;
      no_branch = q.no_branch;
      no_prediction = q.no_prediction;
      no_trap = q.no_trap;
    }

-- To retire the slot is to complete the instruction.
pub retire-complete :
    (s : PipelineSlot) (i : Instruction) (pc : ℕ) (k : ℕ → ℕ) (f : RegisterFile)
    → computes i ≡ true
    → k ≡ read_csr f
    → IsResult s i (value i pc (read_rs1 f) k)
    → retire s f ≡ complete i pc 0 f
unfolding retire
retire-complete s i pc k f h e r =
    let q = computes-IsQuiet i h in rw (r.valid, r.rd, r.reg_write, r.result, q.no_memory, e) refl

-- The slot that the engine builds from a slot of ID_EX.
pub out-IsResult :
    (i : Instruction) (s : PipelineSlot) (id_ex : IdExBuffer) (mem_wb : MemWbBuffer)
    (f : RegisterFile) (ex_mem : ExMemBuffer) (lane : Lane) (v : ℕ)
    → computes i ≡ true
    → Carries s i
    → (let out = record (execute_slot s id_ex mem_wb f ex_mem lane) { valid = true } in
        computed out ≡ v → IsResult out i v)
out-IsResult i s id_ex mem_wb f ex_mem lane v h c e =
    let q = computes-IsQuiet i h in
    let k = execute_slot-Keeps s id_ex mem_wb f ex_mem lane in
    let d : (execute_slot s id_ex mem_wb f ex_mem lane).d ≡ decoded i =
      subst (λ x. (execute_slot (record s { d = x }) id_ex mem_wb f ex_mem lane).d ≡ decoded i)
        (sym c.decodes) (execute_slot-d i s id_ex mem_wb f ex_mem lane h) in
    record {
      valid = refl;
      d = d;
      rd = k.rd ∙ c.same_rd ∙ ap (λ x. x.rd) c.decodes;
      reg_write = k.reg_write ∙ c.same_write ∙ ap (λ x. x.reg_write) c.decodes;
      result = ground (arith, q.writes);
    }

-- The engine marks no access for instructions that only compute.
pub record IsIdle (x : ExMemBuffer) : Type 0 where
  pub read0 : x.mem_read.lane0 ≡ false
  pub read1 : x.mem_read.lane1 ≡ false
  pub write0 : x.mem_write.lane0 ≡ false
  pub write1 : x.mem_write.lane1 ≡ false

pub record IsAlone (x : ExMemBuffer) : Type 0 where
  pub read0 : x.mem_read.lane0 ≡ false
  pub write0 : x.mem_write.lane0 ≡ false
  pub empty1 : x.slots.lane1.valid ≡ false

unmarked : (b m : Bool) → (b ≡ true → m ≡ true) → m ≡ false → b ≡ false
unmarked true m h e = sym (h refl) ∙ e
unmarked false m h e = refl

module _ (id_ex : IdExBuffer) (ex_mem : ExMemBuffer) (mem_wb : MemWbBuffer) (f : RegisterFile)
    (r : IsRangedIdEx id_ex) (v0 : id_ex.slots.lane0.valid ≡ true)
    (m0 : id_ex.slots.lane0.d.is_memory ≡ false) where
  pub execute-IsIdle :
      id_ex.slots.lane1.valid ≡ true
      → id_ex.slots.lane1.d.is_memory ≡ false
      → IsIdle (execute id_ex ex_mem mem_wb f)
  unfolding execute execute_lane
  execute-IsIdle v1 m1 =
      let r0 = unmarked id_ex.mem_read.lane0 _ r.load0 m0 in
      let r1 = unmarked id_ex.mem_read.lane1 _ r.load1 m1 in
      let w0 = unmarked id_ex.mem_write.lane0 _ r.store0 m0 in
      let w1 = unmarked id_ex.mem_write.lane1 _ r.store1 m1 in
      rw (v0, v1) (record { read0 = r0; read1 = r1; write0 = w0; write1 = w1 })

  -- An instruction alone leaves the second slot empty.
  pub execute-IsAlone : id_ex.slots.lane1.valid ≡ false → IsAlone (execute id_ex ex_mem mem_wb f)
  unfolding execute execute_lane
  execute-IsAlone v1 =
      let r0 = unmarked id_ex.mem_read.lane0 _ r.load0 m0 in
      let w0 = unmarked id_ex.mem_write.lane0 _ r.store0 m0 in
      rw (v0, v1) (record { read0 = r0; write0 = w0; empty1 = refl })

pub first-IsResult :
    (id_ex : IdExBuffer) (ex_mem : ExMemBuffer) (mem_wb : MemWbBuffer) (f : RegisterFile)
    (i : Instruction) (v : ℕ)
    → computes i ≡ true
    → Carries id_ex.slots.lane0 i
    → computed (execute id_ex ex_mem mem_wb f).slots.lane0 ≡ v
    → IsResult (execute id_ex ex_mem mem_wb f).slots.lane0 i v
first-IsResult id_ex ex_mem mem_wb f i v h c e =
    let lane = execute-lane0 id_ex ex_mem mem_wb f c.valid in
    subst (λ s. IsResult s i v) (sym lane)
      (out-IsResult i id_ex.slots.lane0 id_ex mem_wb f ex_mem first v h c
        (ap computed (sym lane) ∙ e))

pub second-IsResult :
    (id_ex : IdExBuffer) (ex_mem : ExMemBuffer) (mem_wb : MemWbBuffer) (f : RegisterFile)
    (i : Instruction) (v : ℕ)
    → id_ex.slots.lane0.valid ≡ true
    → computes i ≡ true
    → Carries id_ex.slots.lane1 i
    → computed (execute id_ex ex_mem mem_wb f).slots.lane1 ≡ v
    → IsResult (execute id_ex ex_mem mem_wb f).slots.lane1 i v
second-IsResult id_ex ex_mem mem_wb f i v v0 h c e =
    let lane = execute-lane1 id_ex ex_mem mem_wb f v0 c.valid in
    subst (λ s. IsResult s i v) (sym lane)
      (out-IsResult i id_ex.slots.lane1 id_ex mem_wb f (shown id_ex ex_mem mem_wb f) second v h c
        (ap computed (sym lane) ∙ e))
