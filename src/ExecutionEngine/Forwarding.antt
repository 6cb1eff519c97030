-- ===== src/ExecutionEngine/Forwarding.antt =====
-- `ExecutionEngine::getOperand` of src/ExecutionEngine.cpp and the register file that the
-- instructions in flight leave behind.
use simple_rv.Prelude.{ℕ, ◌<◌, ◌≡◌, ◌≢◌, arith, true, false, ◌&&◌}
use simple_rv.Types.{PipelineSlot, IdExBuffer, ExMemBuffer, MemWbBuffer, first, second}
use simple_rv.RegisterFile.{RegisterFile, read_rs1, write_rd}
use simple_rv.RegisterFile.ReadWrite.{read_rs1-write_rd}
use simple_rv.ExecutionEngine.{forward_ex_mem, forward_mem_wb, get_operand}

-- What the write-back of a slot does to the register file, but for the two instructions that halt.
unfoldable pub retire : PipelineSlot → RegisterFile → RegisterFile
retire s f = write_rd s.rd s.result (s.valid && s.reg_write) f

-- The register file after the instructions of MEM_WB.
abbrev pub retired : MemWbBuffer → RegisterFile → RegisterFile
retired b f = retire b.slots.lane1 (retire b.slots.lane0 f)

-- A valid instruction in the second slot of EX_MEM stands in MEM_WB too, unless it is a load with
-- another result: only MEM_WB has what was loaded.
pub record Agrees (ex_mem : ExMemBuffer) (mem_wb : MemWbBuffer) : Type 0 where
  pub same_valid : ex_mem.slots.lane1.valid ≡ true → mem_wb.slots.lane1.valid ≡ true
  pub same_write :
      ex_mem.slots.lane1.valid ≡ true
      → mem_wb.slots.lane1.reg_write ≡ ex_mem.slots.lane1.d.reg_write
  pub same_rd : ex_mem.slots.lane1.valid ≡ true → mem_wb.slots.lane1.rd ≡ ex_mem.slots.lane1.d.rd
  pub same_result :
      ex_mem.slots.lane1.valid ≡ true
      → ex_mem.slots.lane1.d.is_memory ≡ false
      → mem_wb.slots.lane1.result ≡ ex_mem.slots.lane1.result

forward_mem_wb-retired :
    (rs : ℕ) (mem_wb : MemWbBuffer) (f : RegisterFile)
    → rs ≢ 0
    → mem_wb.slots.lane0.rd < 32
    → mem_wb.slots.lane1.rd < 32
    → forward_mem_wb rs mem_wb f ≡ read_rs1 (retired mem_wb f) rs
unfolding forward_mem_wb retire
forward_mem_wb-retired rs mem_wb f ne h0 h1 = ground (
  arith,
  read_rs1-write_rd mem_wb.slots.lane1.rd mem_wb.slots.lane1.result
      (mem_wb.slots.lane1.valid && mem_wb.slots.lane1.reg_write) rs (retire mem_wb.slots.lane0 f)
      h1,
  read_rs1-write_rd mem_wb.slots.lane0.rd mem_wb.slots.lane0.result
      (mem_wb.slots.lane0.valid && mem_wb.slots.lane0.reg_write) rs f h0,
)

-- The first slot's operand is what the register holds once the instructions before it, which are
-- in MEM_WB, are retired, when their destinations are below 32 and EX_MEM and MEM_WB agree on the
-- second of them.
pub get_operand-first :
    (rs : ℕ) (id_ex : IdExBuffer) (mem_wb : MemWbBuffer) (f : RegisterFile) (ex_mem : ExMemBuffer)
    → mem_wb.slots.lane0.rd < 32
    → mem_wb.slots.lane1.rd < 32
    → Agrees ex_mem mem_wb
    → get_operand rs id_ex mem_wb f ex_mem first ≡ read_rs1 (retired mem_wb f) rs
unfolding get_operand forward_ex_mem forward_mem_wb read_rs1
get_operand-first rs id_ex mem_wb f ex_mem h0 h1 agrees =
    ground (arith, forward_mem_wb-retired rs mem_wb f)

-- The second slot's operand is what the register holds once the instructions in MEM_WB and then the
-- first slot's instruction of the same cycle are retired, when that instruction is valid, its
-- result stands in EX_MEM, and every destination is below 32.
pub get_operand-second :
    (rs : ℕ) (id_ex : IdExBuffer) (mem_wb : MemWbBuffer) (f : RegisterFile) (ex_mem : ExMemBuffer)
    → mem_wb.slots.lane0.rd < 32
    → mem_wb.slots.lane1.rd < 32
    → ex_mem.slots.lane0.rd < 32
    → ex_mem.slots.lane0.valid ≡ true
    → ex_mem.slots.lane0.reg_write ≡ ex_mem.slots.lane0.d.reg_write
    → ex_mem.slots.lane0.rd ≡ ex_mem.slots.lane0.d.rd
    → get_operand rs id_ex mem_wb f ex_mem second
      ≡ read_rs1 (retire ex_mem.slots.lane0 (retired mem_wb f)) rs
unfolding get_operand forward_ex_mem forward_mem_wb read_rs1 retire
get_operand-second rs id_ex mem_wb f ex_mem h0 h1 h2 valid same_write same_rd = ground (
  arith,
  forward_mem_wb-retired rs mem_wb f,
  read_rs1-write_rd ex_mem.slots.lane0.rd ex_mem.slots.lane0.result
      (ex_mem.slots.lane0.valid && ex_mem.slots.lane0.reg_write) rs (retired mem_wb f) h2,
)
