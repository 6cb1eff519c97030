-- ===== src/CpuCore/Ranges.antt =====
-- What the fields of `CPUCore` (include/CPUCore.h) and of its latches may hold between the stages
-- of `CPUCore::tick` (src/CPUCore.cpp).
pub mod Values
pub mod Keyboard
pub mod Traps
pub mod Interrupts
pub mod Accesses
pub mod Memory
pub mod Engine
pub mod Execute
pub mod Issue
pub mod Fetch
pub mod Cycle
use simple_rv.Prelude.{
  ℕ, ◌<◌, ◌≡◌, refl, sym, subst, arith, Bool, true, false, IsWord, Option, none, some, List, [],
  ◌∷◌,
}
use simple_rv.Types.{
  PipelineSlot, empty_slot, invalidate, Lanes, both, Lane, first, second, get_lane, set_lane,
  IfIdBuffer, IdExBuffer, ExMemBuffer, MemWbBuffer, empty_if_id, empty_id_ex, empty_ex_mem,
  empty_mem_wb,
}
use simple_rv.RegisterFile.Valid.{IsValid}
use simple_rv.IssueUnit.Decode.{decode}
use simple_rv.PipelineRegisters.{PipelineRegisters, flush}
use simple_rv.MemorySystem.Keyboard.{Host}
use simple_rv.CpuCore.State.{CpuCore, drop_ex_mem}

-- The words of a slot are words, and the copies of its destination agree.
pub record IsRangedSlot (s : PipelineSlot) : Type 0 where
  pub instr_word : IsWord s.instr
  pub result_word : IsWord s.result
  pub target_word : IsWord s.jump_target
  pub csr_word : IsWord s.csr_write_val
  pub imm_word : IsWord s.d.imm
  pub low : s.d.rd < 32
  pub same_rd : s.rd ≡ s.d.rd
  pub same_write : s.reg_write ≡ s.d.reg_write

pub record IsRangedPair (l : Lanes PipelineSlot) : Type 0 where
  pub lane0 : IsRangedSlot l.lane0
  pub lane1 : IsRangedSlot l.lane1

pub record IsRangedIfId (b : IfIdBuffer) : Type 0 where
  pub slots : IsRangedPair b.slots
  pub pc : IsWord b.pc

-- A slot is marked as a load or a store only if it accesses memory, and what is valid is decoded.
pub record IsRangedIdEx (b : IdExBuffer) : Type 0 where
  pub slots : IsRangedPair b.slots
  pub pc : IsWord b.pc
  pub load0 : b.mem_read.lane0 ≡ true → b.slots.lane0.d.is_memory ≡ true
  pub load1 : b.mem_read.lane1 ≡ true → b.slots.lane1.d.is_memory ≡ true
  pub store0 : b.mem_write.lane0 ≡ true → b.slots.lane0.d.is_memory ≡ true
  pub store1 : b.mem_write.lane1 ≡ true → b.slots.lane1.d.is_memory ≡ true
  pub decoded0 : b.slots.lane0.valid ≡ true → b.slots.lane0.d ≡ decode b.slots.lane0.instr
  pub decoded1 : b.slots.lane1.valid ≡ true → b.slots.lane1.d ≡ decode b.slots.lane1.instr

pub record IsRangedExMem (b : ExMemBuffer) : Type 0 where
  pub slots : IsRangedPair b.slots
  pub pc : IsWord b.pc
  pub addr0 : IsWord b.mem_addr.lane0
  pub addr1 : IsWord b.mem_addr.lane1
  pub data0 : IsWord b.mem_data.lane0
  pub data1 : IsWord b.mem_data.lane1
  pub load1 : b.mem_read.lane1 ≡ true → b.slots.lane1.d.is_memory ≡ true

pub record IsRangedLatches (p : PipelineRegisters) : Type 0 where
  pub if_id : IsRangedIfId p.if_id
  pub id_ex : IsRangedIdEx p.id_ex
  pub ex_mem : IsRangedExMem p.ex_mem
  pub mem_wb : IsRangedPair p.mem_wb.slots

-- The keys that are typed are bytes.
abbrev pub AreBytes : List (Option ℕ) → Type 0
AreBytes [] = Unit
AreBytes (none ∷ rest) = AreBytes rest
AreBytes (some ch ∷ rest) = (ch < 256) × AreBytes rest

pub record IsByteHost (h : Host) : Type 0 where
  pub buffered : h.buffered_char < 256
  pub waiting : AreBytes h.input

pub record IsRanged (c : CpuCore) : Type 0 where
  pub latches : IsRangedLatches c.pipe_regs
  pub registers : IsValid c.reg_file
  pub host : IsByteHost c.memory.host
  pub pc : IsWord c.pc

pub empty_slot-IsRangedSlot : IsRangedSlot empty_slot
empty_slot-IsRangedSlot = ground arith

pub empty-IsRangedPair : IsRangedPair (both empty_slot)
empty-IsRangedPair = record { lane0 = empty_slot-IsRangedSlot; lane1 = empty_slot-IsRangedSlot }

pub empty_if_id-IsRangedIfId : IsRangedIfId empty_if_id
empty_if_id-IsRangedIfId = record { slots = empty-IsRangedPair; pc = omega arith }

pub empty_id_ex-IsRangedIdEx : IsRangedIdEx empty_id_ex
empty_id_ex-IsRangedIdEx = record {
  slots = empty-IsRangedPair;
  pc = omega arith;
  load0 = λ e. cc;
  load1 = λ e. cc;
  store0 = λ e. cc;
  store1 = λ e. cc;
  decoded0 = λ e. cc;
  decoded1 = λ e. cc;
}

pub empty_ex_mem-IsRangedExMem : IsRangedExMem empty_ex_mem
empty_ex_mem-IsRangedExMem = record {
  slots = empty-IsRangedPair;
  pc = omega arith;
  addr0 = omega arith;
  addr1 = omega arith;
  data0 = omega arith;
  data1 = omega arith;
  load1 = λ e. cc;
}

pub invalidate-IsRangedSlot : (s : PipelineSlot) → IsRangedSlot s → IsRangedSlot (invalidate s)
invalidate-IsRangedSlot s h = record {
  instr_word = h.instr_word;
  result_word = h.result_word;
  target_word = h.target_word;
  csr_word = h.csr_word;
  imm_word = h.imm_word;
  low = h.low;
  same_rd = h.same_rd;
  same_write = h.same_write;
}

-- The latches after `flush`, alone and with EX_MEM dropped.
pub flush-IsRangedLatches : (p : PipelineRegisters) → IsRangedLatches p → IsRangedLatches (flush p)
unfolding flush
flush-IsRangedLatches p h = record {
  if_id = empty_if_id-IsRangedIfId;
  id_ex = empty_id_ex-IsRangedIdEx;
  ex_mem = h.ex_mem;
  mem_wb = h.mem_wb;
}

pub dropped-IsRangedLatches :
    (p : PipelineRegisters) → IsRangedLatches p → IsRangedLatches (drop_ex_mem (flush p))
unfolding flush
dropped-IsRangedLatches p h = record {
  if_id = empty_if_id-IsRangedIfId;
  id_ex = empty_id_ex-IsRangedIdEx;
  ex_mem = record {
    slots = record {
      lane0 = invalidate-IsRangedSlot p.ex_mem.slots.lane0 h.ex_mem.slots.lane0;
      lane1 = invalidate-IsRangedSlot p.ex_mem.slots.lane1 h.ex_mem.slots.lane1;
    };
    pc = h.ex_mem.pc;
    addr0 = h.ex_mem.addr0;
    addr1 = h.ex_mem.addr1;
    data0 = h.ex_mem.data0;
    data1 = h.ex_mem.data1;
    load1 = h.ex_mem.load1;
  };
  mem_wb = h.mem_wb;
}
