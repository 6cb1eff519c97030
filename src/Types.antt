-- ===== src/Types.antt =====
-- include/common.h: the decoded instruction, the slots and latches of the pipeline, the
-- statistics and the constants. A field of a C++ array with two elements, one for each issue
-- slot, is a pair of lanes.
mod Slots
mod Constants
mod Stats
pub use Slots.*
pub use Constants.*
pub use Stats.{PipelineStats, no_stats}
unfoldable pub use Stats.{count}
use simple_rv.Prelude.{ℕ, Bool, false}

-- `imm` is the bit pattern of the sign-extended immediate.
pub record DecodedData : Type 0 where
  pub op : ℕ
  pub rs1 : ℕ
  pub rs2 : ℕ
  pub rd : ℕ
  pub funct3 : ℕ
  pub funct7 : ℕ
  pub imm : ℕ
  pub uses_rs1 : Bool
  pub uses_rs2 : Bool
  pub reg_write : Bool
  pub is_memory : Bool
  pub is_branch : Bool
  pub is_ecall : Bool
  pub is_mret : Bool
  pub is_sret : Bool
  pub is_sfence : Bool
  pub is_csr : Bool
  pub is_illegal : Bool
  pub csr_addr : ℕ
  pub predicted_taken : Bool

abbrev pub no_data : DecodedData
no_data = record {
  op = 0;
  rs1 = 0;
  rs2 = 0;
  rd = 0;
  funct3 = 0;
  funct7 = 0;
  imm = 0;
  uses_rs1 = false;
  uses_rs2 = false;
  reg_write = false;
  is_memory = false;
  is_branch = false;
  is_ecall = false;
  is_mret = false;
  is_sret = false;
  is_sfence = false;
  is_csr = false;
  is_illegal = false;
  csr_addr = 0;
  predicted_taken = false;
}

pub record PipelineSlot : Type 0 where
  pub instr : ℕ
  pub d : DecodedData
  pub result : ℕ
  pub rd : ℕ
  pub valid : Bool
  pub reg_write : Bool
  pub jump_target : ℕ
  pub csr_write_val : ℕ

-- `PipelineSlot()`.
abbrev pub empty_slot : PipelineSlot
empty_slot = record {
  instr = 0;
  d = no_data;
  result = 0;
  rd = 0;
  valid = false;
  reg_write = false;
  jump_target = 0;
  csr_write_val = 0;
}

abbrev pub invalidate : PipelineSlot → PipelineSlot
invalidate s = record s { valid = false }

pub record IfIdBuffer : Type 0 where
  pub slots : Lanes PipelineSlot
  pub pc : ℕ
  pub flush : Bool

pub record IdExBuffer : Type 0 where
  pub slots : Lanes PipelineSlot
  pub pc : ℕ
  pub mem_read : Lanes Bool
  pub mem_write : Lanes Bool

pub record ExMemBuffer : Type 0 where
  pub slots : Lanes PipelineSlot
  pub pc : ℕ
  pub mem_addr : Lanes ℕ
  pub mem_data : Lanes ℕ
  pub mem_read : Lanes Bool
  pub mem_write : Lanes Bool

pub record MemWbBuffer : Type 0 where
  pub slots : Lanes PipelineSlot
  pub reg_write : Lanes Bool

abbrev pub empty_if_id : IfIdBuffer
empty_if_id = record { slots = both empty_slot; pc = 0; flush = false }

abbrev pub empty_id_ex : IdExBuffer
empty_id_ex = record {
  slots = both empty_slot;
  pc = 0;
  mem_read = both false;
  mem_write = both false;
}

abbrev pub empty_ex_mem : ExMemBuffer
empty_ex_mem = record {
  slots = both empty_slot;
  pc = 0;
  mem_addr = both 0;
  mem_data = both 0;
  mem_read = both false;
  mem_write = both false;
}

abbrev pub empty_mem_wb : MemWbBuffer
empty_mem_wb = record { slots = both empty_slot; reg_write = both false }
