-- ===== src/Isa.antt =====
-- The instructions of RV32I with the control register instructions, MRET, SRET and WFI, as the
-- RISC-V manual has them: their names and operands, the words that they are assembled to, and what
-- they compute. None of this is code of the repository; the decoder and the pairing of
-- src/IssueUnit.cpp and the engine of src/ExecutionEngine.cpp are compared with it.
pub mod Formats
pub mod Assemble
pub mod Meaning
pub mod Engine
pub mod Words
pub mod Sequential
pub mod Pairs
pub mod Pairing
use simple_rv.Prelude.{
  ℕ, ◌+◌, ◌*◌, ◌/◌, ◌%◌, ◌^◌, ◌<◌, ◌≡◌, u32, Bool, true, false, not, ◌==◌, ltb, leb, is_negative,
  if◌then◌else◌,
}
use simple_rv.Prelude.Int.{ltb_ℤ}
use simple_rv.Types.{DecodedData, no_data}
use simple_rv.ExecutionEngine.Alu.Signed.{
  AluOp, add, sub, sll, slt, sltu, xor, srl, sra, or, and, funct3_of, funct7_of, meaning, BranchOp,
  beq, bne, blt, bge, bltu, bgeu, branch_funct3, signed,
}
use simple_rv.IssueUnit.Decode.Fields.{Fields, encode}
use simple_rv.IssueUnit.Decode.Immediates.{FitsSigned}

pub data LoadOp : Type 0 where
  lb lh lw lbu lhu : LoadOp

pub data StoreOp : Type 0 where
  sb sh sw : StoreOp

pub data CsrOp : Type 0 where
  csrrw csrrs csrrc csrrwi csrrsi csrrci : CsrOp

pub data SystemOp : Type 0 where
  ecall ebreak sret wfi mret : SystemOp

-- An immediate is the 32-bit pattern of its value; `shamt` is a shift amount. Where a control
-- register instruction has an immediate it stands in the place of `rs1`. SFENCE.VMA
-- is not among them: the decoder does not know its encoding (Assemble).
pub data Instruction : Type 0 where
  reg : AluOp → (rd rs1 rs2 : ℕ) → Instruction
  imm : AluOp → (rd rs1 value : ℕ) → Instruction
  shift : AluOp → (rd rs1 shamt : ℕ) → Instruction
  load : LoadOp → (rd rs1 offset : ℕ) → Instruction
  store : StoreOp → (rs1 rs2 offset : ℕ) → Instruction
  branch : BranchOp → (rs1 rs2 offset : ℕ) → Instruction
  lui : (rd value : ℕ) → Instruction
  auipc : (rd value : ℕ) → Instruction
  jal : (rd offset : ℕ) → Instruction
  jalr : (rd rs1 offset : ℕ) → Instruction
  csr : CsrOp → (rd rs1 addr : ℕ) → Instruction
  system : SystemOp → Instruction
  fence : (rd rs1 rs2 funct7 : ℕ) → Instruction

unfoldable pub load_funct3 : LoadOp → ℕ
load_funct3 lb = 0
load_funct3 lh = 1
load_funct3 lw = 2
load_funct3 lbu = 4
load_funct3 lhu = 5

unfoldable pub store_funct3 : StoreOp → ℕ
store_funct3 sb = 0
store_funct3 sh = 1
store_funct3 sw = 2

unfoldable pub csr_funct3 : CsrOp → ℕ
csr_funct3 csrrw = 1
csr_funct3 csrrs = 2
csr_funct3 csrrc = 3
csr_funct3 csrrwi = 5
csr_funct3 csrrsi = 6
csr_funct3 csrrci = 7

unfoldable pub system_funct12 : SystemOp → ℕ
system_funct12 ecall = 0x000
system_funct12 ebreak = 0x001
system_funct12 sret = 0x102
system_funct12 wfi = 0x105
system_funct12 mret = 0x302

-- The instructions with an immediate that is no shift amount.
unfoldable pub has_imm : AluOp → Bool
has_imm add = true
has_imm slt = true
has_imm sltu = true
has_imm xor = true
has_imm or = true
has_imm and = true
has_imm _ = false

unfoldable pub is_shift : AluOp → Bool
is_shift sll = true
is_shift srl = true
is_shift sra = true
is_shift _ = false

-- Register numbers are below 32 and immediates fit their format.
abbrev pub IsEncodable : Instruction → Type 0
IsEncodable (reg o rd rs1 rs2) = (rd < 32) × (rs1 < 32) × (rs2 < 32)
IsEncodable (imm o rd rs1 v) = (has_imm o ≡ true) × (rd < 32) × (rs1 < 32) × FitsSigned 11 v
IsEncodable (shift o rd rs1 v) = (is_shift o ≡ true) × (rd < 32) × (rs1 < 32) × (v < 32)
IsEncodable (load o rd rs1 v) = (rd < 32) × (rs1 < 32) × FitsSigned 11 v
IsEncodable (store o rs1 rs2 v) = (rs1 < 32) × (rs2 < 32) × FitsSigned 11 v
IsEncodable (branch o rs1 rs2 v) = (rs1 < 32) × (rs2 < 32) × FitsSigned 12 v × (v % 2 ≡ 0)
IsEncodable (lui rd v) = (rd < 32) × (v < 2 ^ 32) × (v % 2 ^ 12 ≡ 0)
IsEncodable (auipc rd v) = (rd < 32) × (v < 2 ^ 32) × (v % 2 ^ 12 ≡ 0)
IsEncodable (jal rd v) = (rd < 32) × FitsSigned 20 v × (v % 2 ≡ 0)
IsEncodable (jalr rd rs1 v) = (rd < 32) × (rs1 < 32) × FitsSigned 11 v
IsEncodable (csr o rd rs1 a) = (rd < 32) × (rs1 < 32) × (a < 2 ^ 12)
IsEncodable (system o) = Unit {0}
IsEncodable (fence rd rs1 rs2 f) = (rd < 32) × (rs1 < 32) × (rs2 < 32) × (f < 128)

-- The six fields of each format, with the bits of the immediate where the manual puts them.
abbrev pub r_type : ℕ → ℕ → ℕ → ℕ → ℕ → ℕ → Fields
r_type op rd funct3 rs1 rs2 funct7 = record {
  op = op;
  rd = rd;
  funct3 = funct3;
  rs1 = rs1;
  rs2 = rs2;
  funct7 = funct7;
}

abbrev pub i_type : ℕ → ℕ → ℕ → ℕ → ℕ → Fields
i_type op rd funct3 rs1 v = r_type op rd funct3 rs1 (v % 2 ^ 5) (v / 2 ^ 5 % 2 ^ 7)

abbrev pub s_type : ℕ → ℕ → ℕ → ℕ → ℕ → Fields
s_type op funct3 rs1 rs2 v = r_type op (v % 2 ^ 5) funct3 rs1 rs2 (v / 2 ^ 5 % 2 ^ 7)

abbrev pub b_type : ℕ → ℕ → ℕ → ℕ → ℕ → Fields
b_type op funct3 rs1 rs2 v =
    r_type op (v / 2 ^ 11 % 2 + v / 2 % 2 ^ 4 * 2) funct3 rs1 rs2
      (v / 2 ^ 5 % 2 ^ 6 + v / 2 ^ 12 % 2 * 2 ^ 6)

abbrev pub u_type : ℕ → ℕ → ℕ → Fields
u_type op rd v =
    r_type op rd (v / 2 ^ 12 % 2 ^ 3) (v / 2 ^ 15 % 2 ^ 5) (v / 2 ^ 20 % 2 ^ 5) (v / 2 ^ 25 % 2 ^ 7)

abbrev pub j_type : ℕ → ℕ → ℕ → Fields
j_type op rd v =
    r_type op rd (v / 2 ^ 12 % 2 ^ 3) (v / 2 ^ 15 % 2 ^ 5) (v / 2 ^ 11 % 2 + v / 2 % 2 ^ 4 * 2)
      (v / 2 ^ 5 % 2 ^ 6 + v / 2 ^ 20 % 2 * 2 ^ 6)

unfoldable pub layout : Instruction → Fields
unfolding funct3_of funct7_of branch_funct3 load_funct3 store_funct3 csr_funct3 system_funct12
layout (reg o rd rs1 rs2) = r_type 0x33 rd (funct3_of o) rs1 rs2 (funct7_of o)
layout (imm o rd rs1 v) = i_type 0x13 rd (funct3_of o) rs1 v
layout (shift o rd rs1 v) = r_type 0x13 rd (funct3_of o) rs1 v (funct7_of o)
layout (load o rd rs1 v) = i_type 0x03 rd (load_funct3 o) rs1 v
layout (store o rs1 rs2 v) = s_type 0x23 (store_funct3 o) rs1 rs2 v
layout (branch o rs1 rs2 v) = b_type 0x63 (branch_funct3 o) rs1 rs2 v
layout (lui rd v) = u_type 0x37 rd v
layout (auipc rd v) = u_type 0x17 rd v
layout (jal rd v) = j_type 0x6F rd v
layout (jalr rd rs1 v) = i_type 0x67 rd 0 rs1 v
layout (csr o rd rs1 a) = i_type 0x73 rd (csr_funct3 o) rs1 a
layout (system o) = i_type 0x73 0 0 0 (system_funct12 o)
layout (fence rd rs1 rs2 f) = r_type 0x0F rd 0 rs1 rs2 f

-- SFENCE.VMA.
abbrev pub sfence_vma : ℕ → ℕ → Fields
sfence_vma rs1 rs2 = r_type 0x73 0 0 rs1 rs2 0x09

-- The word of an instruction.
abbrev pub assemble : Instruction → ℕ
assemble i = encode (layout i)

-- The fields alone, with every control signal off.
abbrev pub raw : Fields → DecodedData
raw f = record no_data {
  op = f.op;
  rd = f.rd;
  funct3 = f.funct3;
  rs1 = f.rs1;
  rs2 = f.rs2;
  funct7 = f.funct7;
}

-- The control signals that an instruction needs: which registers it reads, whether it writes one,
-- its immediate, its class, and the static prediction (backward taken, forward not taken).
unfoldable pub signals : Instruction → DecodedData → DecodedData
unfolding funct7_of
signals (reg o rd rs1 rs2) d = record d { uses_rs1 = true; uses_rs2 = true; reg_write = true }
signals (imm o rd rs1 v) d = record d { uses_rs1 = true; reg_write = true; imm = v }
signals (shift o rd rs1 v) d = record d {
  uses_rs1 = true;
  reg_write = true;
  imm = v + funct7_of o * 2 ^ 5;
}
signals (load o rd rs1 v) d = record d {
  uses_rs1 = true;
  reg_write = true;
  is_memory = true;
  imm = v;
}
signals (store o rs1 rs2 v) d = record d {
  uses_rs1 = true;
  uses_rs2 = true;
  is_memory = true;
  imm = v;
}
signals (branch o rs1 rs2 v) d = record d {
  uses_rs1 = true;
  uses_rs2 = true;
  is_branch = true;
  imm = v;
  predicted_taken = is_negative v;
}
signals (lui rd v) d = record d { reg_write = true; imm = v }
signals (auipc rd v) d = record d { reg_write = true; imm = v }
signals (jal rd v) d = record d {
  reg_write = true;
  is_branch = true;
  imm = v;
  predicted_taken = true;
}
signals (jalr rd rs1 v) d = record d {
  uses_rs1 = true;
  reg_write = true;
  is_branch = true;
  imm = v;
}
signals (csr csrrw rd rs1 a) d = record d {
  is_csr = true;
  csr_addr = a;
  reg_write = not (rd == 0);
  uses_rs1 = true;
}
signals (csr csrrs rd rs1 a) d = record d {
  is_csr = true;
  csr_addr = a;
  reg_write = not (rd == 0);
  uses_rs1 = true;
}
signals (csr csrrc rd rs1 a) d = record d {
  is_csr = true;
  csr_addr = a;
  reg_write = not (rd == 0);
  uses_rs1 = true;
}
signals (csr _ rd rs1 a) d = record d { is_csr = true; csr_addr = a; reg_write = not (rd == 0) }
signals (system ecall) d = record d { is_ecall = true }
signals (system mret) d = record d { is_mret = true }
signals (system sret) d = record d { is_sret = true }
signals (system ebreak) d = d
signals (system wfi) d = d
signals (fence rd rs1 rs2 f) d = d

-- What a decoder should make of an instruction.
abbrev pub decoded : Instruction → DecodedData
decoded i = signals i (raw (layout i))
