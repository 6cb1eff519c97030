-- ===== src/CpuCore/Ranges/Values.antt =====
-- The arithmetic of src/ExecutionEngine.cpp, the decoder of src/IssueUnit.cpp and the status words
-- of src/CPUCore.cpp give words.
use simple_rv.Prelude.{ℕ, ◌<◌, ◌^◌, refl, arith, sym, subst, IsWord, bit_and, complement, asr, ◌>>◌}
use simple_rv.Prelude.Bits.{bit_and-le, bit_or-lt, bit_xor-lt}
use native.Mathlib.Nat.{div-le_self}
use simple_rv.Types.{
  DecodedData, PipelineSlot, Lane, IdExBuffer, ExMemBuffer, MemWbBuffer, mstatus_mpp, mstatus_spp,
}
use simple_rv.RegisterFile.{RegisterFile}
use simple_rv.RegisterFile.Valid.{IsValid, read_rs1-IsWord}
use simple_rv.ExecutionEngine.{get_operand, forward_ex_mem, forward_mem_wb, csr_update}
use simple_rv.ExecutionEngine.Alu.{alu, alu_imm}
use simple_rv.ExecutionEngine.Alu.Signed.{asr-wrap}
use simple_rv.IssueUnit.Decode.{
  decode, decode_instruction, decode_opcode, decode_system, extract_fields, predict, imm_i, imm_s,
  imm_b, imm_u, imm_j,
}
use simple_rv.IssueUnit.Decode.Fields.{decode-InRange}
use simple_rv.CpuCore.Trap.{sstatus_on_trap, mstatus_on_trap}
use simple_rv.CpuCore.Execute.{mstatus_on_mret, sstatus_on_sret}
use simple_rv.CpuCore.Ranges.{IsRangedSlot, IsRangedPair}

pub bit_and-IsWord : (a mask : ℕ) → IsWord mask → IsWord (bit_and a mask)
bit_and-IsWord a mask h = omega (arith, bit_and-le a mask)

shift_right-IsWord : (a k : ℕ) → IsWord a → IsWord (a >> k)
shift_right-IsWord a k h = omega (arith, div-le_self a (2 ^ k))

asr-IsWord : (a k : ℕ) → IsWord a → k < 32 → IsWord (asr a k)
asr-IsWord a k h l = subst IsWord (sym (asr-wrap a k h l)) (ground arith)

bit_and_five_bits : (a : ℕ) → bit_and a 0x1F < 32
bit_and_five_bits a = omega (arith, bit_and-le a 0x1F)

pub alu-IsWord : (funct3 funct7 x y : ℕ) → IsWord x → IsWord y → IsWord (alu funct3 funct7 x y)
unfolding alu
alu-IsWord funct3 funct7 x y h k = ground (
  arith,
  bit_xor-lt 32 x y h k,
  bit_or-lt 32 x y h k,
  bit_and-IsWord x y k,
  asr-IsWord x (bit_and y 0x1F) h (bit_and_five_bits y),
  shift_right-IsWord x (bit_and y 0x1F) h,
)

pub alu_imm-IsWord :
    (funct3 funct7 x y old : ℕ)
    → IsWord x
    → IsWord y
    → IsWord old
    → IsWord (alu_imm funct3 funct7 x y old)
unfolding alu_imm
alu_imm-IsWord funct3 funct7 x y old h k l = ground (
  arith,
  bit_xor-lt 32 x y h k,
  bit_or-lt 32 x y h k,
  bit_and-IsWord x y k,
  asr-IsWord x (bit_and y 0x1F) h (bit_and_five_bits y),
  shift_right-IsWord x (bit_and y 0x1F) h,
)

-- Wherever forwarding finds an operand, it is a word.
pub get_operand-IsWord :
    (rs : ℕ) (id_ex : IdExBuffer) (mem_wb : MemWbBuffer) (f : RegisterFile) (ex_mem : ExMemBuffer)
    (lane : Lane)
    → IsRangedPair ex_mem.slots
    → IsRangedPair mem_wb.slots
    → IsValid f
    → IsWord (get_operand rs id_ex mem_wb f ex_mem lane)
unfolding get_operand forward_ex_mem forward_mem_wb
get_operand-IsWord rs id_ex mem_wb f ex_mem lane h k v = ground (
  arith,
  h.lane0.result_word,
  h.lane1.result_word,
  k.lane0.result_word,
  k.lane1.result_word,
  read_rs1-IsWord rs f v,
)

imm_i-IsWord : (n : ℕ) → IsWord n → IsWord (imm_i n)
unfolding imm_i
imm_i-IsWord n h = asr-IsWord n 20 h (omega arith)

imm_s-IsWord : (n : ℕ) → IsWord (imm_s n)
unfolding imm_s
imm_s-IsWord n = bit_or-lt 32 _ _ (omega arith) (omega (arith, bit_and-le (n >> 7) 0x1F))

imm_u-IsWord : (n : ℕ) → IsWord (imm_u n)
unfolding imm_u
imm_u-IsWord n = bit_and-IsWord n 0xFFFFF000 (omega arith)

imm_b-IsWord : (n : ℕ) → IsWord (imm_b n)
unfolding imm_b
imm_b-IsWord n =
    bit_or-lt 32 _ _ (bit_or-lt 32 _ _ (bit_or-lt 32 _ _ (omega arith) (omega arith)) (omega arith))
      (omega arith)

imm_j-IsWord : (n : ℕ) → IsWord (imm_j n)
unfolding imm_j
imm_j-IsWord n =
    bit_or-lt 32 _ _ (bit_or-lt 32 _ _ (bit_or-lt 32 _ _ (omega arith) (omega arith)) (omega arith))
      (omega arith)

decode-imm-IsWord : (n : ℕ) → IsWord n → IsWord (decode n).imm
unfolding decode decode_opcode decode_system extract_fields predict
decode-imm-IsWord n h =
    ground (arith, imm_i-IsWord n h, imm_s-IsWord n, imm_b-IsWord n, imm_u-IsWord n, imm_j-IsWord n)

pub decode_instruction-IsRangedSlot :
    (s : PipelineSlot) (pc : ℕ) → IsRangedSlot s → IsRangedSlot (decode_instruction s pc)
unfolding decode_instruction
decode_instruction-IsRangedSlot s pc h = record {
  instr_word = h.instr_word;
  result_word = h.result_word;
  target_word = h.target_word;
  csr_word = h.csr_word;
  imm_word = decode-imm-IsWord s.instr h.instr_word;
  low = (decode-InRange s.instr).rd_range;
  same_rd = refl;
  same_write = refl;
}

pub csr_update-IsWord :
    (d : DecodedData) (x old : ℕ) → IsWord x → IsWord old → IsWord (csr_update d x old)
unfolding csr_update
csr_update-IsWord d x old h k = ground (
  arith,
  bit_and-IsWord d.rs1 0x1F (omega arith),
  bit_or-lt 32 old x k h,
  bit_or-lt 32 old (bit_and d.rs1 0x1F) k (bit_and-IsWord d.rs1 0x1F (omega arith)),
  bit_and-IsWord old (complement x) (omega arith),
  bit_and-IsWord old (complement (bit_and d.rs1 0x1F)) (omega arith),
)

pub sstatus_on_trap-IsWord : (v prv : ℕ) → IsWord (sstatus_on_trap v prv)
unfolding sstatus_on_trap
sstatus_on_trap-IsWord v prv =
    bit_or-lt 32 _ _ (bit_and-IsWord _ (complement mstatus_spp) (omega arith)) (omega arith)

pub mstatus_on_trap-IsWord : (v prv : ℕ) → IsWord (mstatus_on_trap v prv)
unfolding mstatus_on_trap
mstatus_on_trap-IsWord v prv =
    bit_or-lt 32 _ _ (bit_and-IsWord _ (complement mstatus_mpp) (omega arith)) (omega arith)

pub mstatus_on_mret-IsWord : (v : ℕ) → IsWord (mstatus_on_mret v)
unfolding mstatus_on_mret
mstatus_on_mret-IsWord v = bit_and-IsWord _ (complement mstatus_mpp) (omega arith)

pub sstatus_on_sret-IsWord : (v : ℕ) → IsWord (sstatus_on_sret v)
unfolding sstatus_on_sret
sstatus_on_sret-IsWord v = bit_and-IsWord _ (complement mstatus_spp) (omega arith)
