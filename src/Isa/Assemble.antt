-- ===== src/Isa/Assemble.antt =====
-- `IssueUnit::decodeInstruction` of src/IssueUnit.cpp on the words of all instructions.
use simple_rv.Prelude.{ℕ, ◌+◌, ◌*◌, ◌^◌, ◌<◌, ◌≡◌, ap, ◌∙◌, arith, bit_and, ◌>>◌, true, ◌≤◌, inl}
use simple_rv.Prelude.Bits.{bit_and-low}
use simple_rv.IssueUnit.Decode.{
  decode, extract_fields, decode_opcode, decode_system, predict, imm_i,
}
use simple_rv.IssueUnit.Decode.Fields.{InRange, encode, extract_fields-encode}
use simple_rv.IssueUnit.Decode.Immediates.{place_i, imm_i-place}
use simple_rv.Isa.Formats.{imm_i-encode, imm_s-encode, imm_b-encode, imm_u-encode, imm_j-encode}
use simple_rv.ExecutionEngine.Alu.Signed.{
  AluOp, BranchOp, add, beq, funct3_of, funct7_of, branch_funct3,
}
use simple_rv.Isa.{
  Instruction, reg, imm, shift, load, store, branch, lui, auipc, jal, jalr, csr, system, fence,
  LoadOp, lb, StoreOp, sb, CsrOp, csrrw, SystemOp, ecall, IsEncodable, layout, assemble, raw,
  i_type, signals, decoded, load_funct3, store_funct3, csr_funct3, system_funct12, sfence_vma,
}

funct3_of-lt : (o : AluOp) → funct3_of o < 8
unfolding funct3_of
funct3_of-lt add = omega arith
funct3_of-lt _ = omega arith

funct7_of-lt : (o : AluOp) → funct7_of o < 128
unfolding funct7_of
funct7_of-lt add = omega arith
funct7_of-lt _ = omega arith

branch_funct3-lt : (o : BranchOp) → branch_funct3 o < 8
unfolding branch_funct3
branch_funct3-lt beq = omega arith
branch_funct3-lt _ = omega arith

load_funct3-lt : (o : LoadOp) → load_funct3 o < 8
unfolding load_funct3
load_funct3-lt lb = omega arith
load_funct3-lt _ = omega arith

store_funct3-lt : (o : StoreOp) → store_funct3 o < 8
unfolding store_funct3
store_funct3-lt sb = omega arith
store_funct3-lt _ = omega arith

csr_funct3-lt : (o : CsrOp) → csr_funct3 o < 8
unfolding csr_funct3
csr_funct3-lt csrrw = omega arith
csr_funct3-lt _ = omega arith

layout-InRange : (i : Instruction) → IsEncodable i → InRange (layout i)
unfolding layout
layout-InRange (reg o rd rs1 rs2) h = omega (arith, funct3_of-lt o, funct7_of-lt o)
layout-InRange (imm o rd rs1 v) h = omega (arith, funct3_of-lt o)
layout-InRange (shift o rd rs1 v) h = omega (arith, funct3_of-lt o, funct7_of-lt o)
layout-InRange (load o rd rs1 v) h = omega (arith, load_funct3-lt o)
layout-InRange (store o rs1 rs2 v) h = omega (arith, store_funct3-lt o)
layout-InRange (branch o rs1 rs2 v) h = omega (arith, branch_funct3-lt o)
layout-InRange (lui rd v) h = omega arith
layout-InRange (auipc rd v) h = omega arith
layout-InRange (jal rd v) h = omega arith
layout-InRange (jalr rd rs1 v) h = omega arith
layout-InRange (csr o rd rs1 a) h = omega (arith, csr_funct3-lt o)
layout-InRange (system o) h = omega arith
layout-InRange (fence rd rs1 rs2 f) h = omega arith

decode-raw :
    (i : Instruction)
    → IsEncodable i
    → decode (assemble i) ≡ predict (decode_opcode (assemble i) (raw (layout i)))
unfolding decode extract_fields
decode-raw i h =
    ap (λ f. predict (decode_opcode (assemble i) (raw f)))
      (extract_fields-encode (layout i) (layout-InRange i h))

funct7_of-le : (o : AluOp) → funct7_of o ≤ 0x20
unfolding funct7_of
funct7_of-le add = omega arith
funct7_of-le _ = omega arith

-- A shift amount and its function field are an immediate of twelve bits.
imm_i-shift :
    (o : AluOp) (rd rs1 v : ℕ)
    → IsEncodable (shift o rd rs1 v)
    → imm_i (assemble (shift o rd rs1 v)) ≡ v + funct7_of o * 2 ^ 5
unfolding layout
imm_i-shift o rd rs1 v h =
    let rest = 0x13 + rd * 2 ^ 7 + funct3_of o * 2 ^ 12 + rs1 * 2 ^ 15 in
    let whole = v + funct7_of o * 2 ^ 5 in
    let placed : assemble (shift o rd rs1 v) ≡ place_i whole rest = omega (arith, funct7_of-le o) in
    ap imm_i placed
    ∙ imm_i-place whole rest (inl (omega (arith, funct7_of-le o))) (omega (arith, funct3_of-lt o))

-- The upper twelve bits of a system instruction.
funct12-encode :
    (rd funct3 rs1 a : ℕ)
    → (rd < 32) × (funct3 < 8) × (rs1 < 32) × (a < 2 ^ 12)
    → bit_and (encode (i_type 0x73 rd funct3 rs1 a) >> 20) 0xFFF ≡ a
funct12-encode rd funct3 rs1 a h =
    omega (arith, bit_and-low 12 (encode (i_type 0x73 rd funct3 rs1 a) >> 20))

decode-csr :
    (o : CsrOp) (rd rs1 a : ℕ)
    → IsEncodable (csr o rd rs1 a)
    → decode (assemble (csr o rd rs1 a)) ≡ decoded (csr o rd rs1 a)
unfolding layout decode_opcode decode_system predict signals csr_funct3
decode-csr csrrw rd rs1 a h =
    decode-raw (csr csrrw rd rs1 a) h
    ∙ ap (λ n. signals (csr csrrw rd rs1 n) (raw (layout (csr csrrw rd rs1 a))))
        (funct12-encode rd (csr_funct3 csrrw) rs1 a (omega (arith, h)))
decode-csr o rd rs1 a h =
    decode-raw (csr o rd rs1 a) h
    ∙ ap (λ n. signals (csr o rd rs1 n) (raw (layout (csr o rd rs1 a))))
        (funct12-encode rd (csr_funct3 o) rs1 a (omega (arith, h)))

decode-system : (o : SystemOp) → decode (assemble (system o)) ≡ decoded (system o)
unfolding layout decode_opcode decode_system predict signals system_funct12
decode-system ecall = decode-raw (system ecall) tt
decode-system o = decode-raw (system o) tt

-- Every instruction of RV32I, control register instruction, MRET, SRET and WFI, assembled with
-- registers below 32 and an immediate that fits its format, is decoded to its fields, its immediate
-- and exactly the control signals and the prediction that it needs.
pub decode-assemble : (i : Instruction) → IsEncodable i → decode (assemble i) ≡ decoded i
unfolding layout decode_opcode predict signals
decode-assemble (reg o rd rs1 rs2) h = decode-raw (reg o rd rs1 rs2) h
decode-assemble (imm o rd rs1 v) h =
    decode-raw (imm o rd rs1 v) h
    ∙ ap (λ n. signals (imm o rd rs1 n) (raw (layout (imm o rd rs1 v))))
        (imm_i-encode 0x13 rd (funct3_of o) rs1 v (omega (arith, funct3_of-lt o)) h.3)
decode-assemble (shift o rd rs1 v) h =
    decode-raw (shift o rd rs1 v) h
    ∙ ap
        (λ n. record (raw (layout (shift o rd rs1 v))) {
          uses_rs1 = true;
          reg_write = true;
          imm = n;
        })
        (imm_i-shift o rd rs1 v h)
decode-assemble (load o rd rs1 v) h =
    decode-raw (load o rd rs1 v) h
    ∙ ap (λ n. signals (load o rd rs1 n) (raw (layout (load o rd rs1 v))))
        (imm_i-encode 0x03 rd (load_funct3 o) rs1 v (omega (arith, load_funct3-lt o)) h.2)
decode-assemble (store o rs1 rs2 v) h =
    decode-raw (store o rs1 rs2 v) h
    ∙ ap (λ n. signals (store o rs1 rs2 n) (raw (layout (store o rs1 rs2 v))))
        (imm_s-encode 0x23 (store_funct3 o) rs1 rs2 v (omega (arith, store_funct3-lt o)) h.2)
decode-assemble (branch o rs1 rs2 v) h =
    decode-raw (branch o rs1 rs2 v) h
    ∙ ap (λ n. signals (branch o rs1 rs2 n) (raw (layout (branch o rs1 rs2 v))))
        (imm_b-encode 0x63 (branch_funct3 o) rs1 rs2 v (omega (arith, branch_funct3-lt o)) h.2 h.3)
decode-assemble (lui rd v) h =
    decode-raw (lui rd v) h
    ∙ ap (λ n. signals (lui rd n) (raw (layout (lui rd v))))
        (imm_u-encode 0x37 rd v (omega arith) h.1 h.2)
decode-assemble (auipc rd v) h =
    decode-raw (auipc rd v) h
    ∙ ap (λ n. signals (auipc rd n) (raw (layout (auipc rd v))))
        (imm_u-encode 0x17 rd v (omega arith) h.1 h.2)
decode-assemble (jal rd v) h =
    decode-raw (jal rd v) h
    ∙ ap (λ n. signals (jal rd n) (raw (layout (jal rd v))))
        (imm_j-encode 0x6F rd v (omega arith) h.1 h.2)
decode-assemble (jalr rd rs1 v) h =
    decode-raw (jalr rd rs1 v) h
    ∙ ap (λ n. signals (jalr rd rs1 n) (raw (layout (jalr rd rs1 v))))
        (imm_i-encode 0x67 rd 0 rs1 v (omega arith) h.2)
decode-assemble (csr o rd rs1 a) h = decode-csr o rd rs1 a h
decode-assemble (system o) h = decode-system o
decode-assemble (fence rd rs1 rs2 f) h = decode-raw (fence rd rs1 rs2 f) h

-- The system opcode with the upper bits of SFENCE.VMA is none of the six codes.
decode_system-sfence_vma :
    (instr rs1 rs2 : ℕ)
    → bit_and (instr >> 20) 0xFFF ≡ rs2 + 0x120
    → rs2 < 32
    → decode_system instr (raw (sfence_vma rs1 rs2))
      ≡ record (raw (sfence_vma rs1 rs2)) { is_illegal = true }
unfolding decode_system
decode_system-sfence_vma instr rs1 rs2 upper k = rw upper (ground arith)

-- The word that the manual gives to SFENCE.VMA, in which bits 31 to 25 are 0001001 and the registers
-- are any, is an illegal instruction to the decoder.
pub decode-sfence_vma :
    (rs1 rs2 : ℕ)
    → rs1 < 32
    → rs2 < 32
    → decode (encode (sfence_vma rs1 rs2)) ≡ record (raw (sfence_vma rs1 rs2)) { is_illegal = true }
unfolding decode extract_fields decode_opcode predict
decode-sfence_vma rs1 rs2 h k =
    let f = sfence_vma rs1 rs2 in
    let upper : bit_and (encode f >> 20) 0xFFF ≡ rs2 + 0x120 =
      omega (arith, bit_and-low 12 (encode f >> 20)) in
    ap (λ g. predict (decode_opcode (encode f) (raw g))) (extract_fields-encode f (omega arith))
    ∙ ap predict (decode_system-sfence_vma (encode f) rs1 rs2 upper k)
