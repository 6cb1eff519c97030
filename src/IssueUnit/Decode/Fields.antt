-- ===== src/IssueUnit/Decode/Fields.antt =====
-- The fields that `IssueUnit::decodeInstruction` of src/IssueUnit.cpp extracts.
use simple_rv.Prelude.{ℕ, ◌+◌, ◌*◌, ◌/◌, ◌%◌, ◌^◌, ◌<◌, ◌≡◌, ◌∙◌, arith, ◌>>◌}
use simple_rv.Prelude.Bits.{bit_and-low}
use simple_rv.Types.{DecodedData}
use simple_rv.IssueUnit.Decode.{extract_fields, decode_system, decode_opcode, predict, decode}

-- The register and function fields and the opcode of a decoded instruction.
pub record Fields : Type 0 where
  pub op : ℕ
  pub rd : ℕ
  pub funct3 : ℕ
  pub rs1 : ℕ
  pub rs2 : ℕ
  pub funct7 : ℕ

abbrev pub fields_of : DecodedData → Fields
fields_of d = record {
  op = d.op;
  rd = d.rd;
  funct3 = d.funct3;
  rs1 = d.rs1;
  rs2 = d.rs2;
  funct7 = d.funct7;
}

pub record InRange (f : Fields) : Type 0 where
  pub op_range : f.op < 128
  pub rd_range : f.rd < 32
  pub funct3_range : f.funct3 < 8
  pub rs1_range : f.rs1 < 32
  pub rs2_range : f.rs2 < 32
  pub funct7_range : f.funct7 < 128

-- The layout of an instruction word in the RISC-V manual.
abbrev pub encode : Fields → ℕ
encode f =
    f.op + f.rd * 2 ^ 7 + f.funct3 * 2 ^ 12 + f.rs1 * 2 ^ 15 + f.rs2 * 2 ^ 20 + f.funct7 * 2 ^ 25

decode_system-fields :
    (instr : ℕ) (d : DecodedData) → fields_of (decode_system instr d) ≡ fields_of d
unfolding decode_system
decode_system-fields instr d = ground arith

decode_opcode-fields :
    (instr : ℕ) (d : DecodedData) → fields_of (decode_opcode instr d) ≡ fields_of d
unfolding decode_opcode
decode_opcode-fields instr d = ground (arith, decode_system-fields instr d)

predict-fields : (d : DecodedData) → fields_of (predict d) ≡ fields_of d
unfolding predict
predict-fields d = ground arith

decode-extract_fields : (instr : ℕ) → fields_of (decode instr) ≡ fields_of (extract_fields instr)
unfolding decode
decode-extract_fields instr =
    predict-fields (decode_opcode instr (extract_fields instr))
    ∙ decode_opcode-fields instr (extract_fields instr)

extract_fields-fields :
    (instr : ℕ)
    → fields_of (extract_fields instr) ≡ record {
      op = instr % 2 ^ 7;
      rd = instr / 2 ^ 7 % 2 ^ 5;
      funct3 = instr / 2 ^ 12 % 2 ^ 3;
      rs1 = instr / 2 ^ 15 % 2 ^ 5;
      rs2 = instr / 2 ^ 20 % 2 ^ 5;
      funct7 = instr / 2 ^ 25 % 2 ^ 7;
    }
unfolding extract_fields
extract_fields-fields instr = ground (
  arith,
  bit_and-low 7 instr,
  bit_and-low 5 (instr >> 7),
  bit_and-low 3 (instr >> 12),
  bit_and-low 5 (instr >> 15),
  bit_and-low 5 (instr >> 20),
  bit_and-low 7 (instr >> 25),
)

pub extract_fields-encode : (f : Fields) → InRange f → fields_of (extract_fields (encode f)) ≡ f
extract_fields-encode f h = extract_fields-fields (encode f) ∙ ground arith

-- The decoder gives back the opcode, the registers and the function fields that an instruction
-- word was put together from, whatever the opcode.
pub decode-encode : (f : Fields) → InRange f → fields_of (decode (encode f)) ≡ f
decode-encode f h = decode-extract_fields (encode f) ∙ extract_fields-encode f h

-- The fields that the decoder gives are in range for every word: the register numbers never
-- leave the register file.
pub decode-InRange : (instr : ℕ) → InRange (fields_of (decode instr))
decode-InRange instr = rw (decode-extract_fields instr ∙ extract_fields-fields instr) (omega arith)
