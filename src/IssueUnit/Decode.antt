-- ===== src/IssueUnit/Decode.antt =====
-- `IssueUnit::decodeInstruction` of src/IssueUnit.cpp.
pub mod Immediates
pub mod Fields
use simple_rv.Prelude.{
  ℕ, ◌<<◌, ◌>>◌, Bool, true, false, not, ◌==◌, leb, if◌then◌else◌, bit_and, bit_or, asr,
  is_negative,
}
use simple_rv.Types.{DecodedData, no_data, PipelineSlot}

-- The five ways in which an immediate is put together.
unfoldable pub imm_i : ℕ → ℕ
imm_i instr = asr instr 20

unfoldable pub imm_s : ℕ → ℕ
imm_s instr = bit_or (asr instr 25 << 5) (bit_and (instr >> 7) 0x1F)

unfoldable pub imm_b : ℕ → ℕ
imm_b instr =
    bit_or
      (bit_or (bit_or (asr instr 31 << 12) (bit_and (instr >> 7) 0x1 << 11))
        (bit_and (instr >> 25) 0x3F << 5))
      (bit_and (instr >> 8) 0xF << 1)

unfoldable pub imm_u : ℕ → ℕ
imm_u instr = bit_and instr 0xFFFFF000

unfoldable pub imm_j : ℕ → ℕ
imm_j instr =
    bit_or
      (bit_or (bit_or (asr instr 31 << 20) (bit_and (instr >> 12) 0xFF << 12))
        (bit_and (instr >> 20) 0x1 << 11))
      (bit_and (instr >> 21) 0x3FF << 1)

-- The fields of the word, with every control signal reset.
unfoldable pub extract_fields : ℕ → DecodedData
extract_fields instr = record no_data {
  op = bit_and instr 0x7F;
  rd = bit_and (instr >> 7) 0x1F;
  rs1 = bit_and (instr >> 15) 0x1F;
  rs2 = bit_and (instr >> 20) 0x1F;
  funct3 = bit_and (instr >> 12) 0x7;
  funct7 = bit_and (instr >> 25) 0x7F;
}

-- The case 0x73.
unfoldable pub decode_system : ℕ → DecodedData → DecodedData
decode_system instr d =
    let funct12 = bit_and (instr >> 20) 0xFFF in
    if d.funct3 == 0x0
    then (if funct12 == 0x000
        then record d { is_ecall = true }
        else if funct12 == 0x302
        then record d { is_mret = true }
        else if funct12 == 0x102
        then record d { is_sret = true }
        else if funct12 == 0x104
        then record d { is_sfence = true }
        else if funct12 == 0x001
        then d
        else if funct12 == 0x105
        then d
        else record d { is_illegal = true })
    else record d {
      is_csr = true;
      csr_addr = funct12;
      reg_write = not (d.rd == 0);
      uses_rs1 = leb d.funct3 3;
    }

-- The switch on the opcode.
unfoldable pub decode_opcode : ℕ → DecodedData → DecodedData
decode_opcode instr d =
    if d.op == 0x33
    then record d { uses_rs1 = true; uses_rs2 = true; reg_write = true }
    else if d.op == 0x13
    then record d { uses_rs1 = true; reg_write = true; imm = imm_i instr }
    else if d.op == 0x03
    then record d { uses_rs1 = true; reg_write = true; is_memory = true; imm = imm_i instr }
    else if d.op == 0x23
    then record d { uses_rs1 = true; uses_rs2 = true; is_memory = true; imm = imm_s instr }
    else if d.op == 0x63
    then record d { uses_rs1 = true; uses_rs2 = true; is_branch = true; imm = imm_b instr }
    else if d.op == 0x37
    then record d { reg_write = true; imm = imm_u instr }
    else if d.op == 0x17
    then record d { reg_write = true; imm = imm_u instr }
    else if d.op == 0x6F
    then record d { reg_write = true; is_branch = true; imm = imm_j instr }
    else if d.op == 0x67
    then record d { uses_rs1 = true; reg_write = true; is_branch = true; imm = imm_i instr }
    else if d.op == 0x73
    then decode_system instr d
    else if d.op == 0x0F
    then d
    else if d.op == 0x00
    then d
    else record d { is_illegal = true }

-- Backward taken, forward not taken.
unfoldable pub predict : DecodedData → DecodedData
predict d =
    if d.is_branch
    then (if d.op == 0x6F
        then record d { predicted_taken = true }
        else if d.op == 0x63
        then record d { predicted_taken = is_negative d.imm }
        else record d { predicted_taken = false })
    else d

unfoldable pub decode : ℕ → DecodedData
decode instr = predict (decode_opcode instr (extract_fields instr))

-- The slot's address is an argument that the source does not use.
unfoldable pub decode_instruction : PipelineSlot → ℕ → PipelineSlot
decode_instruction slot slot_pc =
    let d = decode slot.instr in record slot { d = d; rd = d.rd; reg_write = d.reg_write }
