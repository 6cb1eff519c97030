-- ===== src/Isa/Formats.antt =====
-- The immediates of the five formats in the words that are laid out by `encode`, as
-- `IssueUnit::decodeInstruction` of src/IssueUnit.cpp reads them.
use simple_rv.Prelude.{ℕ, ◌+◌, ◌*◌, ◌%◌, ◌^◌, ◌<◌, ◌≡◌, ap, ◌∙◌, arith}
use simple_rv.IssueUnit.Decode.{imm_i, imm_s, imm_b, imm_u, imm_j}
use simple_rv.IssueUnit.Decode.Fields.{encode}
use simple_rv.IssueUnit.Decode.Immediates.{
  place_i, place_s, place_b, place_j, imm_i-place, imm_s-place, imm_b-place, imm_u-place,
  imm_j-place, FitsSigned,
}
use simple_rv.Isa.{i_type, s_type, b_type, u_type, j_type}

-- The immediate of each format, read from the fields that it is laid out in.
pub imm_i-encode :
    (op rd funct3 rs1 v : ℕ)
    → (op < 128) × (rd < 32) × (funct3 < 8) × (rs1 < 32)
    → FitsSigned 11 v
    → imm_i (encode (i_type op rd funct3 rs1 v)) ≡ v
imm_i-encode op rd funct3 rs1 v h w =
    let rest = op + rd * 2 ^ 7 + funct3 * 2 ^ 12 + rs1 * 2 ^ 15 in
    let placed : encode (i_type op rd funct3 rs1 v) ≡ place_i v rest = omega arith in
    ap imm_i placed ∙ imm_i-place v rest w (omega arith)

pub imm_s-encode :
    (op funct3 rs1 rs2 v : ℕ)
    → (op < 128) × (funct3 < 8) × (rs1 < 32) × (rs2 < 32)
    → FitsSigned 11 v
    → imm_s (encode (s_type op funct3 rs1 rs2 v)) ≡ v
imm_s-encode op funct3 rs1 rs2 v h w =
    let mid = funct3 + rs1 * 2 ^ 3 + rs2 * 2 ^ 8 in
    let placed : encode (s_type op funct3 rs1 rs2 v) ≡ place_s v mid op = omega arith in
    ap imm_s placed ∙ imm_s-place v mid op w (omega arith) (omega arith)

pub imm_b-encode :
    (op funct3 rs1 rs2 v : ℕ)
    → (op < 128) × (funct3 < 8) × (rs1 < 32) × (rs2 < 32)
    → FitsSigned 12 v
    → v % 2 ≡ 0
    → imm_b (encode (b_type op funct3 rs1 rs2 v)) ≡ v
imm_b-encode op funct3 rs1 rs2 v h w e =
    let mid = funct3 + rs1 * 2 ^ 3 + rs2 * 2 ^ 8 in
    let placed : encode (b_type op funct3 rs1 rs2 v) ≡ place_b v mid op = omega arith in
    ap imm_b placed ∙ imm_b-place v mid op w e (omega arith) (omega arith)

pub imm_u-encode :
    (op rd v : ℕ)
    → (op < 128) × (rd < 32)
    → v < 2 ^ 32
    → v % 2 ^ 12 ≡ 0
    → imm_u (encode (u_type op rd v)) ≡ v
imm_u-encode op rd v h w e =
    let placed : encode (u_type op rd v) ≡ v + (op + rd * 2 ^ 7) = omega arith in
    ap imm_u placed ∙ imm_u-place v (op + rd * 2 ^ 7) w e (omega arith)

pub imm_j-encode :
    (op rd v : ℕ)
    → (op < 128) × (rd < 32)
    → FitsSigned 20 v
    → v % 2 ≡ 0
    → imm_j (encode (j_type op rd v)) ≡ v
imm_j-encode op rd v h w e =
    let placed : encode (j_type op rd v) ≡ place_j v (op + rd * 2 ^ 7) = omega arith in
    ap imm_j placed ∙ imm_j-place v (op + rd * 2 ^ 7) w e (omega arith)
