-- ===== src/IssueUnit/Decode/Immediates.antt =====
-- The immediates of the five instruction formats against the bit layout of the RISC-V manual: each
-- encoder below places the bits of an immediate.
-- An immediate is a 32-bit pattern, sign-extended from its format's width.
use simple_rv.Prelude.{
  ℕ, ◌+◌, ◌-◌, ◌*◌, ◌/◌, ◌%◌, ◌^◌, ◌≤◌, ◌<◌, ◌≡◌, ◌⊎◌, refl, arith, asr, ◌<<◌, ◌>>◌,
}
use simple_rv.Prelude.Bits.{bit_or-sum, bit_and-low, bit_and-shifted}
use simple_rv.IssueUnit.Decode.{imm_i, imm_s, imm_b, imm_u, imm_j}

-- `x` is the 32-bit pattern of a signed number of `w + 1` bits.
abbrev pub FitsSigned : ℕ → ℕ → Type 0
FitsSigned w x = (x < 2 ^ w) ⊎ ((2 ^ 32 - 2 ^ w ≤ x) × (x < 2 ^ 32))

-- Where the formats put the immediate; `rest` stands for the other fields of the word.
abbrev pub place_i : ℕ → ℕ → ℕ
place_i imm rest = imm % 2 ^ 12 * 2 ^ 20 + rest

-- rest is below 2 ^ 7 (the opcode), mid (rs2, rs1 and funct3) below 2 ^ 13.
abbrev pub place_s : ℕ → ℕ → ℕ → ℕ
place_s imm mid rest = imm / 2 ^ 5 % 2 ^ 7 * 2 ^ 25 + mid * 2 ^ 12 + imm % 2 ^ 5 * 2 ^ 7 + rest

abbrev pub place_b : ℕ → ℕ → ℕ → ℕ
place_b imm mid rest =
    imm / 2 ^ 12 % 2 * 2 ^ 31
    + imm / 2 ^ 5 % 2 ^ 6 * 2 ^ 25
    + mid * 2 ^ 12
    + imm / 2 % 2 ^ 4 * 2 ^ 8
    + imm / 2 ^ 11 % 2 * 2 ^ 7
    + rest

abbrev pub place_j : ℕ → ℕ → ℕ
place_j imm rest =
    imm / 2 ^ 20 % 2 * 2 ^ 31
    + imm / 2 % 2 ^ 10 * 2 ^ 21
    + imm / 2 ^ 11 % 2 * 2 ^ 20
    + imm / 2 ^ 12 % 2 ^ 8 * 2 ^ 12
    + rest

-- The I-format immediate is decoded to the 12-bit signed number whose bits the manual's layout puts
-- into the word, whatever the other fields are.
pub imm_i-place :
    (imm rest : ℕ) → FitsSigned 11 imm → rest < 2 ^ 20 → imm_i (place_i imm rest) ≡ imm
unfolding imm_i
imm_i-place imm rest h r = ground arith

imm_s_sum : (instr : ℕ) → imm_s instr ≡ (asr instr 25 << 5) + instr / 2 ^ 7 % 2 ^ 5
unfolding imm_s
imm_s_sum instr =
    rw (bit_and-low 5 (instr >> 7))
      (bit_or-sum 5 (asr instr 25 << 5) (instr / 2 ^ 7 % 2 ^ 5) (omega arith) (omega arith))

-- The S-format immediate is decoded to the 12-bit signed number that was placed in its two pieces,
-- whatever the other fields are.
pub imm_s-place :
    (imm mid rest : ℕ)
    → FitsSigned 11 imm
    → mid < 2 ^ 13
    → rest < 2 ^ 7
    → imm_s (place_s imm mid rest) ≡ imm
imm_s-place imm mid rest h m r = rw (imm_s_sum (place_s imm mid rest)) (ground arith)

imm_b_sum :
    (instr : ℕ)
    → imm_b instr
      ≡ (asr instr 31 << 12)
        + (instr / 2 ^ 7 % 2 << 11)
        + (instr / 2 ^ 25 % 2 ^ 6 << 5)
        + (instr / 2 ^ 8 % 2 ^ 4 << 1)
unfolding imm_b
imm_b_sum instr =
    let s = asr instr 31 << 12 in
    let b = instr / 2 ^ 7 % 2 << 11 in
    let f = instr / 2 ^ 25 % 2 ^ 6 << 5 in
    let g = instr / 2 ^ 8 % 2 ^ 4 << 1 in
    rw
      (
        bit_and-low 1 (instr >> 7),
        bit_and-low 6 (instr >> 25),
        bit_and-low 4 (instr >> 8),
        bit_or-sum 12 s b (omega arith) (omega arith),
        bit_or-sum 11 (s + b) f (omega arith) (omega arith),
        bit_or-sum 5 (s + b + f) g (omega arith) (omega arith),
      )
      refl

-- The B-format immediate is decoded to the even 13-bit signed number that was placed in its four
-- pieces, whatever the other fields are.
pub imm_b-place :
    (imm mid rest : ℕ)
    → FitsSigned 12 imm
    → imm % 2 ≡ 0
    → mid < 2 ^ 13
    → rest < 2 ^ 7
    → imm_b (place_b imm mid rest) ≡ imm
imm_b-place imm mid rest h even m r = rw (imm_b_sum (place_b imm mid rest)) (ground arith)

-- The U-format immediate is decoded to the word, a multiple of 4096, that was placed in the upper 20
-- bits, whatever the other fields are.
pub imm_u-place :
    (imm rest : ℕ) → imm < 2 ^ 32 → imm % 2 ^ 12 ≡ 0 → rest < 2 ^ 12 → imm_u (imm + rest) ≡ imm
unfolding imm_u
imm_u-place imm rest h whole r =
    omega (arith, bit_and-shifted 12 (imm + rest) 0xFFFFF, bit_and-low 20 ((imm + rest) / 2 ^ 12))

imm_j_sum :
    (instr : ℕ)
    → imm_j instr
      ≡ (asr instr 31 << 20)
        + (instr / 2 ^ 12 % 2 ^ 8 << 12)
        + (instr / 2 ^ 20 % 2 << 11)
        + (instr / 2 ^ 21 % 2 ^ 10 << 1)
unfolding imm_j
imm_j_sum instr =
    let s = asr instr 31 << 20 in
    let b = instr / 2 ^ 12 % 2 ^ 8 << 12 in
    let f = instr / 2 ^ 20 % 2 << 11 in
    let g = instr / 2 ^ 21 % 2 ^ 10 << 1 in
    rw
      (
        bit_and-low 8 (instr >> 12),
        bit_and-low 1 (instr >> 20),
        bit_and-low 10 (instr >> 21),
        bit_or-sum 20 s b (omega arith) (omega arith),
        bit_or-sum 12 (s + b) f (omega arith) (omega arith),
        bit_or-sum 11 (s + b + f) g (omega arith) (omega arith),
      )
      refl

-- The J-format immediate is decoded to the even 21-bit signed number that was placed in its four
-- pieces, whatever the other fields are.
pub imm_j-place :
    (imm rest : ℕ)
    → FitsSigned 20 imm
    → imm % 2 ≡ 0
    → rest < 2 ^ 12
    → imm_j (place_j imm rest) ≡ imm
imm_j-place imm rest h even r = rw (imm_j_sum (place_j imm rest)) (ground arith)
