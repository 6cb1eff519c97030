-- ===== src/Isa/Words.antt =====
-- What an instruction computes is a word, and depends on the registers that it reads only.
use simple_rv.Prelude.{ℕ, ◌+◌, ◌%◌, ◌^◌, ◌≡◌, refl, ap, ap₂, arith, u32, IsWord, true}
use simple_rv.Prelude.Bits.{bit_and-le, bit_or-lt, bit_xor-lt}
use native.Mathlib.Nat.{div-le_self}
use simple_rv.IssueUnit.{reads}
use simple_rv.ExecutionEngine.Alu.Signed.{
  AluOp, add, sub, sll, slt, sltu, xor, srl, sra, or, and, meaning,
}
use simple_rv.Isa.{
  Instruction, reg, imm, shift, load, store, lui, csr, IsEncodable, layout, signals, decoded,
}
use simple_rv.Isa.Meaning.{value}

meaning-IsWord : (o : AluOp) (x y : ℕ) → IsWord x → IsWord y → IsWord (meaning o x y)
unfolding meaning
meaning-IsWord add x y h k = ground arith
meaning-IsWord sub x y h k = ground arith
meaning-IsWord sll x y h k = omega arith
meaning-IsWord slt x y h k = ground arith
meaning-IsWord sltu x y h k = ground arith
meaning-IsWord xor x y h k = bit_xor-lt 32 x y h k
meaning-IsWord srl x y h k = omega (arith, div-le_self x (2 ^ (y % 32)))
meaning-IsWord sra x y h k = ground arith
meaning-IsWord or x y h k = bit_or-lt 32 x y h k
meaning-IsWord and x y h k = omega (arith, bit_and-le x y)

pub value-IsWord :
    (i : Instruction) (pc : ℕ) (x k : ℕ → ℕ)
    → IsEncodable i
    → ((r : ℕ) → IsWord (x r))
    → ((a : ℕ) → IsWord (k a))
    → IsWord (value i pc x k)
unfolding value
value-IsWord (reg o rd rs1 rs2) pc x k h w v = meaning-IsWord o (x rs1) (x rs2) (w rs1) (w rs2)
value-IsWord (imm o rd rs1 n) pc x k h w v = meaning-IsWord o (x rs1) n (w rs1) (omega arith)
value-IsWord (shift o rd rs1 n) pc x k h w v = meaning-IsWord o (x rs1) n (w rs1) (omega arith)
value-IsWord (csr o rd rs1 a) pc x k h w v = ground (arith, v a)
value-IsWord _ pc x k h w v = omega arith

-- Registers that agree where the instruction reads give the same.
pub value-reads :
    (i : Instruction) (pc : ℕ) (x y k : ℕ → ℕ)
    → ((r : ℕ) → reads (decoded i) r ≡ true → x r ≡ y r)
    → value i pc x k ≡ value i pc y k
unfolding value signals layout
value-reads (reg o rd rs1 rs2) pc x y k h =
    ap₂ (meaning o) (h rs1 (ground arith)) (h rs2 (ground arith))
value-reads (imm o rd rs1 v) pc x y k h = ap (λ a. meaning o a v) (h rs1 (ground arith))
value-reads (shift o rd rs1 v) pc x y k h = ap (λ a. meaning o a v) (h rs1 (ground arith))
value-reads (load o rd rs1 v) pc x y k h = ap (λ a. u32 (a + v)) (h rs1 (ground arith))
value-reads (store o rs1 rs2 v) pc x y k h = ap (λ a. u32 (a + v)) (h rs1 (ground arith))
value-reads (lui rd v) pc x y k h = refl
value-reads _ pc x y k h = refl
