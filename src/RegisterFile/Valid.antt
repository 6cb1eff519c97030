-- ===== src/RegisterFile/Valid.antt =====
-- Well-formed register files (include/RegisterFile.h): every register is a word, and the delegation registers hold no bit
-- that the implementation does not support.
use simple_rv.Prelude.{
  ℕ, ◌≡◌, subst, arith, Bool, bit_and, complement, IsWord, Bool-cases, ◌&&◌, not, ◌==◌, ltb, inl,
  inr,
}
use simple_rv.Prelude.Bits.{merge-IsWord, bit_and-le, bit_and_assoc, bit_or-lt}
use simple_rv.Types.{
  medeleg_mask, mideleg_mask, sstatus_mask, sie_mask, mip_msip, mip_ssip, mip_mtip,
}
use simple_rv.RegisterFile.{
  RegisterFile, new_register_file, read_rs1, read_register, read_csr, write_rd, write_register,
  write_csr, set_privilege, hw_set_mtip,
}
use simple_rv.RegisterFile.Address.{
  Csr, csr_of, mvendorid, medeleg_csr, mideleg_csr, sstatus_csr, sie_csr, sip_csr,
}

pub record IsValid (f : RegisterFile) : Type 0 where
  pub gpr_word : (r : ℕ) → IsWord (f.gpr r)
  pub mstatus_word : IsWord f.mstatus
  pub mepc_word : IsWord f.mepc
  pub mtvec_word : IsWord f.mtvec
  pub mcause_word : IsWord f.mcause
  pub mie_word : IsWord f.mie
  pub mip_word : IsWord f.mip
  pub mtval_word : IsWord f.mtval
  pub mscratch_word : IsWord f.mscratch
  pub medeleg_supported : bit_and f.medeleg medeleg_mask ≡ f.medeleg
  pub mideleg_supported : bit_and f.mideleg mideleg_mask ≡ f.mideleg
  pub sepc_word : IsWord f.sepc
  pub stvec_word : IsWord f.stvec
  pub scause_word : IsWord f.scause
  pub stval_word : IsWord f.stval
  pub sscratch_word : IsWord f.sscratch
  pub satp_word : IsWord f.satp

write_register-IsValid :
    (c : Csr) (v : ℕ) (f : RegisterFile) → IsWord v → IsValid f → IsValid (write_register c v f)
unfolding write_register
write_register-IsValid mvendorid v f w h = h
write_register-IsValid _ v f w h = ground (
  arith,
  h.gpr_word,
  bit_and_assoc v medeleg_mask medeleg_mask,
  bit_and_assoc v mideleg_mask mideleg_mask,
  merge-IsWord f.mstatus v sstatus_mask,
  merge-IsWord f.mie v sie_mask,
  merge-IsWord f.mip v mip_msip,
  merge-IsWord f.mip v mip_ssip,
)

-- A write of a word to a control register, at any address, keeps the register file valid: every
-- register stays a word and the delegation registers hold supported bits only.
pub write_csr-IsValid :
    (csr v : ℕ) (f : RegisterFile) → IsWord v → IsValid f → IsValid (write_csr csr v f)
unfolding write_csr
write_csr-IsValid csr v f w h = write_register-IsValid (csr_of csr) v f w h

set_gpr-IsValid :
    (gpr : ℕ → ℕ) (f : RegisterFile)
    → ((r : ℕ) → IsWord (gpr r))
    → IsValid f
    → IsValid (record f { gpr = gpr })
set_gpr-IsValid gpr f word h = ground (arith, word)

-- A write of a word to a general register, at any index and with the write enable set or not,
-- keeps the register file valid.
pub write_rd-IsValid :
    (rd v : ℕ) (w : Bool) (f : RegisterFile) → IsWord v → IsValid f → IsValid (write_rd rd v w f)
unfolding write_rd
write_rd-IsValid rd v w f word h = elim (Bool-cases (w && not (rd == 0) && ltb rd 32)) [
  | inl e ↦ rw e (set_gpr-IsValid _ f (λ r. ground (arith, h.gpr_word r)) h)
  | inr e ↦ rw e h
]

pub set_privilege-IsValid : (prv : ℕ) (f : RegisterFile) → IsValid f → IsValid (set_privilege prv f)
unfolding set_privilege
set_privilege-IsValid prv f h = ground (arith, h.gpr_word)

pub hw_set_mtip-IsValid : (up : Bool) (f : RegisterFile) → IsValid f → IsValid (hw_set_mtip up f)
unfolding hw_set_mtip
hw_set_mtip-IsValid up f h =
    ground (arith, h.gpr_word, bit_or-lt 32 f.mip mip_mtip, bit_and-le f.mip (complement mip_mtip))

-- Reset gives a valid register file.
pub new_register_file-IsValid : IsValid new_register_file
unfolding new_register_file
new_register_file-IsValid = ground arith

bit_and-IsWord : (a mask : ℕ) → IsWord mask → IsWord (bit_and a mask)
bit_and-IsWord a mask h = omega (arith, bit_and-le a mask)

read_register-IsWord : (c : Csr) (f : RegisterFile) → IsValid f → IsWord (read_register f c)
unfolding read_register
read_register-IsWord mvendorid f h = omega arith
read_register-IsWord medeleg_csr f h =
    subst IsWord h.medeleg_supported (bit_and-IsWord f.medeleg medeleg_mask (omega arith))
read_register-IsWord mideleg_csr f h =
    subst IsWord h.mideleg_supported (bit_and-IsWord f.mideleg mideleg_mask (omega arith))
read_register-IsWord sstatus_csr f h = bit_and-IsWord f.mstatus sstatus_mask (omega arith)
read_register-IsWord sie_csr f h = bit_and-IsWord f.mie sie_mask (omega arith)
read_register-IsWord sip_csr f h = bit_and-IsWord f.mip sie_mask (omega arith)
read_register-IsWord _ f h = ground arith

-- In a valid register file every control register reads as a word.
pub read_csr-IsWord : (a : ℕ) (f : RegisterFile) → IsValid f → IsWord (read_csr f a)
unfolding read_csr
read_csr-IsWord a f h = read_register-IsWord (csr_of a) f h

pub read_rs1-IsWord : (r : ℕ) (f : RegisterFile) → IsValid f → IsWord (read_rs1 f r)
unfolding read_rs1
read_rs1-IsWord r f h = ground (arith, h.gpr_word r)
