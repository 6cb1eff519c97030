-- ===== src/RegisterFile/ReadWrite.antt =====
-- Reads after writes of the general and of the control registers of src/RegisterFile.cpp.
use simple_rv.Prelude.{
  if_split, ltb, ℕ, ◌<◌, ◌≡◌, ◌≢◌, refl, arith, Bool, true, false, ◌&&◌, not, ◌==◌, bit_and, IsWord,
  if◌then◌else◌, has_bits,
}
use simple_rv.Prelude.Bits.{
  merge, merge_full, merge_none, merge_within, merge_supported, bit_and-merge_other, bit_or_keeps,
  bit_and-complement,
}
use simple_rv.Types.{
  medeleg_mask, mideleg_mask, sstatus_mask, sie_mask, mip_msip, mip_ssip, mip_mtip, misa_rv32i,
}
use simple_rv.RegisterFile.{
  RegisterFile, read_rs1, write_rd, read_register, write_register, read_csr, write_csr, hw_set_mtip,
}
use simple_rv.RegisterFile.Address.{
  Csr, csr_of, mvendorid, marchid, mimpid, mhartid, mstatus_csr, misa, medeleg_csr, mideleg_csr,
  mie_csr, mip_csr, sstatus_csr, sie_csr, sip_csr, unmapped,
}
use simple_rv.RegisterFile.Valid.{IsValid}

-- After a write to a register below 32, that register reads as the value if it is not register 0
-- and the write enable is set, and every other reading is as before.
pub read_rs1-write_rd :
    (rd v : ℕ) (enable : Bool) (r : ℕ) (f : RegisterFile)
    → rd < 32
    → read_rs1 (write_rd rd v enable f) r
      ≡ (if enable && not (r == 0) && r == rd then v else read_rs1 f r)
unfolding read_rs1 write_rd
read_rs1-write_rd rd v enable r f h = ground arith

read_register-gpr :
    (c : Csr) (gpr : ℕ → ℕ) (f : RegisterFile)
    → read_register (record f { gpr = gpr }) c ≡ read_register f c
unfolding read_register
read_register-gpr mvendorid gpr f = refl
read_register-gpr _ gpr f = refl

-- A write to a general register changes the reading of no control register.
pub read_csr-write_rd :
    (rd v : ℕ) (w : Bool) (f : RegisterFile) (csr : ℕ)
    → read_csr (write_rd rd v w f) csr ≡ read_csr f csr
unfolding read_csr write_rd
read_csr-write_rd rd v w f csr =
    if_split (λ (g : RegisterFile). read_register g (csr_of csr) ≡ read_register f (csr_of csr))
      (w && not (rd == 0) && ltb rd 32)
      (λ _. read_register-gpr (csr_of csr) (λ r. if r == rd then v else f.gpr r) f) (λ _. refl)

-- The bits of a control register that software can write, by the privileged specification's
-- access rules and the parts that the machine implements.
unfoldable pub writable : Csr → ℕ
writable mvendorid = 0
writable marchid = 0
writable mimpid = 0
writable mhartid = 0
writable misa = 0
writable unmapped = 0
writable medeleg_csr = medeleg_mask
writable mideleg_csr = mideleg_mask
writable mip_csr = mip_msip
writable sip_csr = mip_ssip
writable sstatus_csr = sstatus_mask
writable sie_csr = sie_mask
writable _ = 0xFFFFFFFF

read_register-write_register :
    (c : Csr) (v : ℕ) (f : RegisterFile)
    → IsWord v
    → IsValid f
    → read_register (write_register c v f) c ≡ merge (read_register f c) v (writable c)
unfolding read_register write_register writable
read_register-write_register mvendorid v f w h = ground (arith, merge_none 0 v)
read_register-write_register _ v f w h = ground (
  arith,
  merge_full f.mstatus v,
  merge_full f.mie v,
  merge_full f.mtvec v,
  merge_full f.mscratch v,
  merge_full f.mepc v,
  merge_full f.mcause v,
  merge_full f.mtval v,
  merge_full f.stvec v,
  merge_full f.sscratch v,
  merge_full f.sepc v,
  merge_full f.scause v,
  merge_full f.stval v,
  merge_full f.satp v,
  merge_none 0 v,
  merge_none 1 v,
  merge_none misa_rv32i v,
  merge_within f.mstatus v sstatus_mask sstatus_mask,
  merge_within f.mie v sie_mask sie_mask,
  merge_within f.mip v mip_ssip sie_mask,
  merge_supported f.medeleg v medeleg_mask,
  merge_supported f.mideleg v mideleg_mask,
)

-- Writing a control register and reading it back gives the written value in the writable bits
-- and the old value in all others, at every one of the addresses, for a word written to a valid
-- register file.
pub read_csr-write_csr :
    (csr v : ℕ) (f : RegisterFile)
    → IsWord v
    → IsValid f
    → read_csr (write_csr csr v f) csr ≡ merge (read_csr f csr) v (writable (csr_of csr))
unfolding read_csr write_csr
read_csr-write_csr csr v f w h = read_register-write_register (csr_of csr) v f w h

-- The register whose storage another one shares: the S-mode views stand on the M-mode registers.
unfoldable pub storage : Csr → Csr
storage sstatus_csr = mstatus_csr
storage sie_csr = mie_csr
storage sip_csr = mip_csr
storage c = c

read_register-write_register_ne :
    (c d : Csr) (v : ℕ) (f : RegisterFile)
    → storage c ≢ storage d
    → read_register (write_register c v f) d ≡ read_register f d
unfolding read_register write_register storage
read_register-write_register_ne mvendorid mvendorid v f ne = refl
read_register-write_register_ne _ _ v f ne = ground arith

-- A write to a control register changes the reading of no register with other storage.
pub read_csr-write_csr_ne :
    (csr other v : ℕ) (f : RegisterFile)
    → storage (csr_of csr) ≢ storage (csr_of other)
    → read_csr (write_csr csr v f) other ≡ read_csr f other
unfolding read_csr write_csr
read_csr-write_csr_ne csr other v f ne =
    read_register-write_register_ne (csr_of csr) (csr_of other) v f ne

write_register-mtip :
    (c : Csr) (v : ℕ) (f : RegisterFile)
    → bit_and (write_register c v f).mip mip_mtip ≡ bit_and f.mip mip_mtip
unfolding write_register
write_register-mtip mvendorid v f = refl
write_register-mtip _ v f = ground (
  arith,
  bit_and-merge_other f.mip v mip_msip mip_mtip,
  bit_and-merge_other f.mip v mip_ssip mip_mtip,
)

-- After the hardware sets or clears the timer's pending bit, the bit is as the hardware left it
-- whatever value software then writes to whatever control register.
pub mtip_driven_by_hardware :
    (csr v : ℕ) (up : Bool) (f : RegisterFile)
    → has_bits (write_csr csr v (hw_set_mtip up f)).mip mip_mtip ≡ up
unfolding write_csr hw_set_mtip
mtip_driven_by_hardware csr v true f =
    rw (write_register-mtip (csr_of csr) v _) (ground (arith, bit_or_keeps f.mip mip_mtip))
mtip_driven_by_hardware csr v false f =
    rw (write_register-mtip (csr_of csr) v _) (ground (arith, bit_and-complement f.mip mip_mtip))
