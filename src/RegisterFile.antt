-- ===== src/RegisterFile.antt =====
-- include/RegisterFile.h and src/RegisterFile.cpp: the general registers, the control registers
-- behind their addresses, the privilege level and the delegation tests. The members `sstatus`,
-- `sie` and `sip`, which no function reads or writes, are left out; `dump_registers` prints.
pub mod Address
pub mod Valid
pub mod ReadWrite
use simple_rv.Prelude.{
  ℕ, ◌<<◌, Bool, true, false, ◌&&◌, not, ◌==◌, ltb, leb, if◌then◌else◌, bit_and, bit_or, complement,
  has_bits,
}
use simple_rv.Types.{
  sstatus_mask, sie_mask, medeleg_mask, mideleg_mask, misa_rv32i, prv_m, mip_ssip, mip_msip,
  mip_stip, mip_mtip, mip_seip, mip_meip,
}
use Address.{
  Csr, csr_of, mvendorid, marchid, mimpid, mhartid, mstatus_csr, misa, medeleg_csr, mideleg_csr,
  mie_csr, mtvec_csr, mscratch_csr, mepc_csr, mcause_csr, mtval_csr, mip_csr, sstatus_csr, sie_csr,
  stvec_csr, sscratch_csr, sepc_csr, scause_csr, stval_csr, sip_csr, satp_csr, unmapped,
}

-- `gpr` is the array of 32 words.
pub record RegisterFile : Type 0 where
  pub gpr : ℕ → ℕ
  pub mstatus : ℕ
  pub mepc : ℕ
  pub mtvec : ℕ
  pub mcause : ℕ
  pub mie : ℕ
  pub mip : ℕ
  pub mtval : ℕ
  pub mscratch : ℕ
  pub medeleg : ℕ
  pub mideleg : ℕ
  pub sepc : ℕ
  pub stvec : ℕ
  pub scause : ℕ
  pub stval : ℕ
  pub sscratch : ℕ
  pub satp : ℕ
  pub privilege : ℕ

unfoldable pub new_register_file : RegisterFile
new_register_file = record {
  gpr = λ r. 0;
  mstatus = 0;
  mepc = 0;
  mtvec = 0;
  mcause = 0;
  mie = 0;
  mip = 0;
  mtval = 0;
  mscratch = 0;
  medeleg = 0;
  mideleg = 0;
  sepc = 0;
  stvec = 0;
  scause = 0;
  stval = 0;
  sscratch = 0;
  satp = 0;
  privilege = prv_m;
}

-- The four read ports have one body.
unfoldable pub read_rs1 : RegisterFile → ℕ → ℕ
read_rs1 f rs1 = if rs1 == 0 then 0 else f.gpr rs1

unfoldable pub write_rd : ℕ → ℕ → Bool → RegisterFile → RegisterFile
write_rd rd value reg_write f =
    if reg_write && not (rd == 0) && ltb rd 32
    then record f { gpr = λ r. if r == rd then value else f.gpr r }
    else f

unfoldable pub read_register : RegisterFile → Csr → ℕ
read_register f mvendorid = 0
read_register f marchid = 0
read_register f mimpid = 1
read_register f mhartid = 0
read_register f mstatus_csr = f.mstatus
read_register f misa = misa_rv32i
read_register f medeleg_csr = f.medeleg
read_register f mideleg_csr = f.mideleg
read_register f mie_csr = f.mie
read_register f mtvec_csr = f.mtvec
read_register f mscratch_csr = f.mscratch
read_register f mepc_csr = f.mepc
read_register f mcause_csr = f.mcause
read_register f mtval_csr = f.mtval
read_register f mip_csr = f.mip
read_register f sstatus_csr = bit_and f.mstatus sstatus_mask
read_register f sie_csr = bit_and f.mie sie_mask
read_register f stvec_csr = f.stvec
read_register f sscratch_csr = f.sscratch
read_register f sepc_csr = f.sepc
read_register f scause_csr = f.scause
read_register f stval_csr = f.stval
read_register f sip_csr = bit_and f.mip sie_mask
read_register f satp_csr = f.satp
read_register f unmapped = 0

unfoldable pub read_csr : RegisterFile → ℕ → ℕ
unfolding csr_of read_register
read_csr f csr = read_register f (csr_of csr)

unfoldable pub write_register : Csr → ℕ → RegisterFile → RegisterFile
write_register mstatus_csr v f = record f { mstatus = v }
write_register medeleg_csr v f = record f { medeleg = bit_and v medeleg_mask }
write_register mideleg_csr v f = record f { mideleg = bit_and v mideleg_mask }
write_register mie_csr v f = record f { mie = v }
write_register mtvec_csr v f = record f { mtvec = v }
write_register mscratch_csr v f = record f { mscratch = v }
write_register mepc_csr v f = record f { mepc = v }
write_register mcause_csr v f = record f { mcause = v }
write_register mtval_csr v f = record f { mtval = v }
write_register mip_csr v f = record f {
  mip = bit_or (bit_and f.mip (complement mip_msip)) (bit_and v mip_msip);
}
write_register sstatus_csr v f = record f {
  mstatus = bit_or (bit_and f.mstatus (complement sstatus_mask)) (bit_and v sstatus_mask);
}
write_register sie_csr v f = record f {
  mie = bit_or (bit_and f.mie (complement sie_mask)) (bit_and v sie_mask);
}
write_register stvec_csr v f = record f { stvec = v }
write_register sscratch_csr v f = record f { sscratch = v }
write_register sepc_csr v f = record f { sepc = v }
write_register scause_csr v f = record f { scause = v }
write_register stval_csr v f = record f { stval = v }
write_register sip_csr v f = record f {
  mip = bit_or (bit_and f.mip (complement mip_ssip)) (bit_and v mip_ssip);
}
write_register satp_csr v f = record f { satp = v }
write_register _ v f = f

unfoldable pub write_csr : ℕ → ℕ → RegisterFile → RegisterFile
unfolding csr_of write_register
write_csr csr v f = write_register (csr_of csr) v f

unfoldable pub set_privilege : ℕ → RegisterFile → RegisterFile
set_privilege prv f = record f { privilege = prv }

unfoldable pub hw_set_mtip : Bool → RegisterFile → RegisterFile
hw_set_mtip up f =
    if up
    then record f { mip = bit_or f.mip mip_mtip }
    else record f { mip = bit_and f.mip (complement mip_mtip) }

unfoldable pub interrupt_delegated : RegisterFile → ℕ → Bool
interrupt_delegated f cause =
    let code = bit_and cause 0xF in
    if code == 1
    then has_bits f.mideleg mip_ssip
    else if code == 3
    then has_bits f.mideleg mip_msip
    else if code == 5
    then has_bits f.mideleg mip_stip
    else if code == 7
    then has_bits f.mideleg mip_mtip
    else if code == 9
    then has_bits f.mideleg mip_seip
    else if code == 11
    then has_bits f.mideleg mip_meip
    else false

unfoldable pub exception_delegated : RegisterFile → ℕ → Bool
exception_delegated f cause = if leb 16 cause then false else has_bits f.medeleg (1 << cause)
