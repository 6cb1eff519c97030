-- ===== src/RegisterFile/Address.antt =====
-- The control registers that the `switch` of src/RegisterFile.cpp tells apart, and the address
-- of each (the macros CSR_* of include/common.h).
use simple_rv.Prelude.{ℕ, ◌==◌, if◌then◌else◌}

pub data Csr : Type 0 where
  mvendorid marchid mimpid mhartid : Csr
  mstatus_csr misa medeleg_csr mideleg_csr mie_csr mtvec_csr : Csr
  mscratch_csr mepc_csr mcause_csr mtval_csr mip_csr : Csr
  sstatus_csr sie_csr stvec_csr : Csr
  sscratch_csr sepc_csr scause_csr stval_csr sip_csr : Csr
  satp_csr : Csr
  unmapped : Csr

unfoldable pub csr_of : ℕ → Csr
csr_of a =
    if a == 0xF11
    then mvendorid
    else if a == 0xF12
    then marchid
    else if a == 0xF13
    then mimpid
    else if a == 0xF14
    then mhartid
    else if a == 0x300
    then mstatus_csr
    else if a == 0x301
    then misa
    else if a == 0x302
    then medeleg_csr
    else if a == 0x303
    then mideleg_csr
    else if a == 0x304
    then mie_csr
    else if a == 0x305
    then mtvec_csr
    else if a == 0x340
    then mscratch_csr
    else if a == 0x341
    then mepc_csr
    else if a == 0x342
    then mcause_csr
    else if a == 0x343
    then mtval_csr
    else if a == 0x344
    then mip_csr
    else if a == 0x100
    then sstatus_csr
    else if a == 0x104
    then sie_csr
    else if a == 0x105
    then stvec_csr
    else if a == 0x140
    then sscratch_csr
    else if a == 0x141
    then sepc_csr
    else if a == 0x142
    then scause_csr
    else if a == 0x143
    then stval_csr
    else if a == 0x144
    then sip_csr
    else if a == 0x180
    then satp_csr
    else unmapped

-- The address of a register, for the calls in the other files.
abbrev pub addr_of : Csr → ℕ
addr_of mvendorid = 0xF11
addr_of marchid = 0xF12
addr_of mimpid = 0xF13
addr_of mhartid = 0xF14
addr_of mstatus_csr = 0x300
addr_of misa = 0x301
addr_of medeleg_csr = 0x302
addr_of mideleg_csr = 0x303
addr_of mie_csr = 0x304
addr_of mtvec_csr = 0x305
addr_of mscratch_csr = 0x340
addr_of mepc_csr = 0x341
addr_of mcause_csr = 0x342
addr_of mtval_csr = 0x343
addr_of mip_csr = 0x344
addr_of sstatus_csr = 0x100
addr_of sie_csr = 0x104
addr_of stvec_csr = 0x105
addr_of sscratch_csr = 0x140
addr_of sepc_csr = 0x141
addr_of scause_csr = 0x142
addr_of stval_csr = 0x143
addr_of sip_csr = 0x144
addr_of satp_csr = 0x180
addr_of unmapped = 0
