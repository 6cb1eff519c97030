-- ===== src/Types/Constants.antt =====
-- The constants of include/common.h. The addresses of control registers are `Csr` in
-- RegisterFile/Address.
use simple_rv.Prelude.{ℕ, ◌*◌}

abbrev pub memory_size : ℕ
memory_size = 128 * 1024 * 1024

abbrev pub uart_tx_addr : ℕ
uart_tx_addr = 0x10000000

abbrev pub uart_lsr_addr : ℕ
uart_lsr_addr = 0x10000005

abbrev pub clint_base : ℕ
clint_base = 0x02000000

abbrev pub clint_mtimecmp : ℕ
clint_mtimecmp = 0x02004000

abbrev pub clint_mtime : ℕ
clint_mtime = 0x0200BFF8

abbrev pub mstatus_sie : ℕ
mstatus_sie = 0x00000002

abbrev pub mstatus_mie : ℕ
mstatus_mie = 0x00000008

abbrev pub mstatus_spie : ℕ
mstatus_spie = 0x00000020

abbrev pub mstatus_mpie : ℕ
mstatus_mpie = 0x00000080

abbrev pub mstatus_spp : ℕ
mstatus_spp = 0x00000100

abbrev pub mstatus_mpp : ℕ
mstatus_mpp = 0x00001800

-- MSTATUS_SIE | MSTATUS_SPIE | MSTATUS_SPP
abbrev pub sstatus_mask : ℕ
sstatus_mask = 0x122

abbrev pub prv_u : ℕ
prv_u = 0

abbrev pub prv_s : ℕ
prv_s = 1

abbrev pub prv_m : ℕ
prv_m = 3

-- The masks of MIE and MIP, which agree.
abbrev pub mip_ssip : ℕ
mip_ssip = 0x00000002

abbrev pub mip_msip : ℕ
mip_msip = 0x00000008

abbrev pub mip_stip : ℕ
mip_stip = 0x00000020

abbrev pub mip_mtip : ℕ
mip_mtip = 0x00000080

abbrev pub mip_seip : ℕ
mip_seip = 0x00000200

abbrev pub mip_meip : ℕ
mip_meip = 0x00000800

-- MIE_SSIE | MIE_STIE | MIE_SEIE
abbrev pub sie_mask : ℕ
sie_mask = 0x222

-- The bits of MEDELEG_*: 0 to 9, 12, 13 and 15.
abbrev pub medeleg_mask : ℕ
medeleg_mask = 0xB3FF

-- The six bits of MIP_*.
abbrev pub mideleg_mask : ℕ
mideleg_mask = 0xAAA

abbrev pub mcause_illegal : ℕ
mcause_illegal = 2

abbrev pub mcause_load_misaligned : ℕ
mcause_load_misaligned = 4

abbrev pub mcause_store_misaligned : ℕ
mcause_store_misaligned = 6

abbrev pub mcause_ecall_u : ℕ
mcause_ecall_u = 8

abbrev pub mcause_ecall_s : ℕ
mcause_ecall_s = 9

abbrev pub mcause_ecall_m : ℕ
mcause_ecall_m = 11

abbrev pub mcause_inst_page_fault : ℕ
mcause_inst_page_fault = 12

abbrev pub mcause_load_page_fault : ℕ
mcause_load_page_fault = 13

abbrev pub mcause_store_page_fault : ℕ
mcause_store_page_fault = 15

abbrev pub mcause_timer_int : ℕ
mcause_timer_int = 0x80000007

abbrev pub mcause_msi_int : ℕ
mcause_msi_int = 0x80000003

abbrev pub mcause_mei_int : ℕ
mcause_mei_int = 0x8000000B

abbrev pub mcause_ssi_int : ℕ
mcause_ssi_int = 0x80000001

abbrev pub mcause_sti_int : ℕ
mcause_sti_int = 0x80000005

abbrev pub mcause_sei_int : ℕ
mcause_sei_int = 0x80000009

abbrev pub misa_rv32i : ℕ
misa_rv32i = 0x40000104
