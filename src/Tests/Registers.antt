-- ===== src/Tests/Registers.antt =====
-- The register file's theorems at concrete registers.
use simple_rv.Prelude.{◌≡◌, arith, true, has_bits}
use simple_rv.Prelude.Bits.{merge}
use simple_rv.Types.{mip_mtip}
use simple_rv.RegisterFile.{new_register_file, read_csr, write_csr, hw_set_mtip}
use simple_rv.RegisterFile.Address.{csr_of}
use simple_rv.RegisterFile.Valid.{new_register_file-IsValid}
use simple_rv.RegisterFile.ReadWrite.{
  read_csr-write_csr, read_csr-write_csr_ne, mtip_driven_by_hardware, storage, writable,
}

-- `sstatus` takes the bits of its mask only.
read_csr-write_csr_example :
    read_csr (write_csr 0x100 0xFFFFFFFF new_register_file) 0x100
    ≡ merge (read_csr new_register_file 0x100) 0xFFFFFFFF (writable (csr_of 0x100))
read_csr-write_csr_example =
    read_csr-write_csr 0x100 0xFFFFFFFF new_register_file (omega arith) new_register_file-IsValid

read_csr-write_csr_ne_example :
    read_csr (write_csr 0x305 0x1000 new_register_file) 0x105 ≡ read_csr new_register_file 0x105
unfolding csr_of storage
read_csr-write_csr_ne_example =
    read_csr-write_csr_ne 0x305 0x105 0x1000 new_register_file (ground arith)

mtip_driven_by_hardware_example :
    has_bits (write_csr 0x344 0 (hw_set_mtip true new_register_file)).mip mip_mtip ≡ true
mtip_driven_by_hardware_example = mtip_driven_by_hardware 0x344 0 true new_register_file
