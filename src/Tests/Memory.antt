-- ===== src/Tests/Memory.antt =====
-- The memory system's theorems at concrete addresses.
use simple_rv.Prelude.{ℕ, ◌≡◌, refl, arith, [], ok, undefined}
use simple_rv.MemorySystem.{MemorySystem, new_memory_system, read, write}
use simple_rv.MemorySystem.RoundTrip.{Stored}
use simple_rv.MemorySystem.Access.{polled, with_memory, read-write, bounds_check_wraps}

abbrev machine_memory : MemorySystem
machine_memory = new_memory_system []

read-write_example :
    (memory : ℕ → ℕ) × (write 0x1000 4 0xDEADBEEF machine_memory
      ≡ ok (with_memory machine_memory memory))
    × Stored 0x1000 0xDEADBEEF 0 4 machine_memory.memory memory
    × (read 0x1000 4 (with_memory machine_memory memory)
        ≡ ok (0xDEADBEEF, polled (with_memory machine_memory memory)))
read-write_example =
    read-write 0x1000 4 0xDEADBEEF machine_memory
      (record { not_clint = refl; not_lsr = refl; not_uart = refl }) (omega arith) (omega arith)

bounds_check_wraps_example :
    (read 0xFFFFFFFC 4 machine_memory ≡ undefined)
    × (write 0xFFFFFFFC 4 1 machine_memory ≡ undefined)
bounds_check_wraps_example =
    bounds_check_wraps 0xFFFFFFFC 3 1 machine_memory
      (record { not_clint = refl; not_lsr = refl; not_uart = refl }) (omega arith) (omega arith)
      (omega arith)
