-- ===== src/MemorySystem/Access.antt =====
-- `MemorySystem::read` and `MemorySystem::write` of src/MemorySystem.cpp at addresses that no device
-- answers.
use simple_rv.Prelude.{
  ℕ, suc, ◌+◌, ◌*◌, ◌%◌, ◌^◌, ◌≤◌, ◌<◌, u32, ◌≡◌, refl, ◌∙◌, arith, false, ◌==◌, ltb, if◌then◌else◌,
  Outcome, ok, thrown, undefined, ◌>>=◌, read_out_of_bounds, write_out_of_bounds,
}
use simple_rv.Types.{memory_size, uart_lsr_addr, uart_tx_addr}
use simple_rv.MemorySystem.{
  MemorySystem, byte_at, load_loop, store_loop, in_clint, read_polled, read, write,
}
use simple_rv.MemorySystem.Keyboard.{check_host_keyboard}
use simple_rv.MemorySystem.RoundTrip.{Stored, store_loop-Stored, load_loop-stored}

-- No device is mapped at the address.
pub record IsPlain (addr : ℕ) : Type 0 where
  pub not_clint : in_clint addr ≡ false
  pub not_lsr : (addr == uart_lsr_addr) ≡ false
  pub not_uart : (addr == uart_tx_addr) ≡ false

abbrev pub polled : MemorySystem → MemorySystem
polled m = record m { host = check_host_keyboard m.host }

abbrev pub with_memory : MemorySystem → (ℕ → ℕ) → MemorySystem
with_memory m memory = record m { memory = memory }

abbrev pub load_from : MemorySystem → ℕ → ℕ → Outcome (ℕ × MemorySystem)
load_from m addr n = load_loop m.memory addr n 0 0 >>= λ v. ok (v, m)

pub read_plain :
    (addr n : ℕ) (m : MemorySystem)
    → IsPlain addr
    → read addr n m ≡ (
        if ltb memory_size (u32 (addr + n))
        then thrown read_out_of_bounds
        else load_from (polled m) addr n)
unfolding read read_polled
read_plain addr n m p = rw (p.not_clint, p.not_lsr, p.not_uart) refl

write_plain :
    (addr n v : ℕ) (m : MemorySystem)
    → IsPlain addr
    → write addr n v m ≡ (
        if ltb memory_size (u32 (addr + n))
        then thrown write_out_of_bounds
        else (store_loop addr v n 0 m.memory >>= λ memory. ok (with_memory m memory)))
unfolding write
write_plain addr n v m p = rw (p.not_clint, p.not_uart) refl

in_bounds : (addr n : ℕ) → addr + n ≤ memory_size → ltb memory_size (u32 (addr + n)) ≡ false
in_bounds addr n h = ground arith

load_from-ok :
    (addr n : ℕ) (m : MemorySystem) {v : ℕ}
    → load_loop m.memory addr n 0 0 ≡ ok v
    → load_from m addr n ≡ ok (v, m)
load_from-ok addr n m h = rw h refl

-- A write of up to four bytes to physical memory returns, stores the bytes of the value from the
-- lowest up, changes no other byte and nothing else of the memory system; and a read of as many
-- bytes at the same address then gives the value back, cut to that width.
pub read-write :
    (addr n v : ℕ) (m : MemorySystem)
    → IsPlain addr
    → addr + n ≤ memory_size
    → n ≤ 4
    → (memory : ℕ → ℕ) × (write addr n v m ≡ ok (with_memory m memory))
      × Stored addr v 0 n m.memory memory
      × (read addr n (with_memory m memory) ≡ ok (v % 2 ^ (8 * n), polled (with_memory m memory)))
read-write addr n v m p h w =
    let stored = store_loop-Stored addr v n 0 m.memory (omega arith) in
    let loaded =
      load_loop-stored addr v n 0 stored.0 (omega arith) (omega arith)
        (λ j q r. stored.2.inside j q r) in
    let start : v % 2 ^ (8 * 0) ≡ 0 = omega arith in
    let whole : 0 + n ≡ n = omega arith in
    (
      stored.0,
      rw (write_plain addr n v m p, in_bounds addr n h, stored.1) refl,
      stored.2,
      read_plain addr n (with_memory m stored.0) p
          ∙ rw (in_bounds addr n h)
              (load_from-ok addr n (polled (with_memory m stored.0)) (rw (start, whole) at loaded)),
    )

-- For an access of one to four bytes whose end wraps round 32 bits, at an address that no device
-- answers, the bounds check passes and both a read and a write are outside of the memory vector.
pub bounds_check_wraps :
    (addr n v : ℕ) (m : MemorySystem)
    → IsPlain addr
    → addr < 2 ^ 32
    → 2 ^ 32 ≤ addr + suc n
    → n < 4
    → (read addr (suc n) m ≡ undefined) × (write addr (suc n) v m ≡ undefined)
unfolding load_loop store_loop byte_at
bounds_check_wraps addr n v m p h w k =
    let passes : ltb memory_size (u32 (addr + suc n)) ≡ false = ground arith in
    let outside : ltb (u32 (addr + 0)) memory_size ≡ false = ground arith in
    (
      rw (read_plain addr (suc n) m p, passes, outside) refl,
      rw (write_plain addr (suc n) v m p, passes, outside) refl,
    )
