-- ===== src/MemorySystem.antt =====
-- include/MemorySystem.h and src/MemorySystem.cpp: physical memory, the devices that are mapped
-- into it (CLINT timer and UART) and program loading. The translation buffer is in TlbEntries,
-- the page walk in Translate. The memory vector is a function on indexes; an index from 128 MB
-- on is outside of it, and using one is undefined.
pub mod Keyboard
pub mod TlbEntries
pub mod Translate
pub mod RoundTrip
pub mod Access
pub mod Flush
use simple_rv.Prelude.{
  ℕ, zero, suc, ◌+◌, ◌*◌, ◌^◌, ◌<<◌, ◌>>◌, u32, Bool, true, false, ◌&&◌, not, ◌==◌, ltb, leb,
  if◌then◌else◌, bit_and, bit_or, min, Option, none, some, List, [], ◌∷◌, ◌++◌, length, get_or,
  Outcome, ok, thrown, undefined, ◌>>=◌, read_out_of_bounds, write_out_of_bounds,
  fetch_out_of_bounds, open_failed,
}
use simple_rv.Types.{
  memory_size, clint_base, clint_mtimecmp, clint_mtime, uart_tx_addr, uart_lsr_addr, count,
}
use Keyboard.{Host, check_host_keyboard}
use TlbEntries.{Tlb, new_tlb}

pub record MemorySystem : Type 0 where
  pub memory : ℕ → ℕ
  pub mtime : ℕ
  pub mtimecmp : ℕ
  pub tlb : Tlb
  pub host : Host

-- `MemorySystem()`, beside a keyboard that will give `input`.
unfoldable pub new_memory_system : List (Option ℕ) → MemorySystem
unfolding new_tlb
new_memory_system input = record {
  memory = λ a. 0;
  mtime = 0;
  mtimecmp = 0;
  tlb = new_tlb;
  host = record { buffered_char = 0; has_buffered_char = false; input = input; output = [] };
}

-- `memory[index]`.
unfoldable pub byte_at : (ℕ → ℕ) → ℕ → Outcome ℕ
byte_at memory index = if ltb index memory_size then ok (memory index) else undefined

-- `for (i = 0; i < n; ++i) data |= (Word)memory[addr + i] << (8 * i)`, with `left` rounds left.
unfoldable pub load_loop : (ℕ → ℕ) → ℕ → ℕ → ℕ → ℕ → Outcome ℕ
unfolding byte_at
load_loop memory addr zero i acc = ok acc
load_loop memory addr (suc left) i acc = byte_at memory (u32 (addr + i)) >>= λ b.
    load_loop memory addr left (i + 1) (bit_or acc (b << (8 * i)))

-- `for (i = 0; i < n; ++i) memory[addr + i] = (data >> (8 * i)) & 0xFF`.
unfoldable pub store_loop : ℕ → ℕ → ℕ → ℕ → (ℕ → ℕ) → Outcome (ℕ → ℕ)
store_loop addr value zero i memory = ok memory
store_loop addr value (suc left) i memory =
    let index = u32 (addr + i) in
    let byte = bit_and (value >> (8 * i)) 0xFF in
    let rest = store_loop addr value left (i + 1) (λ a. if a == index then byte else memory a) in
    if ltb index memory_size then rest else undefined

-- `static_cast<Word>` of a `char`, which is signed on the hosts that the build files name.
abbrev pub word_of_char : ℕ → ℕ
word_of_char c = if ltb c 128 then c else c + 0xFFFFFF00

unfoldable pub read_clint : MemorySystem → ℕ → ℕ → ℕ
read_clint m addr n =
    if addr == clint_mtime && n == 4
    then bit_and m.mtime 0xFFFFFFFF
    else if addr == clint_mtime + 4 && n == 4
    then bit_and (m.mtime >> 32) 0xFFFFFFFF
    else if addr == clint_mtimecmp && n == 4
    then bit_and m.mtimecmp 0xFFFFFFFF
    else if addr == clint_mtimecmp + 4 && n == 4
    then bit_and (m.mtimecmp >> 32) 0xFFFFFFFF
    else 0

abbrev pub in_clint : ℕ → Bool
in_clint addr = leb clint_base addr && ltb addr (clint_base + 0x10000)

-- `read` after its poll of the keyboard.
unfoldable pub read_polled : ℕ → ℕ → MemorySystem → Outcome (ℕ × MemorySystem)
read_polled addr n m =
    if in_clint addr
    then ok (read_clint m addr n, m)
    else if addr == uart_lsr_addr
    then ok (if m.host.has_buffered_char then bit_or 0x20 0x01 else 0x20, m)
    else if addr == uart_tx_addr
    then (if m.host.has_buffered_char
        then ok (
          word_of_char m.host.buffered_char,
          record m { host = record (m.host) { has_buffered_char = false } },
        )
        else ok (0, m))
    else if ltb memory_size (u32 (addr + n))
    then thrown read_out_of_bounds
    else load_loop m.memory addr n 0 0 >>= λ v. ok (v, m)

unfoldable pub read : ℕ → ℕ → MemorySystem → Outcome (ℕ × MemorySystem)
read addr n m = read_polled addr n (record m { host = check_host_keyboard m.host })

-- `memcpy` of `left` bytes into a little-endian integer.
unfoldable pub copy_bytes : (ℕ → ℕ) → ℕ → ℕ → Outcome ℕ
unfolding byte_at
copy_bytes memory index zero = ok 0
copy_bytes memory index (suc left) =
    byte_at memory index >>= λ b. copy_bytes memory (index + 1) left >>= λ rest. ok (b + 256 * rest)

unfoldable pub read_double_instr : ℕ → MemorySystem → Outcome ℕ
read_double_instr pc m =
    if ltb memory_size (u32 (pc + 8)) then thrown fetch_out_of_bounds else copy_bytes m.memory pc 8

unfoldable pub write_clint : ℕ → ℕ → ℕ → MemorySystem → MemorySystem
write_clint addr n value m =
    if addr == clint_mtimecmp && n == 4
    then record m { mtimecmp = bit_or (bit_and m.mtimecmp 0xFFFFFFFF00000000) value }
    else if addr == clint_mtimecmp + 4 && n == 4
    then record m { mtimecmp = bit_or (bit_and m.mtimecmp 0xFFFFFFFF) (value * 2 ^ 32) }
    else m

unfoldable pub write : ℕ → ℕ → ℕ → MemorySystem → Outcome MemorySystem
write addr n value m =
    if in_clint addr
    then ok (write_clint addr n value m)
    else if addr == uart_tx_addr
    then ok
        (record m { host = record (m.host) { output = m.host.output ++ bit_and value 0xFF ∷ [] } })
    else if ltb memory_size (u32 (addr + n))
    then thrown write_out_of_bounds
    else store_loop addr value n 0 m.memory >>= λ memory. ok (record m { memory = memory })

-- `file` is what the named file holds, `none` if it cannot be opened. What is longer than the
-- memory is cut off.
unfoldable pub load_program : Option (List ℕ) → MemorySystem → Outcome MemorySystem
load_program none m = thrown open_failed
load_program (some file) m =
    let size = min (length file) memory_size in
    ok (record m { memory = λ a. if ltb a size then get_or file a 0 else m.memory a })

unfoldable pub increment_timer : MemorySystem → MemorySystem
unfolding count
increment_timer m = record m { mtime = count m.mtime }

unfoldable pub timer_interrupt_pending : MemorySystem → Bool
timer_interrupt_pending m = leb m.mtimecmp m.mtime && not (m.mtimecmp == 0)
