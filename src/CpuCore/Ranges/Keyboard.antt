-- ===== src/CpuCore/Ranges/Keyboard.antt =====
-- What `MemorySystem::read` and `MemorySystem::translate` of src/MemorySystem.cpp return, and the
-- keyboard buffer that they leave.
use simple_rv.Prelude.{
  ℕ, zero, suc, ◌+◌, ◌*◌, ◌/◌, ◌^◌, ◌>>◌, ◌≡◌, refl, arith, u32, ◌<<◌, IsWord, Bool, ◌==◌, ltb,
  if_split, bit_or, bit_and, Option, none, some, List, [], ◌∷◌, has_bits, not, ◌||◌,
}
use simple_rv.Prelude.Bits.{bit_or-lt, bit_and-le}
use simple_rv.Types.{memory_size, uart_lsr_addr, uart_tx_addr, prv_m}
use simple_rv.MemorySystem.{
  MemorySystem, byte_at, load_loop, read_clint, read_polled, read, in_clint,
}
use simple_rv.MemorySystem.Keyboard.{Host, poll, check_host_keyboard}
use simple_rv.MemorySystem.TlbEntries.{TlbEntry, TranslationResult, tlb_lookup, lookup_entries, hit}
use simple_rv.MemorySystem.Translate.{
  Access, translate, translate_sv32, walk, walk_level0, finish_leaf, leaf_fault, fault_cause,
  vpn_full_of, fail, vpn1_of, vpn0_of, pte_ppn,
}
use simple_rv.CpuCore.Invariant.Memory.{Ensures, Ensures-bind, Ensures-chain}
use simple_rv.CpuCore.Ranges.{AreBytes, IsByteHost}

poll-IsByteHost :
    (keys : List (Option ℕ)) (h : Host) → AreBytes keys → IsByteHost h → IsByteHost (poll keys h)
unfolding poll
poll-IsByteHost [] h b k = k
poll-IsByteHost (none ∷ rest) h b k = record { buffered = k.buffered; waiting = b }
poll-IsByteHost (some ch ∷ rest) h b k = record { buffered = b.0; waiting = b.1 }

check_host_keyboard-IsByteHost : (h : Host) → IsByteHost h → IsByteHost (check_host_keyboard h)
unfolding check_host_keyboard
check_host_keyboard-IsByteHost h k =
    if_split IsByteHost h.has_buffered_char (λ _. k) (λ _. poll-IsByteHost h.input h k.waiting k)

pub load_loop-IsWord :
    (memory : ℕ → ℕ) (addr left i acc : ℕ)
    → IsWord acc
    → Ensures IsWord (load_loop memory addr left i acc)
unfolding load_loop
load_loop-IsWord memory addr zero i acc h = h
load_loop-IsWord memory addr (suc left) i acc h =
    Ensures-bind IsWord (byte_at memory (u32 (addr + i))) _ λ b.
      load_loop-IsWord memory addr left (i + 1) (bit_or acc (b << (8 * i)))
        (bit_or-lt 32 acc (b << (8 * i)) h (omega arith))

-- A word was read, and the keyboard buffer holds bytes.
abbrev pub IsRead : ℕ × MemorySystem → Type 0
IsRead r = IsWord r.0 × IsByteHost r.1.host

read_clint-IsWord : (m : MemorySystem) (addr n : ℕ) → IsWord (read_clint m addr n)
unfolding read_clint
read_clint-IsWord m addr n = ground (
  arith,
  bit_and-le m.mtime 0xFFFFFFFF,
  bit_and-le (m.mtime / 2 ^ 32) 0xFFFFFFFF,
  bit_and-le m.mtimecmp 0xFFFFFFFF,
  bit_and-le (m.mtimecmp / 2 ^ 32) 0xFFFFFFFF,
)

read_polled-IsRead :
    (addr n : ℕ) (m : MemorySystem) → IsByteHost m.host → Ensures IsRead (read_polled addr n m)
unfolding read_polled
read_polled-IsRead addr n m h =
    if_split (Ensures IsRead) (in_clint addr) (λ _. (read_clint-IsWord m addr n, h))
      λ _.
        if_split (Ensures IsRead) (addr == uart_lsr_addr)
          (λ _. (if_split IsWord m.host.has_buffered_char (λ _. omega arith) (λ _. omega arith), h))
          λ _.
            if_split (Ensures IsRead) (addr == uart_tx_addr)
              (λ _.
                if_split (Ensures IsRead) m.host.has_buffered_char
                  (λ _. (
                    ground (arith, h.buffered),
                    record { buffered = h.buffered; waiting = h.waiting },
                  ))
                  (λ _. (omega arith, h)))
              λ _.
                if_split (Ensures IsRead) (ltb memory_size (u32 (addr + n))) (λ _. tt)
                  λ _.
                    Ensures-chain IsWord IsRead (load_loop m.memory addr n 0 0) _
                      (load_loop-IsWord m.memory addr n 0 0 (omega arith)) (λ v w. (w, h))

pub read-IsRead :
    (addr n : ℕ) (m : MemorySystem) → IsByteHost m.host → Ensures IsRead (read addr n m)
unfolding read
read-IsRead addr n m h =
    read_polled-IsRead addr n (record m { host = check_host_keyboard m.host })
      (check_host_keyboard-IsByteHost m.host h)

-- A cause is a word, and the keyboard buffer is that of `m`.
abbrev pub IsTranslated : MemorySystem → TranslationResult × MemorySystem → Type 0
IsTranslated m t = IsWord t.0.cause × (t.1.host ≡ m.host)

lookup_entries-IsWord :
    (es : List TlbEntry) (vpn : ℕ) (result : TranslationResult) (is_write is_fetch : Bool)
    → IsWord result.cause
    → IsWord (lookup_entries es vpn result is_write is_fetch).1.cause
unfolding lookup_entries hit
lookup_entries-IsWord [] vpn result is_write is_fetch h = h
lookup_entries-IsWord (e ∷ es) vpn result is_write is_fetch h =
    let rest = lookup_entries-IsWord es vpn result is_write is_fetch h in ground arith

fault_cause-IsWord : (a : Access) → IsWord (fault_cause a)
fault_cause-IsWord a = ground arith

fail-IsTranslated :
    (a : Access) (result : TranslationResult) (m : MemorySystem)
    → IsTranslated m (fail result (fault_cause a) m)
fail-IsTranslated a result m = (fault_cause-IsWord a, refl)

finish_leaf-IsTranslated :
    (a : Access) (pte paddr : ℕ) (result : TranslationResult) (m : MemorySystem)
    → IsWord result.cause
    → IsTranslated m (finish_leaf a pte paddr result m)
unfolding finish_leaf leaf_fault
finish_leaf-IsTranslated a pte paddr result m h = ground arith

walk_level0-IsTranslated :
    (a : Access) (pte1 : ℕ) (result : TranslationResult) (m : MemorySystem)
    → IsWord result.cause
    → Ensures (IsTranslated m) (walk_level0 a pte1 result m)
unfolding walk_level0
walk_level0-IsTranslated a pte1 result m h =
    let l0_addr = u32 ((pte_ppn pte1 << 12) + vpn0_of a.vaddr * 4) in
    if_split (Ensures (IsTranslated m)) (ltb memory_size (u32 (l0_addr + 4)))
      (λ _. fail-IsTranslated a result m)
      λ _. Ensures-bind (IsTranslated m) (load_loop m.memory l0_addr 4 0 0) _ λ pte0.
        if_split (Ensures (IsTranslated m)) (not (has_bits pte0 0x01))
          (λ _. fail-IsTranslated a result m) (λ _. finish_leaf-IsTranslated a pte0 _ result m h)

walk-IsTranslated :
    (a : Access) (result : TranslationResult) (m : MemorySystem)
    → IsWord result.cause
    → Ensures (IsTranslated m) (walk a result m)
unfolding walk
walk-IsTranslated a result m h =
    let pte1_addr = u32 ((bit_and a.satp 0x003FFFFF << 12) + vpn1_of a.vaddr * 4) in
    if_split (Ensures (IsTranslated m)) (ltb memory_size (u32 (pte1_addr + 4)))
      (λ _. fail-IsTranslated a result m)
      λ _. Ensures-bind (IsTranslated m) (load_loop m.memory pte1_addr 4 0 0) _ λ pte1.
        if_split (Ensures (IsTranslated m)) (not (has_bits pte1 0x01))
          (λ _. fail-IsTranslated a result m)
          λ _.
            if_split (Ensures (IsTranslated m)) (has_bits pte1 0x02 || has_bits pte1 0x08)
              (λ _. finish_leaf-IsTranslated a pte1 _ result m h)
              (λ _. walk_level0-IsTranslated a pte1 result m h)

translate_sv32-IsTranslated :
    (a : Access) (result : TranslationResult) (m : MemorySystem)
    → IsWord result.cause
    → Ensures (IsTranslated m) (translate_sv32 a result m)
unfolding translate_sv32 tlb_lookup
translate_sv32-IsTranslated a result m h =
    let looked =
      lookup_entries-IsWord m.tlb.entries (vpn_full_of a.vaddr) result a.is_write a.is_fetch h in
    if_split (Ensures (IsTranslated m))
      (tlb_lookup m.tlb (vpn_full_of a.vaddr) result a.is_write a.is_fetch).0 (λ _. (looked, refl))
      (λ _. walk-IsTranslated a _ m looked)

pub translate-IsTranslated :
    (a : Access) (m : MemorySystem) → Ensures (IsTranslated m) (translate a m)
unfolding translate
translate-IsTranslated a m =
    if_split (Ensures (IsTranslated m)) (a.privilege == prv_m) (λ _. (omega arith, refl))
      λ _.
        if_split (Ensures (IsTranslated m)) (bit_and (a.satp >> 31) 0x1 == 0)
          (λ _. (omega arith, refl)) (λ _. translate_sv32-IsTranslated a _ m (omega arith))
