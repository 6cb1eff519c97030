-- ===== src/MemorySystem/Translate.antt =====
-- `MemorySystem::translate` of src/MemorySystem.cpp: the Sv32 page walk in front of the
-- translation buffer. The source's method is `const` and changes the buffer by a cast; here the
-- memory system is returned.
use simple_rv.Prelude.{
  ℕ, ◌+◌, ◌*◌, ◌<<◌, ◌>>◌, u32, Bool, true, false, ◌&&◌, ◌||◌, not, ◌==◌, ltb, if◌then◌else◌,
  bit_and, bit_or, has_bits, Option, none, some, Outcome, ok, ◌>>=◌,
}
use simple_rv.Types.{
  memory_size, prv_m, prv_u, mcause_inst_page_fault, mcause_store_page_fault,
  mcause_load_page_fault,
}
use simple_rv.MemorySystem.{MemorySystem, load_loop}
use simple_rv.MemorySystem.TlbEntries.{TranslationResult, tlb_insert, tlb_lookup}

-- What the caller asks for: the arguments that `translate` passes down its own body.
pub record Access : Type 0 where
  pub vaddr : ℕ
  pub is_write : Bool
  pub is_fetch : Bool
  pub satp : ℕ
  pub privilege : ℕ

abbrev pub fault_cause : Access → ℕ
fault_cause a =
    if a.is_fetch
    then mcause_inst_page_fault
    else if a.is_write
    then mcause_store_page_fault
    else mcause_load_page_fault

-- The checks on a leaf entry: the cause of the fault, if there is one.
unfoldable pub leaf_fault : Access → ℕ → Option ℕ
leaf_fault a pte =
    if a.is_fetch && not (has_bits pte 0x08)
    then some mcause_inst_page_fault
    else if a.is_write && not (has_bits pte 0x04)
    then some mcause_store_page_fault
    else if not a.is_write && not a.is_fetch && not (has_bits pte 0x02)
    then some mcause_load_page_fault
    else if a.privilege == prv_u && not (has_bits pte 0x10)
    then some (fault_cause a)
    else none

unfoldable pub tlb_flags : ℕ → ℕ
tlb_flags pte =
    bit_or (bit_or (if has_bits pte 0x02 then 0x1 else 0) (if has_bits pte 0x04 then 0x2 else 0))
      (if has_bits pte 0x08 then 0x4 else 0)

abbrev pub pte_ppn : ℕ → ℕ
pte_ppn pte = bit_and (pte >> 10) 0x003FFFFF

abbrev pub vpn1_of : ℕ → ℕ
vpn1_of vaddr = bit_and (vaddr >> 22) 0x3FF

abbrev pub vpn0_of : ℕ → ℕ
vpn0_of vaddr = bit_and (vaddr >> 12) 0x3FF

abbrev pub vpn_full_of : ℕ → ℕ
vpn_full_of vaddr = bit_or (vpn1_of vaddr << 10) (vpn0_of vaddr)

abbrev pub fail : TranslationResult → ℕ → MemorySystem → TranslationResult × MemorySystem
fail result cause m = (record result { fault = true; cause = cause }, m)

-- A leaf: its checks, and on success the new buffer entry and the address.
unfoldable pub finish_leaf :
    Access → ℕ → ℕ → TranslationResult → MemorySystem → TranslationResult × MemorySystem
finish_leaf a pte paddr result m = elim (leaf_fault a pte) [
  | some cause ↦ fail result cause m
  | none ↦ (
    record result { paddr = paddr; fault = false },
    record m { tlb = tlb_insert (vpn_full_of a.vaddr) (pte_ppn pte) (tlb_flags pte) m.tlb },
  )
]

unfoldable pub walk_level0 :
    Access → ℕ → TranslationResult → MemorySystem → Outcome (TranslationResult × MemorySystem)
walk_level0 a pte1 result m =
    let l0_addr = u32 ((pte_ppn pte1 << 12) + vpn0_of a.vaddr * 4) in
    if ltb memory_size (u32 (l0_addr + 4))
    then ok (fail result (fault_cause a) m)
    else load_loop m.memory l0_addr 4 0 0 >>= λ pte0.
        if not (has_bits pte0 0x01)
        then ok (fail result (fault_cause a) m)
        else ok (finish_leaf a pte0 (bit_or (pte_ppn pte0 << 12) (bit_and a.vaddr 0xFFF)) result m)

unfoldable pub walk :
    Access → TranslationResult → MemorySystem → Outcome (TranslationResult × MemorySystem)
walk a result m =
    let pte1_addr = u32 ((bit_and a.satp 0x003FFFFF << 12) + vpn1_of a.vaddr * 4) in
    if ltb memory_size (u32 (pte1_addr + 4))
    then ok (fail result (fault_cause a) m)
    else load_loop m.memory pte1_addr 4 0 0 >>= λ pte1.
        if not (has_bits pte1 0x01)
        then ok (fail result (fault_cause a) m)
        else if has_bits pte1 0x02 || has_bits pte1 0x08
        then ok
            (finish_leaf a pte1 (bit_or (pte_ppn pte1 << 12) (bit_and a.vaddr 0x003FFFFF)) result m)
        else walk_level0 a pte1 result m

-- After a miss or a refusal of the buffer the walk goes on with the result that it left.
unfoldable pub translate_sv32 :
    Access → TranslationResult → MemorySystem → Outcome (TranslationResult × MemorySystem)
translate_sv32 a result m =
    let (found, looked_up) = tlb_lookup m.tlb (vpn_full_of a.vaddr) result a.is_write a.is_fetch in
    if found then ok (looked_up, m) else walk a looked_up m

unfoldable pub translate : Access → MemorySystem → Outcome (TranslationResult × MemorySystem)
translate a m =
    let direct : TranslationResult = record { fault = false; paddr = a.vaddr; cause = 0 } in
    if a.privilege == prv_m
    then ok (direct, m)
    else if bit_and (a.satp >> 31) 0x1 == 0
    then ok (direct, m)
    else translate_sv32 a direct m
