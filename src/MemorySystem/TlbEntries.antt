-- ===== src/MemorySystem/TlbEntries.antt =====
-- The translation buffer of include/MemorySystem.h and src/MemorySystem.cpp: eight entries that
-- are replaced in turn.
use simple_rv.Prelude.{
  ℕ, ◌+◌, ◌%◌, ◌<<◌, Bool, true, false, ◌&&◌, not, ◌==◌, if◌then◌else◌, bit_and, bit_or, has_bits,
  List, [], ◌∷◌, map, set, replicate,
}
use simple_rv.Types.{mcause_inst_page_fault, mcause_store_page_fault, mcause_load_page_fault}

pub record TranslationResult : Type 0 where
  pub fault : Bool
  pub paddr : ℕ
  pub cause : ℕ

-- R is 1, W is 2 and X is 4 in `flags`.
pub record TlbEntry : Type 0 where
  pub vpn : ℕ
  pub ppn : ℕ
  pub flags : ℕ
  pub valid : Bool

abbrev pub tlb_size : ℕ
tlb_size = 8

pub record Tlb : Type 0 where
  pub entries : List TlbEntry
  pub replace_idx : ℕ

unfoldable pub new_tlb : Tlb
new_tlb = record {
  entries = replicate tlb_size (record { vpn = 0; ppn = 0; flags = 0; valid = false });
  replace_idx = 0;
}

unfoldable pub tlb_insert : ℕ → ℕ → ℕ → Tlb → Tlb
tlb_insert vpn ppn flags t = record {
  entries =
      set t.entries t.replace_idx (record { vpn = vpn; ppn = ppn; flags = flags; valid = true });
  replace_idx = (t.replace_idx + 1) % tlb_size;
}

unfoldable pub tlb_flush : Tlb → Tlb
tlb_flush t = record {
  entries = map {A = TlbEntry} (λ e. record e { valid = false }) t.entries;
  replace_idx = 0;
}

-- What the loop does at an entry that matches.
unfoldable pub hit : TlbEntry → ℕ → TranslationResult → Bool → Bool → Bool × TranslationResult
hit e vpn result is_write is_fetch =
    if is_fetch && not (has_bits e.flags 0x4)
    then (false, record result { fault = true; cause = mcause_inst_page_fault })
    else if is_write && not (has_bits e.flags 0x2)
    then (false, record result { fault = true; cause = mcause_store_page_fault })
    else if not is_write && not is_fetch && not (has_bits e.flags 0x1)
    then (false, record result { fault = true; cause = mcause_load_page_fault })
    else (true, record result { paddr = bit_or (e.ppn << 12) (bit_and vpn 0xFFF); fault = false })

-- The loop over the entries; `result` is the caller's, which a miss leaves alone.
unfoldable pub lookup_entries :
    List TlbEntry → ℕ → TranslationResult → Bool → Bool → Bool × TranslationResult
lookup_entries [] vpn result is_write is_fetch = (false, result)
lookup_entries (e ∷ es) vpn result is_write is_fetch =
    let rest = lookup_entries es vpn result is_write is_fetch in
    if e.valid && e.vpn == vpn then hit e vpn result is_write is_fetch else rest

unfoldable pub tlb_lookup : Tlb → ℕ → TranslationResult → Bool → Bool → Bool × TranslationResult
tlb_lookup t vpn result is_write is_fetch = lookup_entries t.entries vpn result is_write is_fetch
