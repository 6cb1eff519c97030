-- ===== src/MemorySystem/Flush.antt =====
-- The flush of the translation buffer (src/MemorySystem.cpp).
use simple_rv.Prelude.{ℕ, ◌≡◌, refl, Bool, false, List, [], ◌∷◌, map}
use simple_rv.MemorySystem.TlbEntries.{
  TranslationResult, TlbEntry, Tlb, tlb_flush, lookup_entries, tlb_lookup,
}

lookup_entries-invalid :
    (es : List TlbEntry) (vpn : ℕ) (result : TranslationResult) (is_write is_fetch : Bool)
    → lookup_entries
        (map {A = TlbEntry} (λ e. record e { valid = false }) es)
        vpn
        result
        is_write
        is_fetch
      ≡ (false, result)
unfolding lookup_entries
lookup_entries-invalid [] vpn result is_write is_fetch = refl
lookup_entries-invalid (e ∷ es) vpn result is_write is_fetch =
    lookup_entries-invalid es vpn result is_write is_fetch

-- After a flush of the translation buffer every lookup misses and leaves the caller's result alone,
-- whatever the buffer held.
pub tlb_lookup-tlb_flush :
    (t : Tlb) (vpn : ℕ) (result : TranslationResult) (is_write is_fetch : Bool)
    → tlb_lookup (tlb_flush t) vpn result is_write is_fetch ≡ (false, result)
unfolding tlb_lookup tlb_flush
tlb_lookup-tlb_flush t vpn result is_write is_fetch =
    lookup_entries-invalid t.entries vpn result is_write is_fetch
