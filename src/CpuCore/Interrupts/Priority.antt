-- ===== src/CpuCore/Interrupts/Priority.antt =====
-- The loop of `CPUCore::checkAndHandleInterrupts` of src/CPUCore.cpp against the interrupts of the
-- RISC-V manual: their numbers, which are their bits in mie and mip, and their priorities.
use simple_rv.Prelude.{
  ℕ, zero, suc, ◌+◌, ◌^◌, ◌<◌, ◌≡◌, refl, ap, ◌∙◌, sym, subst, arith, Bool, true, false, ◌&&◌, ◌||◌,
  ◌==◌, if◌then◌else◌, if_split, has_bits, bit_and, List, [], ◌∷◌, inl, inr, ◌⊎◌,
}
use simple_rv.Prelude.Bits.{bit, bit-bit_and, bit-le-one, has_bits-bit}
use simple_rv.Types.{sie_mask}
use simple_rv.RegisterFile.{RegisterFile, read_csr, read_register}
use simple_rv.RegisterFile.Address.{csr_of}
use simple_rv.CpuCore.State.{CpuCore}
use simple_rv.CpuCore.Trap.{
  Interrupt, interrupts, take_interrupt, scan_interrupts, check_and_handle_interrupts, global_ie,
  ie_val, ip_val,
}

-- External, software and timer interrupts of M-mode and of S-mode.
pub data Source : Type 0 where
  mei msi mti sei ssi sti : Source

unfoldable pub number : Source → ℕ
number mei = 11
number msi = 3
number mti = 7
number sei = 9
number ssi = 1
number sti = 5

-- The lowest rank comes first.
unfoldable pub rank : Source → ℕ
rank mei = 0
rank msi = 1
rank mti = 2
rank sei = 3
rank ssi = 4
rank sti = 5

unfoldable pub for_supervisor : Source → Bool
for_supervisor sei = true
for_supervisor ssi = true
for_supervisor sti = true
for_supervisor _ = false

-- Interrupts are on at the level (MIE in M-mode, SIE else), and this one is enabled in mie, pending
-- in mip, and one that the level sees: M-mode sees all, the others those of S-mode.
unfoldable pub wanted : RegisterFile → Source → Bool
wanted f i =
    bit f.mstatus (if f.privilege == 3 then 3 else 1) == 1
    && bit f.mie (number i) == 1
    && bit f.mip (number i) == 1
    && (f.privilege == 3 || for_supervisor i)

-- What a core does about interrupts at the start of a cycle.
pub data Serves (c : CpuCore) : CpuCore → Type 0 where
  quiet : ((i : Source) → wanted c.reg_file i ≡ false) → Serves c c
  takes :
      (i : Source)
      → wanted c.reg_file i ≡ true
      → ((j : Source) → rank j < rank i → wanted c.reg_file j ≡ false)
      → Serves c (take_interrupt (2 ^ 31 + number i) c)

ranked : ℕ → Source
ranked zero = mei
ranked (suc zero) = msi
ranked (suc (suc zero)) = mti
ranked (suc (suc (suc zero))) = sei
ranked (suc (suc (suc (suc zero)))) = ssi
ranked (suc (suc (suc (suc (suc n))))) = sti

ranked-rank : (i : Source) → ranked (rank i) ≡ i
unfolding ranked rank
ranked-rank mei = refl
ranked-rank _ = refl

rank-ranked : (n : ℕ) → n < 6 → rank (ranked n) ≡ n
unfolding ranked rank
rank-ranked zero h = refl
rank-ranked (suc zero) h = refl
rank-ranked (suc (suc zero)) h = refl
rank-ranked (suc (suc (suc zero))) h = refl
rank-ranked (suc (suc (suc (suc zero)))) h = refl
rank-ranked (suc (suc (suc (suc (suc n))))) h = omega arith

rank-lt : (i : Source) → rank i < 6
unfolding rank
rank-lt mei = omega arith
rank-lt _ = omega arith

-- The masks of S-mode leave its own three interrupts. The code masks both mie and mip; an interrupt
-- is taken if it is in both, so that one of the two masks already decides.
sees :
    (x : ℕ) (i : Source)
    → bit (bit_and x sie_mask) (number i) ≡ (if for_supervisor i then bit x (number i) else 0)
unfolding number for_supervisor bit
sees x mei = omega (arith, bit-bit_and x sie_mask 11, bit-le-one x 11)
sees x i = omega (arith, bit-bit_and x sie_mask (number i), bit-le-one x (number i))

wanted-seen :
    (f : RegisterFile) (i : Source)
    → global_ie f ≡ true
    → (has_bits (ie_val f) (2 ^ number i) && has_bits (ip_val f) (2 ^ number i)) ≡ wanted f i
unfolding global_ie ie_val ip_val wanted read_csr read_register csr_of
wanted-seen f i h = ground (
  arith,
  has_bits-bit 3 f.mstatus,
  has_bits-bit 1 f.mstatus,
  has_bits-bit (number i) f.mie,
  has_bits-bit (number i) f.mip,
  has_bits-bit (number i) (bit_and f.mie sie_mask),
  has_bits-bit (number i) (bit_and f.mip sie_mask),
  sees f.mie i,
  sees f.mip i,
)

wanted-masked : (f : RegisterFile) (i : Source) → global_ie f ≡ false → wanted f i ≡ false
unfolding global_ie wanted read_csr read_register csr_of
wanted-masked f i h = ground (arith, has_bits-bit 3 f.mstatus, has_bits-bit 1 f.mstatus)

-- The loop over the interrupts from a rank on.
from : ℕ → ℕ → List Interrupt
from n zero = []
from n (suc left) =
    record { cause = 2 ^ 31 + number (ranked n); mask = 2 ^ number (ranked n) } ∷ from (suc n) left

abbrev AreUnwanted : RegisterFile → ℕ → Type 0
AreUnwanted f n = (j : Source) → rank j < n → wanted f j ≡ false

from-all : from 0 6 ≡ interrupts
unfolding from ranked number
from-all = refl

-- One more rank.
AreUnwanted-next :
    (f : RegisterFile) (n : ℕ)
    → AreUnwanted f n
    → wanted f (ranked n) ≡ false
    → AreUnwanted f (suc n)
AreUnwanted-next f n u h j l = elim cases [
  | inl b ↦ u j b
  | inr e ↦ ap (wanted f) (sym (ranked-rank j) ∙ ap ranked e) ∙ h
]
  where
    cases : (rank j < n) ⊎ (rank j ≡ n)
    cases = omega arith

scan_interrupts-Serves :
    (c : CpuCore) (n left : ℕ)
    → n + left ≡ 6
    → global_ie c.reg_file ≡ true
    → AreUnwanted c.reg_file n
    → Serves c (scan_interrupts (from n left) (ie_val c.reg_file) (ip_val c.reg_file) c)
unfolding scan_interrupts from
scan_interrupts-Serves c n zero e g u = quiet (λ i. u i (omega (arith, rank-lt i)))
scan_interrupts-Serves c n (suc left) e g u =
    let i = ranked n in
    let seen = wanted-seen c.reg_file i g in
    if_split (Serves c)
      (has_bits (ie_val c.reg_file) (2 ^ number i) && has_bits (ip_val c.reg_file) (2 ^ number i))
      (λ h. takes i (sym seen ∙ h) (λ j l. u j (omega (arith, l, rank-ranked n (omega arith)))))
      (λ h.
        scan_interrupts-Serves c (suc n) left (omega arith) g
          (AreUnwanted-next c.reg_file n u (sym seen ∙ h)))

-- At the start of a cycle a core takes the wanted interrupt of the highest priority, in the order
-- MEI, MSI, MTI, SEI, SSI, STI, with its number and bit 31 as the cause, and stays as it is if none
-- is wanted: wanted is an interrupt that is enabled in mie and pending in mip while MIE is set in
-- M-mode, or one of the three of S-mode while SIE is set in S-mode or U-mode.
pub check_and_handle_interrupts-Serves : (c : CpuCore) → Serves c (check_and_handle_interrupts c)
unfolding check_and_handle_interrupts
check_and_handle_interrupts-Serves c =
    if_split (Serves c) (global_ie c.reg_file)
      (λ h.
        subst (λ is. Serves c (scan_interrupts is (ie_val c.reg_file) (ip_val c.reg_file) c))
          from-all (scan_interrupts-Serves c 0 6 refl h (λ j l. absurd (omega arith))))
      (λ h. quiet (λ i. wanted-masked c.reg_file i h))
