-- ===== src/CpuCore/Trap/Status.antt =====
-- The status bits through a trap and a return: `sstatus_on_trap`, `mstatus_on_trap`,
-- `mstatus_on_mret` and `sstatus_on_sret`.
use simple_rv.Prelude.{
  ℕ, ◌+◌, ◌*◌, ◌/◌, ◌%◌, ◌<◌, ◌≡◌, arith, ◌==◌, if◌then◌else◌, has_bits, bit_and, bit_or, ◌>>◌,
  ◌<<◌, min, max, Bool-cases, inl, inr,
}
use simple_rv.Prelude.Bits.{
  bit, bit-bit_and, bit-bit_or, has_bits-bit, bit_and-shifted, bit_and-low, bit_lem, merge,
}
use simple_rv.Types.{
  mstatus_sie, mstatus_mie, mstatus_spie, mstatus_mpie, mstatus_mpp, sstatus_mask,
}
use simple_rv.CpuCore.Trap.{sstatus_on_trap, mstatus_on_trap}
use simple_rv.CpuCore.Execute.{mstatus_on_mret, sstatus_on_sret}

-- The field MPP in terms of its two bits.
pub mpp_field : (m : ℕ) → bit_and m mstatus_mpp >> 11 ≡ bit m 11 + 2 * bit m 12
mpp_field m =
    omega (arith, bit_and-shifted 11 m 3, bit_and-low 2 (m / 2048), bit_lem 11 m, bit_lem 12 m)

-- Bit k of the three status words, from the bits of what they are built of.
mstatus_on_trap-bit :
    (m prv k : ℕ)
    → bit (mstatus_on_trap m prv) k
      ≡ max
          (min
            (max
              (min (min (bit m k) (bit 0xFFFFFFF7 k)) (bit 0xFFFFFF7F k))
              (bit (if has_bits m mstatus_mie then mstatus_mpie else 0) k))
            (bit 0xFFFFE7FF k))
          (bit (prv << 11) k)
unfolding mstatus_on_trap
mstatus_on_trap-bit m prv k = simp (bit-bit_or, bit-bit_and)

-- On entry to M-mode MIE is clear, MPIE is the old MIE and MPP is the old privilege level.
pub mstatus_on_trap-bits :
    (m prv : ℕ)
    → prv < 4
    → (bit (mstatus_on_trap m prv) 3 ≡ 0)
      × (bit (mstatus_on_trap m prv) 7 ≡ bit m 3)
      × (bit (mstatus_on_trap m prv) 11 ≡ prv % 2)
      × (bit (mstatus_on_trap m prv) 12 ≡ prv / 2)
mstatus_on_trap-bits m prv h = (
  rw (mstatus_on_trap-bit m prv 3) (unfold bit in ground arith),
  rw (mstatus_on_trap-bit m prv 7) (unfold bit in ground (arith, has_bits-bit 3 m)),
  rw (mstatus_on_trap-bit m prv 11) (unfold bit in ground arith),
  rw (mstatus_on_trap-bit m prv 12) (unfold bit in ground arith),
)

sstatus_on_trap-bit :
    (m prv k : ℕ)
    → bit (sstatus_on_trap m prv) k
      ≡ max
          (min
            (bit
              (if has_bits m mstatus_sie
                then bit_or (bit_and m 0xFFFFFFFD) mstatus_spie
                else bit_and (bit_and m 0xFFFFFFFD) 0xFFFFFFDF)
              k)
            (bit 0xFFFFFEFF k))
          (bit (prv << 8) k)
unfolding sstatus_on_trap
sstatus_on_trap-bit m prv k = simp (bit-bit_or, bit-bit_and)

sie_moved :
    (m k : ℕ)
    → bit
        (if has_bits m mstatus_sie
          then bit_or (bit_and m 0xFFFFFFFD) mstatus_spie
          else bit_and (bit_and m 0xFFFFFFFD) 0xFFFFFFDF)
        k
      ≡ (if bit m 1 == 1
          then max (min (bit m k) (bit 0xFFFFFFFD k)) (bit 0x20 k)
          else min (min (bit m k) (bit 0xFFFFFFFD k)) (bit 0xFFFFFFDF k))
sie_moved m k = rw (has_bits-bit 1 m) (
    ground (
      arith,
      bit-bit_or (bit_and m 0xFFFFFFFD) 0x20 k,
      bit-bit_and m 0xFFFFFFFD k,
      bit-bit_and (bit_and m 0xFFFFFFFD) 0xFFFFFFDF k,
    ))

-- On entry to S-mode SIE is clear, SPIE is the old SIE and SPP is the lowest bit of the old
-- privilege level.
pub sstatus_on_trap-bits :
    (m prv : ℕ)
    → prv < 4
    → (bit (sstatus_on_trap m prv) 1 ≡ 0)
      × (bit (sstatus_on_trap m prv) 5 ≡ bit m 1)
      × (bit (sstatus_on_trap m prv) 8 ≡ prv % 2)
sstatus_on_trap-bits m prv h = (
  rw (sstatus_on_trap-bit m prv 1, sie_moved m 1) (unfold bit in ground arith),
  rw (sstatus_on_trap-bit m prv 5, sie_moved m 5) (unfold bit in ground arith),
  rw (sstatus_on_trap-bit m prv 8, sie_moved m 8) (unfold bit in ground arith),
)

mstatus_on_mret-bit :
    (m k : ℕ)
    → bit (mstatus_on_mret m) k
      ≡ min
          (max
            (if bit m 7 == 1
              then max (min (bit m k) (bit 0xFFFFFFF7 k)) (bit 0x8 k)
              else min (bit m k) (bit 0xFFFFFFF7 k))
            (bit 0x80 k))
          (bit 0xFFFFE7FF k)
unfolding mstatus_on_mret
mstatus_on_mret-bit m k = rw (has_bits-bit 7 m) (elim (Bool-cases (bit m 7 == 1)) [
  | inl e ↦ rw e (simp (bit-bit_or, bit-bit_and))
  | inr e ↦ rw e (simp (bit-bit_or, bit-bit_and))
])

-- MRET moves MPIE into MIE, sets MPIE and clears MPP.
pub mstatus_on_mret-bits :
    (m : ℕ)
    → (bit (mstatus_on_mret m) 3 ≡ bit m 7)
      × (bit (mstatus_on_mret m) 7 ≡ 1)
      × (bit (mstatus_on_mret m) 11 ≡ 0)
      × (bit (mstatus_on_mret m) 12 ≡ 0)
mstatus_on_mret-bits m = (
  rw (mstatus_on_mret-bit m 3) (unfold bit in ground arith),
  rw (mstatus_on_mret-bit m 7) (unfold bit in ground arith),
  rw (mstatus_on_mret-bit m 11) (unfold bit in ground arith),
  rw (mstatus_on_mret-bit m 12) (unfold bit in ground arith),
)

sstatus_on_sret-bit :
    (m k : ℕ)
    → bit (sstatus_on_sret m) k
      ≡ min
          (max
            (if bit m 5 == 1
              then max (min (bit m k) (bit 0xFFFFFFFD k)) (bit 0x2 k)
              else min (bit m k) (bit 0xFFFFFFFD k))
            (bit 0x20 k))
          (bit 0xFFFFFEFF k)
unfolding sstatus_on_sret
sstatus_on_sret-bit m k = rw (has_bits-bit 5 m) (elim (Bool-cases (bit m 5 == 1)) [
  | inl e ↦ rw e (simp (bit-bit_or, bit-bit_and))
  | inr e ↦ rw e (simp (bit-bit_or, bit-bit_and))
])

-- SRET moves SPIE into SIE, sets SPIE and clears SPP.
pub sstatus_on_sret-bits :
    (m : ℕ)
    → (bit (sstatus_on_sret m) 1 ≡ bit m 5)
      × (bit (sstatus_on_sret m) 5 ≡ 1)
      × (bit (sstatus_on_sret m) 8 ≡ 0)
sstatus_on_sret-bits m = (
  rw (sstatus_on_sret-bit m 1) (unfold bit in ground arith),
  rw (sstatus_on_sret-bit m 5) (unfold bit in ground arith),
  rw (sstatus_on_sret-bit m 8) (unfold bit in ground arith),
)

-- The bits 1, 5 and 8 of a status word pass through the S-mode view in both directions.
pub sstatus_view-bits :
    (old new : ℕ)
    → (bit (merge old new sstatus_mask) 1 ≡ bit new 1)
      × (bit (merge old new sstatus_mask) 5 ≡ bit new 5)
      × (bit (merge old new sstatus_mask) 8 ≡ bit new 8)
      × (bit (bit_and new sstatus_mask) 1 ≡ bit new 1)
      × (bit (bit_and new sstatus_mask) 5 ≡ bit new 5)
      × (bit (bit_and new sstatus_mask) 8 ≡ bit new 8)
sstatus_view-bits old new =
    simp (bit-bit_or, bit-bit_and)
      (unfold bit in
        (ground arith, ground arith, ground arith, ground arith, ground arith, ground arith))
