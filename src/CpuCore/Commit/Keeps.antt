-- ===== src/CpuCore/Commit/Keeps.antt =====
-- What the other stages of `CPUCore::tick` (src/CPUCore.cpp) leave alone: the latches behind the
-- engine and the general registers.
use simple_rv.Prelude.{
  ℕ, ◌+◌, ◌≡◌, refl, ◌∙◌, u32, Bool, true, false, ◌&&◌, ◌||◌, not, ◌==◌, if_split, if◌then◌else◌,
  has_bits, List, [], ◌∷◌, Outcome, ok, ◌>>=◌, leb, ltb, ◌>>◌,
}
use simple_rv.Types.{invalidate, ExMemBuffer, MemWbBuffer, prv_m, memory_size}
use simple_rv.RegisterFile.{
  RegisterFile, write_csr, write_register, set_privilege, hw_set_mtip, interrupt_delegated,
}
use simple_rv.RegisterFile.Address.{Csr, csr_of, mvendorid}
use simple_rv.MemorySystem.{
  MemorySystem, read, read_double_instr, increment_timer, timer_interrupt_pending,
}
use simple_rv.MemorySystem.TlbEntries.{TranslationResult}
use simple_rv.MemorySystem.Translate.{Access, translate}
use simple_rv.PipelineRegisters.{flush}
use simple_rv.CpuCore.{begin_cycle}
use simple_rv.CpuCore.State.{CpuCore}
use simple_rv.CpuCore.Trap.{
  take_interrupt, interrupt_to_s, interrupt_to_m, scan_interrupts, interrupts, Interrupt, global_ie,
  ie_val, ip_val, check_and_handle_interrupts,
}
use simple_rv.CpuCore.Fetch.{
  fetch_access, fetch_instr, fetch_one, fetch_two, fetch, fill_first, fill_second, set_if_id,
}
use simple_rv.CpuCore.Invariant.Memory.{Ensures, Ensures-bind, Ensures-chain}

write_register-gpr : (c : Csr) (v : ℕ) (f : RegisterFile) → (write_register c v f).gpr ≡ f.gpr
unfolding write_register
write_register-gpr mvendorid v f = refl
write_register-gpr _ v f = refl

pub write_csr-gpr : (csr v : ℕ) (f : RegisterFile) → (write_csr csr v f).gpr ≡ f.gpr
unfolding write_csr
write_csr-gpr csr v f = write_register-gpr (csr_of csr) v f

write_register-privilege :
    (c : Csr) (v : ℕ) (f : RegisterFile) → (write_register c v f).privilege ≡ f.privilege
unfolding write_register
write_register-privilege mvendorid v f = refl
write_register-privilege _ v f = refl

pub write_csr-privilege :
    (csr v : ℕ) (f : RegisterFile) → (write_csr csr v f).privilege ≡ f.privilege
unfolding write_csr
write_csr-privilege csr v f = write_register-privilege (csr_of csr) v f

-- EX_MEM, MEM_WB and the general registers are these.
pub record Has (x : ExMemBuffer) (w : MemWbBuffer) (g : ℕ → ℕ) (c : CpuCore) : Type 0 where
  pub ex_mem : c.pipe_regs.ex_mem ≡ x
  pub mem_wb : c.pipe_regs.mem_wb ≡ w
  pub gpr : c.reg_file.gpr ≡ g

-- In M-mode no translation faults.
translated_direct :
    {B : Type 0} (Q : B → Type 0) (a : Access) (m : MemorySystem)
    (k : TranslationResult × MemorySystem → Outcome B)
    → a.privilege ≡ prv_m
    → ((t : TranslationResult × MemorySystem) → t.0.fault ≡ false → Ensures Q (k t))
    → Ensures Q (translate a m >>= k)
unfolding translate
translated_direct Q a m k h p = rw h (p _ refl)

module _ (x : ExMemBuffer) (w : MemWbBuffer) (g : ℕ → ℕ) where
  take_interrupt-Has : (cause : ℕ) (c : CpuCore) → Has x w g c → Has x w g (take_interrupt cause c)
  unfolding take_interrupt flush interrupt_to_s interrupt_to_m set_privilege
  take_interrupt-Has cause c h =
      if_split (Has x w g)
        (interrupt_delegated c.reg_file cause || not (c.reg_file.privilege == prv_m))
        (λ _. record {
          ex_mem = h.ex_mem;
          mem_wb = h.mem_wb;
          gpr = write_csr-gpr _ _ _ ∙ write_csr-gpr _ _ _ ∙ write_csr-gpr _ _ _ ∙ h.gpr;
        })
        (λ _. record {
          ex_mem = h.ex_mem;
          mem_wb = h.mem_wb;
          gpr = write_csr-gpr _ _ _ ∙ write_csr-gpr _ _ _ ∙ write_csr-gpr _ _ _ ∙ h.gpr;
        })

  scan_interrupts-Has :
      (is : List Interrupt) (ie ip : ℕ) (c : CpuCore)
      → Has x w g c
      → Has x w g (scan_interrupts is ie ip c)
  unfolding scan_interrupts
  scan_interrupts-Has [] ie ip c h = h
  scan_interrupts-Has (i ∷ is) ie ip c h =
      if_split (Has x w g) (has_bits ie i.mask && has_bits ip i.mask)
        (λ _. take_interrupt-Has i.cause c h) (λ _. scan_interrupts-Has is ie ip c h)

  pub begin_cycle-Has : (c : CpuCore) → Has x w g c → Has x w g (begin_cycle c)
  unfolding begin_cycle check_and_handle_interrupts hw_set_mtip
  begin_cycle-Has c h =
      let m = increment_timer c.memory in
      let f = hw_set_mtip (timer_interrupt_pending m) c.reg_file in
      let d = record c { memory = m; reg_file = f } in
      let k : Has x w g d = record {
        ex_mem = h.ex_mem;
        mem_wb = h.mem_wb;
        gpr = hw_set_mtip-gpr (timer_interrupt_pending m) c.reg_file ∙ h.gpr;
      } in
      if_split (Has x w g) (global_ie f)
        (λ _. scan_interrupts-Has interrupts (ie_val f) (ip_val f) d k) (λ _. k)
    where
      hw_set_mtip-gpr : (up : Bool) (f : RegisterFile) → (hw_set_mtip up f).gpr ≡ f.gpr
      hw_set_mtip-gpr true f = refl
      hw_set_mtip-gpr false f = refl

  abbrev HasFetched : ℕ × CpuCore → Type 0
  HasFetched r = Has x w g r.1

  fetch_instr-HasFetched :
      (pc : ℕ) (c : CpuCore)
      → c.reg_file.privilege ≡ prv_m
      → Has x w g c
      → Ensures HasFetched (fetch_instr pc c)
  unfolding fetch_instr
  fetch_instr-HasFetched pc c m h =
      translated_direct HasFetched (fetch_access c pc) c.memory _ m λ t quiet.
        if_split (Ensures HasFetched) t.0.fault (λ e. absurd (cc))
          λ _.
            Ensures-bind HasFetched (read t.0.paddr 4 t.1) _
              λ r. record { ex_mem = h.ex_mem; mem_wb = h.mem_wb; gpr = h.gpr }

  fetched-Has :
      (fill : ℕ → CpuCore → CpuCore) (pc : ℕ) (c : CpuCore)
      → c.reg_file.privilege ≡ prv_m
      → ((word : ℕ) (d : CpuCore) → Has x w g d → Has x w g (fill word d))
      → Has x w g c
      → Ensures
          (Has x w g)
          (fetch_instr pc c >>= λ r. if r.1.running then ok (fill r.0 r.1) else ok r.1)
  fetched-Has fill pc c m p h =
      Ensures-chain HasFetched (Has x w g) (fetch_instr pc c) _ (fetch_instr-HasFetched pc c m h)
        λ r k. if_split (Ensures (Has x w g)) r.1.running (λ _. p r.0 r.1 k) (λ _. k)

  fetch_two-Has :
      (c : CpuCore) → c.reg_file.privilege ≡ prv_m → Has x w g c → Ensures (Has x w g) (fetch_two c)
  unfolding fetch_two
  fetch_two-Has c m h = translated_direct (Has x w g) (fetch_access c c.pc) c.memory _ m λ t quiet.
      if_split (Ensures (Has x w g)) t.0.fault (λ e. absurd (cc))
        λ _.
          if_split (Ensures (Has x w g)) (not (t.0.paddr >> 12 == u32 (t.0.paddr + 7) >> 12))
            (λ _.
              Ensures-bind (Has x w g) (read t.0.paddr 4 t.1) _
                λ r. record { ex_mem = h.ex_mem; mem_wb = h.mem_wb; gpr = h.gpr })
            λ _.
              if_split (Ensures (Has x w g)) (leb (u32 (t.0.paddr + 8)) memory_size)
                (λ _.
                  Ensures-bind (Has x w g) (read_double_instr t.0.paddr t.1) _
                    λ v. record { ex_mem = h.ex_mem; mem_wb = h.mem_wb; gpr = h.gpr })
                (λ _. record { ex_mem = h.ex_mem; mem_wb = h.mem_wb; gpr = h.gpr })

  pub fetch-Has :
      (c : CpuCore) → c.reg_file.privilege ≡ prv_m → Has x w g c → Ensures (Has x w g) (fetch c)
  unfolding fetch fetch_one
  fetch-Has c m h =
      let moved : Has x w g (
          set_if_id
            (record (c.pipe_regs.if_id) {
              slots = record {
                lane0 = c.pipe_regs.if_id.slots.lane1;
                lane1 = invalidate c.pipe_regs.if_id.slots.lane1;
              };
            })
            c) =
        record { ex_mem = h.ex_mem; mem_wb = h.mem_wb; gpr = h.gpr } in
      if_split (Ensures (Has x w g)) c.pipe_regs.if_id.slots.lane0.valid (λ _. h)
        λ _.
          if_split (Ensures (Has x w g)) c.pipe_regs.if_id.slots.lane1.valid
            (λ _.
              if_split (Ensures (Has x w g)) (ltb c.pc memory_size)
                (λ _.
                  fetched-Has (λ v d. fill_second v d) c.pc _ m
                    (λ v d k. record { ex_mem = k.ex_mem; mem_wb = k.mem_wb; gpr = k.gpr }) moved)
                (λ _. moved))
            λ _.
              if_split (Ensures (Has x w g)) (leb (u32 (c.pc + 8)) memory_size)
                (λ _. fetch_two-Has c m h)
                λ _.
                  if_split (Ensures (Has x w g)) (leb (u32 (c.pc + 4)) memory_size)
                    (λ _.
                      fetched-Has (λ v d. fill_first v d) c.pc c m
                        (λ v d k. record { ex_mem = k.ex_mem; mem_wb = k.mem_wb; gpr = k.gpr }) h)
                    (λ _. h)
