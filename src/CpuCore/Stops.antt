-- ===== src/CpuCore/Stops.antt =====
-- The loop of `CPUCore::run` (src/CPUCore.cpp), which has no bound, against `run` on fuel.
use simple_rv.Prelude.{
  ℕ, zero, suc, ◌≤◌, ◌≡◌, sym, ap, ◌∙◌, subst, arith, inl, inr, Bool, Bool-cases, true, false,
  if◌then◌else◌, ◌||◌, Option, some, Outcome, ok, ◌>>=◌, >>=-eq-ok, not,
}
use simple_rv.CpuCore.{tick, run}
use simple_rv.CpuCore.State.{CpuCore}
use simple_rv.CpuCore.Running.{halts, tick-running}

-- The loop from `c` ends at `e`, after however many cycles that return.
pub data Stops : CpuCore → CpuCore → Type 0 where
  at_rest : {c : CpuCore} → c.running ≡ false → Stops c c
  ticks : {c d e : CpuCore} → c.running ≡ true → tick c ≡ ok d → Stops d e → Stops c e

abbrev unrolled : ℕ → CpuCore → Bool → Outcome (Option CpuCore)
unrolled fuel c b = if b then (tick c >>= λ d. run fuel d) else ok (some c)

Stops-run : {c e : CpuCore} → Stops c e → (n : ℕ) × ((m : ℕ) → n ≤ m → run m c ≡ ok (some e))
unfolding run
Stops-run (at_rest {c = c} off) = (1, at_once)
  where
    at_once : (m : ℕ) → 1 ≤ m → run m c ≡ ok (some c)
    at_once zero h = absurd (omega arith)
    at_once (suc m) h = ap (unrolled m c) off
Stops-run (ticks {c = c} {d = d} {e = e} on ticked rest) =
    let (n, enough) = Stops-run rest in (suc n, later n enough)
  where
    later :
        (n : ℕ)
        → ((m : ℕ) → n ≤ m → run m d ≡ ok (some e))
        → (m : ℕ) → suc n ≤ m
        → run m c ≡ ok (some e)
    later n enough zero h = absurd (omega arith)
    later n enough (suc m) h =
        ap (unrolled m c) on ∙ ap (λ x. x >>= λ k. run m k) ticked ∙ enough m (omega arith)

run-some : (n : ℕ) (c e : CpuCore) → run n c ≡ ok (some e) → Stops c e
unfolding run
run-some zero c e h = absurd (cc)
run-some (suc n) c e h = elim (Bool-cases c.running) [
  | inl on ↦
      let (d, ticked, rest) = >>=-eq-ok (tick c) (λ x. run n x) (sym (ap (unrolled n c) on) ∙ h) in
      ticks on ticked (run-some n d e rest)
  | inr off ↦ let same : c ≡ e = cc in subst (λ x. Stops c x) same (at_rest off)
]

-- The loop ends at a core exactly if some fuel is enough for it: then all greater fuel returns that
-- same core, and a core that any fuel returns is where the loop ends.
pub run-Stops :
    (c e : CpuCore)
    → (Stops c e → (n : ℕ) × ((m : ℕ) → n ≤ m → run m c ≡ ok (some e)))
      × ((n : ℕ) → run n c ≡ ok (some e) → Stops c e)
run-Stops c e = (λ s. Stops-run s, λ n h. run-some n c e h)

-- A running core that writes back an EBREAK or the word 0, from either slot, is in its last cycle:
-- if the cycle returns, the loop ends with it, and two units of fuel are enough.
pub halts-Stops :
    (c d : CpuCore)
    → c.running ≡ true
    → (halts c.pipe_regs.mem_wb.slots.lane0 || halts c.pipe_regs.mem_wb.slots.lane1) ≡ true
    → tick c ≡ ok d
    → Stops c d × (run 2 c ≡ ok (some d))
unfolding run
halts-Stops c d on h ticked =
    let off : d.running ≡ false = tick-running c d on ticked ∙ ap not h in
    (
      ticks on ticked (at_rest off),
      ap (unrolled 1 c) on ∙ ap (λ x. x >>= λ k. run 1 k) ticked ∙ ap (unrolled 0 d) off,
    )
