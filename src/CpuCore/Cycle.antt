-- ===== src/CpuCore/Cycle.antt =====
-- `CPUCore::tick` and `CPUCore::run` of src/CPUCore.cpp, and the cores that they reach.
use simple_rv.Prelude.{
  ℕ, zero, suc, ◌≡◌, inl, inr, Bool-cases, refl, Bool, false, if◌then◌else◌, if_split, Option, some,
  List, Outcome, ok, thrown, undefined, ◌>>=◌, >>=-eq-ok, ◌∙◌, sym, ap, subst,
}
use simple_rv.SystemConfig.{SystemConfig}
use simple_rv.MemorySystem.{load_program}
use simple_rv.PipelineRegisters.{reset}
use simple_rv.CpuCore.{new_core, init, begin_cycle, stages, tick, run}
use simple_rv.CpuCore.State.{CpuCore}
use simple_rv.CpuCore.WriteBack.{write_back}
use simple_rv.CpuCore.MemoryAccess.{memory_access}
use simple_rv.CpuCore.Invariant.{
  IsSound, same-IsSound, empty-IsSound, begin_cycle-IsSound, write_back-IsSound,
  decode_and_issue-IsSound, execute-IsSound,
}
use simple_rv.CpuCore.Invariant.Memory.{
  Ensures, memory_access-IsSound, fetch-IsSound, Ensures-chain,
}

stages-IsSound : (c : CpuCore) → IsSound c → Ensures IsSound (stages c)
unfolding stages
stages-IsSound c h =
    Ensures-chain IsSound IsSound (memory_access (write_back c)) _
      (memory_access-IsSound _ (write_back-IsSound c h))
      (λ d k. fetch-IsSound _ (decode_and_issue-IsSound _ (execute-IsSound d k)))

-- A cycle that returns keeps this of a core: in IF_ID a second instruction waits only behind a first
-- one, and in ID_EX a second instruction stands only beside a first one that it may be issued with.
pub tick-IsSound : (c : CpuCore) → IsSound c → Ensures IsSound (tick c)
unfolding tick
tick-IsSound c h =
    if_split (Ensures IsSound) (begin_cycle c).running
      (λ _.
        Ensures-chain IsSound IsSound (stages (begin_cycle c)) _
          (stages-IsSound _ (begin_cycle-IsSound c h)) (λ d k. same-IsSound d _ refl refl k))
      (λ _. begin_cycle-IsSound c h)

-- The cores that a program file, a configuration and a keyboard lead to, cycle by cycle.
pub data Reaches (config : SystemConfig) (file : Option (List ℕ)) (input : List (Option ℕ))
    : CpuCore → Type 0 where
  start : {c : CpuCore} → init file (new_core config input) ≡ ok c → Reaches config file input c
  cycle :
      {c d : CpuCore} → Reaches config file input c → tick c ≡ ok d → Reaches config file input d

init-IsSound : (file : Option (List ℕ)) (c : CpuCore) → Ensures IsSound (init file c)
unfolding init reset
init-IsSound file c =
    Ensures-chain (λ m. Unit {0}) IsSound (load_program file c.memory) _
      (trivial (load_program file c.memory)) (λ m k. empty-IsSound _ refl refl)
  where
    trivial : {A : Type 0} (m : Outcome A) → Ensures (λ a. Unit {0}) m
    trivial (ok a) = tt
    trivial (thrown e) = tt
    trivial undefined = tt

-- On every core that is reached, a second instruction is fetched only behind a first one, and two
-- instructions stand in ID_EX only if they may share a cycle: one memory access at most, no branch
-- or jump in the second slot, no branch in the first slot that is predicted taken, no load whose
-- result the second one reads, and no ECALL, MRET, SRET or control register instruction.
pub Reaches-IsSound :
    {config : SystemConfig} {file : Option (List ℕ)} {input : List (Option ℕ)} {c : CpuCore}
    → Reaches config file input c
    → IsSound c
Reaches-IsSound {config} {file} {input} (start e) =
    subst (Ensures IsSound) e (init-IsSound file (new_core config input))
Reaches-IsSound (cycle {c} r e) = subst (Ensures IsSound) e (tick-IsSound c (Reaches-IsSound r))

-- A core that the main loop returns has stopped and is reached, cycle by cycle, from the reset that
-- the loop's start was reached from.
pub run-Reaches :
    (fuel : ℕ) {config : SystemConfig} {file : Option (List ℕ)} {input : List (Option ℕ)}
    {c d : CpuCore}
    → Reaches config file input c
    → run fuel c ≡ ok (some d)
    → Reaches config file input d × (d.running ≡ false)
unfolding run
run-Reaches zero r e = absurd (cc)
run-Reaches (suc fuel) {config} {file} {input} {c = c} {d = d} r e =
    let unrolled = λ (b : Bool). if b then (tick c >>= λ c'. run fuel c') else ok (some c) in
    elim (Bool-cases c.running) [
      | inl on ↦
          let (c', ticked, rest) =
            >>=-eq-ok (tick c) (λ x. run fuel x) (sym (ap unrolled on) ∙ e) in
          run-Reaches fuel (cycle r ticked) rest
      | inr off ↦
          let stopped : ok (some c) ≡ ok (some d) = sym (ap unrolled off) ∙ e in
          let same : c ≡ d = cc in
          (subst (Reaches config file input) same r, subst (λ x. x.running ≡ false) same off)
    ]
