-- ===== src/CpuCore/Path/Stages.antt =====
-- The predicted path through `CPUCore::tick` of src/CPUCore.cpp.
use simple_rv.Prelude.{
  ℕ, ◌+◌, ◌≡◌, refl, arith, subst, false, not, ◌==◌, if◌then◌else◌, if_split, u32, leb, ◌>>◌,
  Option, List, Outcome, ok, thrown, undefined, ◌>>=◌,
}
use simple_rv.Types.{IfIdBuffer, IdExBuffer, memory_size}
use simple_rv.SystemConfig.{SystemConfig}
use simple_rv.MemorySystem.{read, read_double_instr, load_program}
use simple_rv.MemorySystem.Translate.{translate}
use simple_rv.PipelineRegisters.{reset}
use simple_rv.CpuCore.{new_core, init, begin_cycle, stages, tick}
use simple_rv.CpuCore.State.{CpuCore}
use simple_rv.CpuCore.Trap.{handle_trap}
use simple_rv.CpuCore.WriteBack.{write_back}
use simple_rv.CpuCore.MemoryAccess.{memory_access}
use simple_rv.CpuCore.Fetch.{fetch_instr, fetch_two, fetch, fetch_access, fill_first, fill_both}
use simple_rv.CpuCore.Front.{handle_trap-Front, begin_cycle-Front, write_back-Front, execute-Front}
use simple_rv.CpuCore.Invariant.{
  IsSound, begin_cycle-IsSound, write_back-IsSound, execute-IsSound, decode_and_issue-IsSound,
}
use simple_rv.CpuCore.Invariant.Memory.{
  Ensures, Ensures-bind, Ensures-chain, memory_access-keeps, memory_access-IsSound,
}
use simple_rv.CpuCore.Cycle.{Reaches, start, cycle, Reaches-IsSound}
use simple_rv.CpuCore.Path.{Follows, IsFollowing, empty-Follows}
use simple_rv.CpuCore.Path.Issue.{decode_and_issue-IsFollowing}

pub handle_trap-IsFollowing :
    (fault_pc cause tval : ℕ) (c : CpuCore) → IsFollowing (handle_trap fault_pc cause tval c)
handle_trap-IsFollowing = handle_trap-Front Follows empty-Follows

pub memory_access-IsFollowing :
    (c : CpuCore) → IsFollowing c → Ensures IsFollowing (memory_access c)
memory_access-IsFollowing c h =
    memory_access-keeps IsFollowing (λ p q r d k. handle_trap-IsFollowing p q r d) (λ i s d k. k)
      (λ m d k. k) c h

-- Nothing waits in IF_ID.
abbrev Emptied : IfIdBuffer → IdExBuffer → ℕ → Type 0
Emptied b e pc = (b.slots.lane0.valid ≡ false) × (b.slots.lane1.valid ≡ false) × Follows b e pc

abbrev IsEmptied : CpuCore → Type 0
IsEmptied c = Emptied c.pipe_regs.if_id c.pipe_regs.id_ex c.pc

handle_trap-IsEmptied :
    (fault_pc cause tval : ℕ) (c : CpuCore) → IsEmptied (handle_trap fault_pc cause tval c)
handle_trap-IsEmptied = handle_trap-Front Emptied λ pc. (refl, refl, empty-Follows pc)

-- Into an empty IF_ID, a word from the pc.
fill_first-IsFollowing : (word : ℕ) (c : CpuCore) → IsEmptied c → IsFollowing (fill_first word c)
fill_first-IsFollowing word c (e0, e1, h) = record {
  fetched = λ v. ground (arith, e1);
  issued = λ v. ground (arith, e0, h.issued v);
  target = h.target;
}

fill_both-IsFollowing : (words : ℕ) (c : CpuCore) → IsEmptied c → IsFollowing (fill_both words c)
fill_both-IsFollowing words c (e0, e1, h) = record {
  fetched = λ v. refl;
  issued = λ v. ground (arith, e0, h.issued v);
  target = h.target;
}

fetch_instr-IsEmptied :
    (vaddr : ℕ) (c : CpuCore) → IsEmptied c → Ensures (λ r. IsEmptied r.1) (fetch_instr vaddr c)
unfolding fetch_instr
fetch_instr-IsEmptied vaddr c h =
    let P : ℕ × CpuCore → Type 0 = λ r. IsEmptied r.1 in
    Ensures-bind P (translate (fetch_access c vaddr) c.memory) _ λ t.
      if_split (Ensures P) t.0.fault (λ _. handle_trap-IsEmptied _ _ _ _)
        λ _. Ensures-bind P (read t.0.paddr 4 t.1) _ λ r. h

fetch_two-IsFollowing : (c : CpuCore) → IsEmptied c → Ensures IsFollowing (fetch_two c)
unfolding fetch_two
fetch_two-IsFollowing c h =
    Ensures-bind IsFollowing (translate (fetch_access c c.pc) c.memory) _ λ t.
      if_split (Ensures IsFollowing) t.0.fault (λ _. handle_trap-IsFollowing _ _ _ _)
        λ _.
          if_split (Ensures IsFollowing) (not (t.0.paddr >> 12 == u32 (t.0.paddr + 7) >> 12))
            (λ _.
              Ensures-bind IsFollowing (read t.0.paddr 4 t.1) _
                λ r. fill_first-IsFollowing r.0 (record c { memory = r.1 }) h)
            (λ _.
              if_split (Ensures IsFollowing) (leb (u32 (t.0.paddr + 8)) memory_size)
                (λ _.
                  Ensures-bind IsFollowing (read_double_instr t.0.paddr t.1) _
                    λ words. fill_both-IsFollowing words (record c { memory = t.1 }) h)
                (λ _. h.2))

-- In a sound core the fetch stage fills an empty IF_ID from the pc, or leaves it alone.
fetch-IsFollowing : (c : CpuCore) → IsSound c → IsFollowing c → Ensures IsFollowing (fetch c)
unfolding fetch
fetch-IsFollowing c s h =
    if_split (Ensures IsFollowing) c.pipe_regs.if_id.slots.lane0.valid (λ _. h)
      λ empty0.
        if_split (Ensures IsFollowing) c.pipe_regs.if_id.slots.lane1.valid
          (λ full1. absurd (cc (s.ordered full1, empty0)))
          (λ empty1.
            if_split (Ensures IsFollowing) (leb (u32 (c.pc + 8)) memory_size)
              (λ _. fetch_two-IsFollowing c (empty0, empty1, h))
              (λ _.
                if_split (Ensures IsFollowing) (leb (u32 (c.pc + 4)) memory_size)
                  (λ _. last c (empty0, empty1, h)) (λ _. h)))
  where
    last :
        (c : CpuCore)
        → IsEmptied c
        → Ensures IsFollowing
            (fetch_instr c.pc c >>= λ r. if r.1.running then ok (fill_first r.0 r.1) else ok r.1)
    last c h =
        Ensures-chain (λ r. IsEmptied r.1) IsFollowing (fetch_instr c.pc c) _
          (fetch_instr-IsEmptied c.pc c h)
          λ r k.
            if_split (Ensures IsFollowing) r.1.running (λ _. fill_first-IsFollowing r.0 r.1 k)
              (λ _. k.2)

tick-IsFollowing : (c : CpuCore) → IsSound c → IsFollowing c → Ensures IsFollowing (tick c)
unfolding tick stages
tick-IsFollowing c s h =
    let begun = begin_cycle-Front Follows empty-Follows c h in
    let sound = write_back-IsSound _ (begin_cycle-IsSound c s) in
    if_split (Ensures IsFollowing) (begin_cycle c).running
      (λ _.
        Ensures-chain IsFollowing IsFollowing (stages (begin_cycle c)) _
          (Ensures-chain (λ d. IsSound d × IsFollowing d) IsFollowing
            (memory_access (write_back (begin_cycle c))) _
            (Ensures-both IsSound IsFollowing _ (memory_access-IsSound _ sound)
              (memory_access-IsFollowing _ (write_back-Front Follows empty-Follows _ begun)))
            (λ d k.
              fetch-IsFollowing _ (decode_and_issue-IsSound _ (execute-IsSound d k.0))
                (decode_and_issue-IsFollowing _ (execute-Front Follows empty-Follows d k.1))))
          (λ d k. k))
      (λ _. begun)
  where
    Ensures-both :
        (P Q : CpuCore → Type 0) (m : Outcome CpuCore)
        → Ensures P m
        → Ensures Q m
        → Ensures (λ d. P d × Q d) m
    Ensures-both P Q (ok d) p q = (p, q)
    Ensures-both P Q (thrown e) p q = tt
    Ensures-both P Q undefined p q = tt

init-IsFollowing : (file : Option (List ℕ)) (c : CpuCore) → Ensures IsFollowing (init file c)
unfolding init reset
init-IsFollowing file c =
    Ensures-bind IsFollowing (load_program file c.memory) _ λ m. empty-Follows _

-- On every core that is reached, the pc stands behind the instructions that wait in IF_ID, and those
-- are the ones that the prediction for the instructions of ID_EX goes on with: the target of a
-- branch or jump that is predicted to be taken, its pc and its offset added, and otherwise the
-- address behind the last instruction of ID_EX.
pub Reaches-IsFollowing :
    {config : SystemConfig} {file : Option (List ℕ)} {input : List (Option ℕ)} {c : CpuCore}
    → Reaches config file input c
    → IsFollowing c
Reaches-IsFollowing {config} {file} {input} (start e) =
    subst (Ensures IsFollowing) e (init-IsFollowing file (new_core config input))
Reaches-IsFollowing (cycle {c} r e) =
    subst (Ensures IsFollowing) e (tick-IsFollowing c (Reaches-IsSound r) (Reaches-IsFollowing r))
