-- ===== src/CpuCore/Invariant.antt =====
-- IF_ID and ID_EX between the stages of `CPUCore::tick` (src/CPUCore.cpp).
pub mod Memory
use simple_rv.Prelude.{◌≡◌, sym, subst, true, ◌&&◌, if_split, ℕ}
use simple_rv.Types.{IfIdBuffer, IdExBuffer, empty_if_id, empty_id_ex}
use simple_rv.IssueUnit
use simple_rv.IssueUnit.{
  Issue, decode_both, can_issue_together, cross_cycle_stall, issue_decoded, issue_bubble,
  issue_predicted, issue_two, issue_one,
}
use simple_rv.IssueUnit.Decode.{decode_instruction}
use simple_rv.IssueUnit.Pairing.{ArePairable, can_issue_together-ArePairable}
use simple_rv.CpuCore.WriteBack.{write_back}
use simple_rv.CpuCore
use simple_rv.CpuCore.State.{CpuCore}
use simple_rv.CpuCore.Execute
use simple_rv.CpuCore.Front.{handle_trap-Front, begin_cycle-Front, write_back-Front, execute-Front}
use simple_rv.CpuCore.Trap.{handle_trap}

-- A second instruction waits only behind a first one.
abbrev pub IsOrdered : IfIdBuffer → Type 0
IsOrdered b = b.slots.lane1.valid ≡ true → b.slots.lane0.valid ≡ true

-- A second instruction is executed only beside a first one that it may share the cycle with.
abbrev pub IsPaired : IdExBuffer → Type 0
IsPaired e =
    e.slots.lane1.valid ≡ true
    → (e.slots.lane0.valid ≡ true) × ArePairable e.slots.lane0.d e.slots.lane1.d

pub record IsSound (c : CpuCore) : Type 0 where
  pub ordered : IsOrdered c.pipe_regs.if_id
  pub paired : IsPaired c.pipe_regs.id_ex

pub record IsSoundIssue (s : Issue) : Type 0 where
  pub ordered : IsOrdered s.if_id
  pub paired : IsPaired s.id_ex

issue_bubble-IsSoundIssue : (s : Issue) → IsOrdered s.if_id → IsSoundIssue (issue_bubble s)
unfolding issue_bubble
issue_bubble-IsSoundIssue s o = record { ordered = o; paired = λ v. cc }

issue_predicted-IsSoundIssue : (s : Issue) → IsSoundIssue (issue_predicted s)
unfolding issue_predicted
issue_predicted-IsSoundIssue s = record { ordered = λ v. cc; paired = λ v. cc }

issue_one-IsSoundIssue : (s : Issue) → IsSoundIssue (issue_one s)
unfolding issue_one
issue_one-IsSoundIssue s = record { ordered = λ v. cc; paired = λ v. cc }

issue_two-IsSoundIssue :
    (s : Issue)
    → IsOrdered s.if_id
    → ArePairable s.if_id.slots.lane0.d s.if_id.slots.lane1.d
    → IsSoundIssue (issue_two s)
unfolding issue_two
issue_two-IsSoundIssue s o a = record { ordered = λ v. cc; paired = λ v. (o v, a) }

issue_decoded-IsSoundIssue : (s : Issue) → IsOrdered s.if_id → IsSoundIssue (issue_decoded s)
unfolding issue_decoded
issue_decoded-IsSoundIssue s o =
    let i0 = s.if_id.slots.lane0.d in
    let i1 = s.if_id.slots.lane1.d in
    let pair = can_issue_together i0 i1 s.stats in
    let s' = record s { stats = pair.1 } in
    if_split IsSoundIssue (cross_cycle_stall s.id_ex s.if_id) (λ _. issue_bubble-IsSoundIssue s o)
      λ _.
        if_split IsSoundIssue (i0.is_branch && i0.predicted_taken)
          (λ _. issue_predicted-IsSoundIssue s)
          λ _.
            if_split IsSoundIssue s.if_id.slots.lane1.valid
              (λ _.
                if_split IsSoundIssue pair.0
                  (λ h.
                    issue_two-IsSoundIssue s' o
                      ((can_issue_together-ArePairable i0 i1 s.stats).0 h))
                  (λ _. issue_one-IsSoundIssue s'))
              (λ _. issue_one-IsSoundIssue s)

decode_and_issue-IsSoundIssue :
    (s : Issue) → IsSoundIssue s → IsSoundIssue (IssueUnit.decode_and_issue s)
unfolding IssueUnit.decode_and_issue decode_instruction
decode_and_issue-IsSoundIssue s h =
    if_split IsSoundIssue s.if_id.slots.lane0.valid
      (λ _. issue_decoded-IsSoundIssue (record s { if_id = decode_both s.if_id }) h.ordered)
      (λ _. h)

pub decode_and_issue-IsSound : (c : CpuCore) → IsSound c → IsSound (CpuCore.decode_and_issue c)
unfolding CpuCore.decode_and_issue
decode_and_issue-IsSound c h =
    let s : Issue = record {
      if_id = c.pipe_regs.if_id;
      id_ex = c.pipe_regs.id_ex;
      stats = c.stats;
    } in
    let t = decode_and_issue-IsSoundIssue s (record { ordered = h.ordered; paired = h.paired }) in
    record { ordered = t.ordered; paired = t.paired }

-- With the front latches of a sound core a core is sound.
pub same-IsSound :
    (c d : CpuCore)
    → d.pipe_regs.if_id ≡ c.pipe_regs.if_id
    → d.pipe_regs.id_ex ≡ c.pipe_regs.id_ex
    → IsSound c
    → IsSound d
same-IsSound c d e f h = record {
  ordered = subst IsOrdered (sym e) h.ordered;
  paired = subst IsPaired (sym f) h.paired;
}

-- The same of the latches alone.
abbrev IsSoundFront : IfIdBuffer → IdExBuffer → ℕ → Type 0
IsSoundFront b e pc = IsOrdered b × IsPaired e

empty-IsSoundFront : (pc : ℕ) → IsSoundFront empty_if_id empty_id_ex pc
empty-IsSoundFront pc = (λ v. cc, λ v. cc)

-- With empty front latches a core is sound.
pub empty-IsSound :
    (c : CpuCore) → c.pipe_regs.if_id ≡ empty_if_id → c.pipe_regs.id_ex ≡ empty_id_ex → IsSound c
empty-IsSound c e f = record {
  ordered = subst IsOrdered (sym e) (λ v. cc);
  paired = subst IsPaired (sym f) (λ v. cc);
}

sound : (c : CpuCore) → IsSoundFront c.pipe_regs.if_id c.pipe_regs.id_ex c.pc → IsSound c
sound c h = record { ordered = h.0; paired = h.1 }

pub handle_trap-IsSound :
    (fault_pc cause tval : ℕ) (c : CpuCore) → IsSound (handle_trap fault_pc cause tval c)
handle_trap-IsSound fault_pc cause tval c =
    sound _ (handle_trap-Front IsSoundFront empty-IsSoundFront fault_pc cause tval c)

pub begin_cycle-IsSound : (c : CpuCore) → IsSound c → IsSound (CpuCore.begin_cycle c)
begin_cycle-IsSound c h =
    sound _ (begin_cycle-Front IsSoundFront empty-IsSoundFront c (h.ordered, h.paired))

pub write_back-IsSound : (c : CpuCore) → IsSound c → IsSound (write_back c)
write_back-IsSound c h =
    sound _ (write_back-Front IsSoundFront empty-IsSoundFront c (h.ordered, h.paired))

pub execute-IsSound : (c : CpuCore) → IsSound c → IsSound (Execute.execute c)
execute-IsSound c h =
    sound _ (execute-Front IsSoundFront empty-IsSoundFront c (h.ordered, h.paired))
