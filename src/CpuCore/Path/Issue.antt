-- ===== src/CpuCore/Path/Issue.antt =====
-- `decodeAndIssue` of src/IssueUnit.cpp and src/CPUCore.cpp, along the predicted path.
use simple_rv.Prelude.{ℕ, ◌≡◌, refl, arith, true, false, ◌&&◌, if◌then◌else◌, if_split}
use simple_rv.Types.{IdExBuffer}
use simple_rv.IssueUnit
use simple_rv.IssueUnit.{
  Issue, decode_both, can_issue_together, cross_cycle_stall, issue_decoded, issue_bubble,
  issue_predicted, issue_two, issue_one,
}
use simple_rv.IssueUnit.Decode.{decode_instruction}
use simple_rv.CpuCore
use simple_rv.CpuCore.State.{CpuCore}
use simple_rv.CpuCore.Path.{Follows, IsFollowing}

-- The core's pc after the issue step that gave `e`.
abbrev redirected : IdExBuffer → ℕ → ℕ
redirected e pc =
    if e.slots.lane0.valid && e.slots.lane0.d.predicted_taken && e.slots.lane0.d.is_branch
    then e.slots.lane0.jump_target
    else pc

abbrev Stepped : ℕ → Issue → Type 0
Stepped pc s = Follows s.if_id s.id_ex (redirected s.id_ex pc)

issue_bubble-Stepped :
    (s : Issue) (pc : ℕ) → Follows s.if_id s.id_ex pc → Stepped pc (issue_bubble s)
unfolding issue_bubble
issue_bubble-Stepped s pc h = record { fetched = h.fetched; issued = λ v. cc; target = λ v. cc }

issue_predicted-Stepped :
    (s : Issue) (pc : ℕ)
    → s.if_id.slots.lane0.valid ≡ true
    → (s.if_id.slots.lane0.d.is_branch && s.if_id.slots.lane0.d.predicted_taken) ≡ true
    → Stepped pc (issue_predicted s)
unfolding issue_predicted
issue_predicted-Stepped s pc v h = record {
  fetched = λ w. cc;
  issued = λ w. ground arith;
  target = λ w t. refl;
}

issue_two-Stepped :
    (s : Issue) (pc : ℕ)
    → Follows s.if_id s.id_ex pc
    → s.if_id.slots.lane0.valid ≡ true
    → s.if_id.slots.lane1.valid ≡ true
    → (s.if_id.slots.lane0.d.is_branch && s.if_id.slots.lane0.d.predicted_taken) ≡ false
    → Stepped pc (issue_two s)
unfolding issue_two
issue_two-Stepped s pc h v0 v1 n = record {
  fetched = λ w. cc;
  issued = λ w. ground (arith, h.fetched v0);
  target = λ w t. cc;
}

issue_one-Stepped :
    (s : Issue) (pc : ℕ)
    → Follows s.if_id s.id_ex pc
    → s.if_id.slots.lane0.valid ≡ true
    → (s.if_id.slots.lane0.d.is_branch && s.if_id.slots.lane0.d.predicted_taken) ≡ false
    → Stepped pc (issue_one s)
unfolding issue_one
issue_one-Stepped s pc h v0 n = record {
  fetched = λ w. ground (arith, h.fetched v0);
  issued = λ w. ground (arith, h.fetched v0);
  target = λ w t. cc;
}

issue_decoded-Stepped :
    (s : Issue) (pc : ℕ)
    → Follows s.if_id s.id_ex pc
    → s.if_id.slots.lane0.valid ≡ true
    → Stepped pc (issue_decoded s)
unfolding issue_decoded
issue_decoded-Stepped s pc h v =
    let i0 = s.if_id.slots.lane0.d in
    let i1 = s.if_id.slots.lane1.d in
    let pair = can_issue_together i0 i1 s.stats in
    let s' = record s { stats = pair.1 } in
    if_split (Stepped pc) (cross_cycle_stall s.id_ex s.if_id) (λ _. issue_bubble-Stepped s pc h)
      λ _.
        if_split (Stepped pc) (i0.is_branch && i0.predicted_taken)
          (λ p. issue_predicted-Stepped s pc v p)
          λ n.
            if_split (Stepped pc) s.if_id.slots.lane1.valid
              (λ v1.
                if_split (Stepped pc) pair.0 (λ _. issue_two-Stepped s' pc h v v1 n)
                  (λ _. issue_one-Stepped s' pc h v n))
              (λ _. issue_one-Stepped s pc h v n)

-- Nothing waits: what ID_EX holds goes on where it went.
waiting-Stepped :
    (s : Issue) (pc : ℕ)
    → Follows s.if_id s.id_ex pc
    → s.if_id.slots.lane0.valid ≡ false
    → Stepped pc s
waiting-Stepped s pc h v = record {
  fetched = λ w. cc;
  issued = λ w. ground (arith, h.issued w);
  target = h.target;
}

pub decode_and_issue-IsFollowing :
    (c : CpuCore) → IsFollowing c → IsFollowing (CpuCore.decode_and_issue c)
unfolding CpuCore.decode_and_issue IssueUnit.decode_and_issue decode_instruction
decode_and_issue-IsFollowing c h =
    let s : Issue = record {
      if_id = c.pipe_regs.if_id;
      id_ex = c.pipe_regs.id_ex;
      stats = c.stats;
    } in
    if_split (Stepped c.pc) c.pipe_regs.if_id.slots.lane0.valid
      (λ v.
        issue_decoded-Stepped (record s { if_id = decode_both s.if_id }) c.pc
          (record { fetched = h.fetched; issued = h.issued; target = h.target }) v)
      (λ v. waiting-Stepped s c.pc h v)
