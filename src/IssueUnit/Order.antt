-- ===== src/IssueUnit/Order.antt =====
-- Program order through `IssueUnit::decodeAndIssue` of src/IssueUnit.cpp: the instructions in IF_ID
-- and ID_EX.
use simple_rv.Prelude.{
  ℕ, ◌+◌, u32, ◌≡◌, ap, arith, Bool, true, ◌&&◌, not, if◌then◌else◌, List, [], ◌∷◌,
}
use simple_rv.Types.{PipelineSlot, IfIdBuffer, IdExBuffer}
use simple_rv.IssueUnit.{
  Issue, decode_both, issue_decoded, issue_bubble, issue_predicted, issue_two, issue_one,
  decode_and_issue, cross_cycle_stall,
}
use simple_rv.IssueUnit.Decode.{decode_instruction}

-- An instruction with its address.
pub record Fetched : Type 0 where
  pub pc : ℕ
  pub instr : ℕ

abbrev pub cons_if : Bool → Fetched → List Fetched → List Fetched
cons_if b x xs = if b then x ∷ xs else xs

abbrev pub at : ℕ → PipelineSlot → Fetched
at pc s = record { pc = pc; instr = s.instr }

-- The instructions that wait in IF_ID, in program order.
abbrev pub waiting : IfIdBuffer → List Fetched
waiting b =
    cons_if b.slots.lane0.valid (at b.pc b.slots.lane0)
      (cons_if b.slots.lane1.valid (at (u32 (b.pc + 4)) b.slots.lane1) [])

-- Those that stand in ID_EX and, after them, those that wait in IF_ID.
abbrev pub in_flight : IdExBuffer → IfIdBuffer → List Fetched
in_flight e b =
    cons_if e.slots.lane0.valid (at e.pc e.slots.lane0)
      (cons_if e.slots.lane1.valid (at (u32 (e.pc + 4)) e.slots.lane1) (waiting b))

abbrev pub stalls : Issue → Bool
stalls s = cross_cycle_stall s.id_ex (decode_both s.if_id)

-- The first instruction is a branch that is predicted taken.
abbrev pub predicts_jump : Issue → Bool
predicts_jump s =
    let d = (decode_instruction s.if_id.slots.lane0 s.if_id.pc).d in
    d.is_branch && d.predicted_taken

pub decode_and_issue_enters :
    (s : Issue)
    → s.if_id.slots.lane0.valid ≡ true
    → decode_and_issue s ≡ issue_decoded (record s { if_id = decode_both s.if_id })
unfolding decode_and_issue
decode_and_issue_enters s h =
    ap (λ b. if b then issue_decoded (record s { if_id = decode_both s.if_id }) else s) h

issue_decoded-valid :
    (s : Issue)
    → s.if_id.slots.lane0.valid ≡ true
    → (issue_decoded s).id_ex.slots.lane0.valid ≡ not (cross_cycle_stall s.id_ex s.if_id)
unfolding issue_decoded issue_bubble issue_predicted issue_two issue_one
issue_decoded-valid s h = ground arith

-- With an instruction in the first slot the step issues one, unless a load that stands in ID_EX
-- delivers a register that a waiting instruction reads: then it is a bubble.
pub decode_and_issue-valid :
    (s : Issue)
    → s.if_id.slots.lane0.valid ≡ true
    → (decode_and_issue s).id_ex.slots.lane0.valid ≡ not (stalls s)
unfolding decode_instruction
decode_and_issue-valid s h =
    rw (decode_and_issue_enters s h)
      (issue_decoded-valid (record s { if_id = decode_both s.if_id }) h)
