-- ===== src/IssueUnit/Pairing.antt =====
-- The hazards of `IssueUnit::canIssueTogether` and `IssueUnit::decodeAndIssue` in
-- src/IssueUnit.cpp.
use simple_rv.Prelude.{ℕ, ◌≡◌, ◌≢◌, ◌⊎◌, ◌↔◌, arith, true, false, ◌&&◌, if_split}
use simple_rv.Types.{
  DecodedData, PipelineSlot, IfIdBuffer, IdExBuffer, PipelineStats, Lane, first, second, get_lane,
}
use simple_rv.IssueUnit.{
  Issue, decode_both, issue_decoded, issue_bubble, issue_predicted, issue_two, issue_one, reads,
  is_load, can_issue_together, decode_and_issue, load_use, cross_cycle_stall,
}
use simple_rv.IssueUnit.Order.{decode_and_issue_enters}

-- The instruction does not change the control registers or the privilege level.
pub record IsNoSystem (d : DecodedData) : Type 0 where
  pub no_ecall : d.is_ecall ≡ false
  pub no_mret : d.is_mret ≡ false
  pub no_sret : d.is_sret ≡ false
  pub no_csr : d.is_csr ≡ false

-- Two instructions may share a cycle.
pub record ArePairable (i0 i1 : DecodedData) : Type 0 where
  pub one_memory_port : (i0.is_memory ≡ false) ⊎ (i1.is_memory ≡ false)
  pub branch_first : i1.is_branch ≡ false
  pub right_path : (i0.is_branch ≡ false) ⊎ (i0.predicted_taken ≡ false)
  pub no_load_use :
      i0.is_memory ≡ true
      → i0.reg_write ≡ true
      → i0.rd ≢ 0
      → ((i1.uses_rs1 ≡ false) ⊎ (i1.rs1 ≢ i0.rd)) × ((i1.uses_rs2 ≡ false) ⊎ (i1.rs2 ≢ i0.rd))
  pub system_alone : IsNoSystem i0 × IsNoSystem i1

-- The issue unit lets two instructions share a cycle exactly when the pair is free of structural,
-- control and load-use hazards and has no ECALL, MRET, SRET or access to a control register.
pub can_issue_together-ArePairable :
    (i0 i1 : DecodedData) (stats : PipelineStats)
    → ((can_issue_together i0 i1 stats).0 ≡ true) ↔ ArePairable i0 i1
unfolding can_issue_together
can_issue_together-ArePairable i0 i1 stats = ground arith

-- `loading` is a load whose data the next cycle's instructions cannot be forwarded.
abbrev pub IsLoadTo : PipelineSlot → ℕ → Type 0
IsLoadTo loading r =
    (loading.valid ≡ true) × (is_load loading.d ≡ true) × (loading.d.rd ≡ r) × (r ≢ 0)

-- No waiting instruction reads `r`.
abbrev Unread : IfIdBuffer → ℕ → Type 0
Unread b r =
    (reads b.slots.lane0.d r ≡ false)
    × (b.slots.lane1.valid ≡ true → reads b.slots.lane1.d r ≡ false)

cross_cycle_stall-Unread :
    (e : IdExBuffer) (b : IfIdBuffer) (i : Lane) (r : ℕ)
    → IsLoadTo (get_lane e.slots i) r
    → cross_cycle_stall e b ≡ false
    → Unread b r
unfolding cross_cycle_stall load_use
cross_cycle_stall-Unread e b first r l h = rw (← l.2) (ground arith)
cross_cycle_stall-Unread e b second r l h = rw (← l.2) (ground arith)

-- What the issue step puts into ID_EX and is valid does not read `r`.
abbrev IssuesNoReader : Issue → ℕ → Type 0
IssuesNoReader s r =
    (j : Lane)
    → (get_lane s.id_ex.slots j).valid ≡ true
    → reads (get_lane s.id_ex.slots j).d r ≡ false

issue_bubble-no_reader : (s : Issue) (r : ℕ) → IssuesNoReader (issue_bubble s) r
unfolding issue_bubble
issue_bubble-no_reader s r first v = cc
issue_bubble-no_reader s r second v = cc

issue_predicted-no_reader :
    (s : Issue) (r : ℕ) → Unread s.if_id r → IssuesNoReader (issue_predicted s) r
unfolding issue_predicted
issue_predicted-no_reader s r u first v = u.0
issue_predicted-no_reader s r u second v = cc

issue_two-no_reader : (s : Issue) (r : ℕ) → Unread s.if_id r → IssuesNoReader (issue_two s) r
unfolding issue_two
issue_two-no_reader s r u first v = u.0
issue_two-no_reader s r u second v = u.1 v

issue_one-no_reader : (s : Issue) (r : ℕ) → Unread s.if_id r → IssuesNoReader (issue_one s) r
unfolding issue_one
issue_one-no_reader s r u first v = u.0
issue_one-no_reader s r u second v = cc

issue_decoded-no_reader :
    (s : Issue) (i : Lane) (r : ℕ)
    → IsLoadTo (get_lane s.id_ex.slots i) r
    → IssuesNoReader (issue_decoded s) r
unfolding issue_decoded
issue_decoded-no_reader s i r l =
    let i0 = s.if_id.slots.lane0.d in
    let pair = can_issue_together i0 s.if_id.slots.lane1.d s.stats in
    let s' = record s { stats = pair.1 } in
    let P = λ (t : Issue). IssuesNoReader t r in
    if_split P (cross_cycle_stall s.id_ex s.if_id) (λ _. issue_bubble-no_reader s r)
      λ h.
        let u = cross_cycle_stall-Unread s.id_ex s.if_id i r l h in
        if_split P (i0.is_branch && i0.predicted_taken) (λ _. issue_predicted-no_reader s r u)
          λ _.
            if_split P s.if_id.slots.lane1.valid
              (λ _.
                if_split P pair.0 (λ _. issue_two-no_reader s' r u)
                  (λ _. issue_one-no_reader s' r u))
              (λ _. issue_one-no_reader s r u)

-- The load-use hazard between cycles never reaches EX: no valid instruction that the step puts
-- into ID_EX reads the register, other than 0, that a valid load in ID_EX before the step writes.
pub decode_and_issue-no_load_use :
    (s : Issue) (i j : Lane) (r : ℕ)
    → s.if_id.slots.lane0.valid ≡ true
    → IsLoadTo (get_lane s.id_ex.slots i) r
    → (get_lane (decode_and_issue s).id_ex.slots j).valid ≡ true
    → reads (get_lane (decode_and_issue s).id_ex.slots j).d r ≡ false
decode_and_issue-no_load_use s i j r h l =
    rw (decode_and_issue_enters s h)
      (issue_decoded-no_reader (record s { if_id = decode_both s.if_id }) i r l j)
