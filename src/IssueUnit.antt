-- ===== src/IssueUnit.antt =====
-- include/IssueUnit.h and src/IssueUnit.cpp: pairing of two decoded instructions and the step from
-- IF_ID to ID_EX. The decoder is in Decode.
pub mod Decode
pub mod Pairing
pub mod Order
use simple_rv.Prelude.{ℕ, ◌+◌, u32, Bool, true, false, ◌&&◌, ◌||◌, not, ◌==◌, if◌then◌else◌}
use simple_rv.Types.{
  DecodedData, PipelineSlot, invalidate, IfIdBuffer, IdExBuffer, PipelineStats, count, Lanes, both,
}
use Decode.{decode_instruction}

abbrev pub is_system : DecodedData → Bool
is_system d = d.is_ecall || d.is_mret || d.is_sret || d.is_csr

-- `i` reads the register `r`.
abbrev pub reads : DecodedData → ℕ → Bool
reads d r = (d.uses_rs1 && d.rs1 == r) || (d.uses_rs2 && d.rs2 == r)

unfoldable pub can_issue_together : DecodedData → DecodedData → PipelineStats → Bool × PipelineStats
unfolding count
can_issue_together i0 i1 stats =
    if i0.is_memory && i1.is_memory
    then (false, record stats { memory_port_conflicts = count stats.memory_port_conflicts })
    else if i1.is_branch
    then (false, stats)
    else if i0.is_branch && i0.predicted_taken
    then (false, stats)
    else if i0.is_branch && is_system i1
    then (false, stats)
    else if i0.is_memory && i0.reg_write && not (i0.rd == 0) && reads i1 i0.rd
    then (false, stats)
    else if is_system i0 || is_system i1
    then (false, stats)
    else (true, stats)

-- One round of the loop over the slots of ID_EX: the load there delivers what IF_ID reads.
unfoldable pub load_use : PipelineSlot → IfIdBuffer → Bool
load_use loading if_id =
    loading.valid
    && loading.d.is_memory
    && loading.d.reg_write
    && not (loading.d.rd == 0)
    && (reads if_id.slots.lane0.d loading.d.rd
        || (if_id.slots.lane1.valid && reads if_id.slots.lane1.d loading.d.rd))

unfoldable pub cross_cycle_stall : IdExBuffer → IfIdBuffer → Bool
cross_cycle_stall id_ex if_id = load_use id_ex.slots.lane0 if_id || load_use id_ex.slots.lane1 if_id

-- The parameters that the method changes.
pub record Issue : Type 0 where
  pub if_id : IfIdBuffer
  pub id_ex : IdExBuffer
  pub stats : PipelineStats

abbrev pub is_load : DecodedData → Bool
is_load d = d.is_memory && d.reg_write

abbrev pub is_store : DecodedData → Bool
is_store d = d.is_memory && not d.reg_write

abbrev pub decode_both : IfIdBuffer → IfIdBuffer
decode_both b = record b {
  slots = record {
    lane0 = decode_instruction b.slots.lane0 b.pc;
    lane1 = decode_instruction b.slots.lane1 (u32 (b.pc + 4));
  };
}

-- The bubble: IF_ID is kept for another try.
unfoldable pub issue_bubble : Issue → Issue
unfolding count
issue_bubble s = record s {
  stats = record (s.stats) { load_use_stalls = count s.stats.load_use_stalls };
  id_ex = record (s.id_ex) {
    slots = record {
      lane0 = invalidate s.id_ex.slots.lane0;
      lane1 = invalidate s.id_ex.slots.lane1;
    };
    mem_read = both false;
    mem_write = both false;
  };
}

-- A branch that is predicted taken goes alone, and the second slot is thrown away.
unfoldable pub issue_predicted : Issue → Issue
unfolding count
issue_predicted s =
    let target = u32 (s.if_id.pc + s.if_id.slots.lane0.d.imm) in
    let branch = record (s.if_id.slots.lane0) { jump_target = target } in
    record {
      stats = record (s.stats) { branches_predicted = count s.stats.branches_predicted };
      id_ex = record {
        slots = record { lane0 = branch; lane1 = invalidate s.id_ex.slots.lane1 };
        pc = s.if_id.pc;
        mem_read = both false;
        mem_write = both false;
      };
      if_id = record (s.if_id) {
        slots = record { lane0 = invalidate branch; lane1 = invalidate s.if_id.slots.lane1 };
      };
    }

unfoldable pub issue_two : Issue → Issue
issue_two s =
    let i0 = s.if_id.slots.lane0 in
    let i1 = s.if_id.slots.lane1 in
    record s {
      id_ex = record {
        slots = record { lane0 = i0; lane1 = i1 };
        pc = s.if_id.pc;
        mem_read = record { lane0 = is_load i0.d; lane1 = is_load i1.d };
        mem_write = record { lane0 = is_store i0.d; lane1 = is_store i1.d };
      };
      if_id = record (s.if_id) { slots = record { lane0 = invalidate i0; lane1 = invalidate i1 } };
    }

-- The first slot goes alone and the second moves up.
unfoldable pub issue_one : Issue → Issue
issue_one s =
    let i0 = s.if_id.slots.lane0 in
    let i1 = s.if_id.slots.lane1 in
    record s {
      id_ex = record {
        slots = record { lane0 = i0; lane1 = invalidate s.id_ex.slots.lane1 };
        pc = s.if_id.pc;
        mem_read = record { lane0 = is_load i0.d; lane1 = false };
        mem_write = record { lane0 = is_store i0.d; lane1 = false };
      };
      if_id = record (s.if_id) {
        slots = record { lane0 = i1; lane1 = invalidate i1 };
        pc = u32 (s.if_id.pc + 4);
      };
    }

-- The method behind its first test, with both slots decoded.
unfoldable pub issue_decoded : Issue → Issue
issue_decoded s =
    let i0 = s.if_id.slots.lane0 in
    let i1 = s.if_id.slots.lane1 in
    let (together, stats) = can_issue_together i0.d i1.d s.stats in
    if cross_cycle_stall s.id_ex s.if_id
    then issue_bubble s
    else if i0.d.is_branch && i0.d.predicted_taken
    then issue_predicted s
    else if i1.valid
    then (if together
        then issue_two (record s { stats = stats })
        else issue_one (record s { stats = stats }))
    else issue_one s

unfoldable pub decode_and_issue : Issue → Issue
decode_and_issue s =
    if s.if_id.slots.lane0.valid
    then issue_decoded (record s { if_id = decode_both s.if_id })
    else s
