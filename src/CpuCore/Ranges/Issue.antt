-- ===== src/CpuCore/Ranges/Issue.antt =====
-- `decodeAndIssue` of src/IssueUnit.cpp and src/CPUCore.cpp keeps the ranges of the core's fields.
use simple_rv.Prelude.{ℕ, ◌+◌, ◌≡◌, refl, arith, u32, IsWord, ◌&&◌, if_split}
use simple_rv.Types.{PipelineSlot, IfIdBuffer}
use simple_rv.IssueUnit
use simple_rv.IssueUnit.{
  Issue, decode_both, can_issue_together, cross_cycle_stall, issue_decoded, issue_bubble,
  issue_predicted, issue_two, issue_one,
}
use simple_rv.IssueUnit.Decode.{decode, decode_instruction}
use simple_rv.CpuCore
use simple_rv.CpuCore.State.{CpuCore}
use simple_rv.CpuCore.Ranges.{
  IsRangedSlot, IsRangedIfId, IsRangedIdEx, IsRanged, invalidate-IsRangedSlot,
}
use simple_rv.CpuCore.Ranges.Values.{decode_instruction-IsRangedSlot}

record IsRangedIssue (s : Issue) : Type 0 where
  if_id : IsRangedIfId s.if_id
  id_ex : IsRangedIdEx s.id_ex

decode_both-IsRangedIfId : (b : IfIdBuffer) → IsRangedIfId b → IsRangedIfId (decode_both b)
decode_both-IsRangedIfId b h = record {
  slots = record {
    lane0 = decode_instruction-IsRangedSlot b.slots.lane0 b.pc h.slots.lane0;
    lane1 = decode_instruction-IsRangedSlot b.slots.lane1 (u32 (b.pc + 4)) h.slots.lane1;
  };
  pc = h.pc;
}

record AreDecoded (b : IfIdBuffer) : Type 0 where
  lane0 : b.slots.lane0.d ≡ decode b.slots.lane0.instr
  lane1 : b.slots.lane1.d ≡ decode b.slots.lane1.instr

decode_both-AreDecoded : (b : IfIdBuffer) → AreDecoded (decode_both b)
unfolding decode_instruction
decode_both-AreDecoded b = record { lane0 = refl; lane1 = refl }

issue_bubble-IsRangedIssue : (s : Issue) → IsRangedIssue s → IsRangedIssue (issue_bubble s)
unfolding issue_bubble
issue_bubble-IsRangedIssue s h = record {
  if_id = h.if_id;
  id_ex = record {
    slots = record {
      lane0 = invalidate-IsRangedSlot s.id_ex.slots.lane0 h.id_ex.slots.lane0;
      lane1 = invalidate-IsRangedSlot s.id_ex.slots.lane1 h.id_ex.slots.lane1;
    };
    pc = h.id_ex.pc;
    load0 = λ e. cc;
    load1 = λ e. cc;
    store0 = λ e. cc;
    store1 = λ e. cc;
    decoded0 = λ e. cc;
    decoded1 = λ e. cc;
  };
}

set_target-IsRangedSlot :
    (s : PipelineSlot) (target : ℕ)
    → IsWord target
    → IsRangedSlot s
    → IsRangedSlot (record s { jump_target = target })
set_target-IsRangedSlot s target w h = record {
  instr_word = h.instr_word;
  result_word = h.result_word;
  target_word = w;
  csr_word = h.csr_word;
  imm_word = h.imm_word;
  low = h.low;
  same_rd = h.same_rd;
  same_write = h.same_write;
}

issue_predicted-IsRangedIssue :
    (s : Issue) → AreDecoded s.if_id → IsRangedIssue s → IsRangedIssue (issue_predicted s)
unfolding issue_predicted
issue_predicted-IsRangedIssue s k h =
    let target = u32 (s.if_id.pc + s.if_id.slots.lane0.d.imm) in
    let branch =
      set_target-IsRangedSlot s.if_id.slots.lane0 target (omega arith) h.if_id.slots.lane0 in
    record {
      if_id = record {
        slots = record {
          lane0 = invalidate-IsRangedSlot _ branch;
          lane1 = invalidate-IsRangedSlot s.if_id.slots.lane1 h.if_id.slots.lane1;
        };
        pc = h.if_id.pc;
      };
      id_ex = record {
        slots = record {
          lane0 = branch;
          lane1 = invalidate-IsRangedSlot s.id_ex.slots.lane1 h.id_ex.slots.lane1;
        };
        pc = h.if_id.pc;
        load0 = λ e. cc;
        load1 = λ e. cc;
        store0 = λ e. cc;
        store1 = λ e. cc;
        decoded0 = λ e. k.lane0;
        decoded1 = λ e. cc;
      };
    }

issue_two-IsRangedIssue :
    (s : Issue) → AreDecoded s.if_id → IsRangedIssue s → IsRangedIssue (issue_two s)
unfolding issue_two
issue_two-IsRangedIssue s k h = record {
  if_id = record {
    slots = record {
      lane0 = invalidate-IsRangedSlot s.if_id.slots.lane0 h.if_id.slots.lane0;
      lane1 = invalidate-IsRangedSlot s.if_id.slots.lane1 h.if_id.slots.lane1;
    };
    pc = h.if_id.pc;
  };
  id_ex = record {
    slots = record { lane0 = h.if_id.slots.lane0; lane1 = h.if_id.slots.lane1 };
    pc = h.if_id.pc;
    load0 = λ e. ground arith;
    load1 = λ e. ground arith;
    store0 = λ e. ground arith;
    store1 = λ e. ground arith;
    decoded0 = λ e. k.lane0;
    decoded1 = λ e. k.lane1;
  };
}

issue_one-IsRangedIssue :
    (s : Issue) → AreDecoded s.if_id → IsRangedIssue s → IsRangedIssue (issue_one s)
unfolding issue_one
issue_one-IsRangedIssue s k h = record {
  if_id = record {
    slots = record {
      lane0 = h.if_id.slots.lane1;
      lane1 = invalidate-IsRangedSlot s.if_id.slots.lane1 h.if_id.slots.lane1;
    };
    pc = omega arith;
  };
  id_ex = record {
    slots = record {
      lane0 = h.if_id.slots.lane0;
      lane1 = invalidate-IsRangedSlot s.id_ex.slots.lane1 h.id_ex.slots.lane1;
    };
    pc = h.if_id.pc;
    load0 = λ e. ground arith;
    load1 = λ e. cc;
    store0 = λ e. ground arith;
    store1 = λ e. cc;
    decoded0 = λ e. k.lane0;
    decoded1 = λ e. cc;
  };
}

issue_decoded-IsRangedIssue :
    (s : Issue) → AreDecoded s.if_id → IsRangedIssue s → IsRangedIssue (issue_decoded s)
unfolding issue_decoded
issue_decoded-IsRangedIssue s k h =
    let i0 = s.if_id.slots.lane0.d in
    let i1 = s.if_id.slots.lane1.d in
    let pair = can_issue_together i0 i1 s.stats in
    let s' = record s { stats = pair.1 } in
    let k' : AreDecoded s'.if_id = record { lane0 = k.lane0; lane1 = k.lane1 } in
    let h' : IsRangedIssue s' = record { if_id = h.if_id; id_ex = h.id_ex } in
    if_split IsRangedIssue (cross_cycle_stall s.id_ex s.if_id) (λ _. issue_bubble-IsRangedIssue s h)
      λ _.
        if_split IsRangedIssue (i0.is_branch && i0.predicted_taken)
          (λ _. issue_predicted-IsRangedIssue s k h)
          λ _.
            if_split IsRangedIssue s.if_id.slots.lane1.valid
              (λ _.
                if_split IsRangedIssue pair.0 (λ _. issue_two-IsRangedIssue s' k' h')
                  (λ _. issue_one-IsRangedIssue s' k' h'))
              (λ _. issue_one-IsRangedIssue s k h)

decode_and_issue-IsRangedIssue :
    (s : Issue) → IsRangedIssue s → IsRangedIssue (IssueUnit.decode_and_issue s)
unfolding IssueUnit.decode_and_issue
decode_and_issue-IsRangedIssue s h =
    if_split IsRangedIssue s.if_id.slots.lane0.valid
      (λ _.
        issue_decoded-IsRangedIssue (record s { if_id = decode_both s.if_id })
          (decode_both-AreDecoded s.if_id)
          (record { if_id = decode_both-IsRangedIfId s.if_id h.if_id; id_ex = h.id_ex }))
      (λ _. h)

pub decode_and_issue-IsRanged : (c : CpuCore) → IsRanged c → IsRanged (CpuCore.decode_and_issue c)
unfolding CpuCore.decode_and_issue
decode_and_issue-IsRanged c h =
    let s : Issue = record {
      if_id = c.pipe_regs.if_id;
      id_ex = c.pipe_regs.id_ex;
      stats = c.stats;
    } in
    let t =
      decode_and_issue-IsRangedIssue s
        (record { if_id = h.latches.if_id; id_ex = h.latches.id_ex }) in
    let slot0 = (IssueUnit.decode_and_issue s).id_ex.slots.lane0 in
    record {
      latches = record {
        if_id = t.if_id;
        id_ex = t.id_ex;
        ex_mem = h.latches.ex_mem;
        mem_wb = h.latches.mem_wb;
      };
      registers = h.registers;
      host = h.host;
      pc =
          if_split IsWord (slot0.valid && slot0.d.predicted_taken && slot0.d.is_branch)
            (λ _. t.id_ex.slots.lane0.target_word) (λ _. h.pc);
    }
