-- ===== src/Tests/Decode.antt =====
-- The theorems of the decoder and of the issue unit at concrete instructions.
use simple_rv.Prelude.{ℕ, ◌≡◌, refl, arith, true, false}
use simple_rv.Types.{DecodedData, PipelineSlot, empty_slot, empty_id_ex, no_data, no_stats, first}
use simple_rv.IssueUnit.{
  Issue, issue_decoded, issue_two, can_issue_together, cross_cycle_stall, load_use,
  decode_and_issue, reads,
}
use simple_rv.IssueUnit.Decode.{
  decode, decode_instruction, extract_fields, decode_opcode, decode_system, predict,
}
use simple_rv.IssueUnit.Pairing.{decode_and_issue-no_load_use}

abbrev addi : DecodedData
addi = record no_data { rd = 5; rs1 = 1; reg_write = true }

abbrev load : DecodedData
load = record no_data { rd = 6; rs1 = 5; is_memory = true; reg_write = true }

-- A load of x6 in ID_EX, and behind it `addi x1, x0, 5` and `addi x3, x1, 7`.
abbrev fetched : ℕ → PipelineSlot
fetched instr = record empty_slot { instr = instr; valid = true }

abbrev loading : Issue
loading = record {
  if_id = record {
    pc = 0x100;
    slots = record { lane0 = fetched 0x00500093; lane1 = fetched 0x00708193 };
    flush = false;
  };
  id_ex = record empty_id_ex {
    slots = record { lane0 = record empty_slot { valid = true; d = load }; lane1 = empty_slot };
  };
  stats = no_stats;
}

decode_and_issue-no_load_use_example :
    reads (decode_and_issue loading).id_ex.slots.lane0.d 6 ≡ false
unfolding decode_and_issue decode_instruction decode extract_fields decode_opcode decode_system
    predict cross_cycle_stall load_use can_issue_together issue_decoded issue_two
decode_and_issue-no_load_use_example =
    decode_and_issue-no_load_use loading first first 6 refl (refl, refl, refl, ground arith) refl
