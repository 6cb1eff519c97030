-- ===== src/CpuCore/Ranges/Execute.antt =====
-- `CPUCore::execute` of src/CPUCore.cpp keeps the ranges of the core's fields.
use simple_rv.Prelude.{ℕ, ◌+◌, ◌≡◌, ◌∙◌, sym, subst, arith, u32, IsWord, ◌&&◌, if_split}
use simple_rv.Types.{PipelineSlot, ExMemBuffer, mcause_illegal}
use simple_rv.RegisterFile.{RegisterFile}
use simple_rv.RegisterFile.Valid.{IsValid, write_csr-IsValid}
use simple_rv.MemorySystem.{MemorySystem}
use simple_rv.ExecutionEngine.{
  Stage, get_operand, execute_slot, execute_r_type, execute_i_type, execute_jump, execute_branch,
  execute_csr, execute_lane, csr_update, same_lane,
}
use simple_rv.ExecutionEngine
use simple_rv.CpuCore.State.{CpuCore}
use simple_rv.CpuCore.Execute.{
  commit_csr, commit_sfence, execute_and_commit, resolve_branch, handle_slot_trap, trapped,
  handle_slot_traps, execute, ecall_cause, drop_slot1,
}
use simple_rv.CpuCore.Ranges.{
  IsRangedSlot, IsRangedExMem, IsRangedLatches, IsRanged, IsByteHost, empty_slot-IsRangedSlot,
  empty_if_id-IsRangedIfId, empty_id_ex-IsRangedIdEx,
}
use simple_rv.CpuCore.Ranges.Traps.{
  handle_trap-IsRanged, return_from_m-IsRanged, return_from_s-IsRanged,
}
use simple_rv.CpuCore.Ranges.Engine.{execute-IsRangedExMem}

commit_csr-IsValid :
    (s : PipelineSlot) (f : RegisterFile) → IsRangedSlot s → IsValid f → IsValid (commit_csr s f)
unfolding commit_csr
commit_csr-IsValid s f h v =
    if_split IsValid (s.valid && s.d.is_csr)
      (λ _. write_csr-IsValid s.d.csr_addr s.csr_write_val f h.csr_word v) (λ _. v)

commit_sfence-host : (s : PipelineSlot) (m : MemorySystem) → (commit_sfence s m).host ≡ m.host
unfolding commit_sfence
commit_sfence-host s m = ground arith

execute_and_commit-IsRanged : (c : CpuCore) → IsRanged c → IsRanged (execute_and_commit c)
unfolding execute_and_commit
execute_and_commit-IsRanged c h =
    let p = c.pipe_regs in
    let ex_mem = ExecutionEngine.execute p.id_ex p.ex_mem p.mem_wb c.reg_file in
    let ranged =
      execute-IsRangedExMem p.id_ex p.mem_wb c.reg_file h.latches.id_ex h.latches.mem_wb h.registers
        p.ex_mem h.latches.ex_mem.slots in
    record {
      latches = record {
        if_id = h.latches.if_id;
        id_ex = h.latches.id_ex;
        ex_mem = ranged;
        mem_wb = h.latches.mem_wb;
      };
      registers =
          commit_csr-IsValid ex_mem.slots.lane1 _ ranged.slots.lane1
            (commit_csr-IsValid ex_mem.slots.lane0 c.reg_file ranged.slots.lane0 h.registers);
      host =
          subst IsByteHost
            (sym (
              commit_sfence-host ex_mem.slots.lane1 (commit_sfence ex_mem.slots.lane0 c.memory)
              ∙ commit_sfence-host ex_mem.slots.lane0 c.memory))
            h.host;
      pc = h.pc;
    }

drop_slot1-IsRangedExMem : (b : ExMemBuffer) → IsRangedExMem b → IsRangedExMem (drop_slot1 b)
drop_slot1-IsRangedExMem b h = record {
  slots = record { lane0 = h.slots.lane0; lane1 = empty_slot-IsRangedSlot };
  pc = h.pc;
  addr0 = h.addr0;
  addr1 = h.addr1;
  data0 = h.data0;
  data1 = h.data1;
  load1 = λ e. cc;
}

resolve_branch-IsRanged : (c : CpuCore) → IsRanged c → IsRanged (resolve_branch c)
unfolding resolve_branch
resolve_branch-IsRanged c h =
    let br = c.pipe_regs.ex_mem.slots.lane0 in
    let dropped = drop_slot1-IsRangedExMem c.pipe_regs.ex_mem h.latches.ex_mem in
    let flushed : IsRangedLatches
        (record (c.pipe_regs) { if_id = _; id_ex = _; ex_mem = drop_slot1 c.pipe_regs.ex_mem }) =
      record {
        if_id = empty_if_id-IsRangedIfId;
        id_ex = empty_id_ex-IsRangedIdEx;
        ex_mem = dropped;
        mem_wb = h.latches.mem_wb;
      } in
    if_split IsRanged (br.valid && br.d.is_branch)
      (λ _.
        if_split IsRanged br.d.predicted_taken
          (λ _. record {
            latches = record {
              if_id = h.latches.if_id;
              id_ex = h.latches.id_ex;
              ex_mem = dropped;
              mem_wb = h.latches.mem_wb;
            };
            registers = h.registers;
            host = h.host;
            pc = h.pc;
          })
          (λ _. record {
            latches = flushed;
            registers = h.registers;
            host = h.host;
            pc = h.latches.ex_mem.slots.lane0.target_word;
          }))
      (λ _.
        if_split IsRanged (br.valid && br.d.predicted_taken)
          (λ _. record {
            latches = flushed;
            registers = h.registers;
            host = h.host;
            pc = omega arith;
          })
          (λ _. h))

ecall_cause-IsWord : (prv : ℕ) → IsWord (ecall_cause prv)
ecall_cause-IsWord prv = ground arith

handle_slot_trap-IsRanged :
    (s : PipelineSlot) (slot_pc : ℕ) (c : CpuCore)
    → IsRangedSlot s
    → IsWord slot_pc
    → IsRanged c
    → IsRanged (handle_slot_trap s slot_pc c)
unfolding handle_slot_trap
handle_slot_trap-IsRanged s slot_pc c k w h =
    if_split IsRanged s.d.is_ecall
      (λ _.
        handle_trap-IsRanged (u32 (slot_pc + 4)) (ecall_cause c.reg_file.privilege) 0 c
          (omega arith) (ecall_cause-IsWord c.reg_file.privilege) (omega arith) h)
      λ _.
        if_split IsRanged s.d.is_illegal
          (λ _.
            handle_trap-IsRanged slot_pc mcause_illegal s.instr c w (omega arith) k.instr_word h)
          λ _.
            if_split IsRanged s.d.is_mret (λ _. return_from_m-IsRanged c h)
              λ _. if_split IsRanged s.d.is_sret (λ _. return_from_s-IsRanged c h) (λ _. h)

handle_slot_traps-IsRanged : (c : CpuCore) → IsRanged c → IsRanged (handle_slot_traps c)
unfolding handle_slot_traps
handle_slot_traps-IsRanged c h =
    let s0 = c.pipe_regs.ex_mem.slots.lane0 in
    let s1 = c.pipe_regs.ex_mem.slots.lane1 in
    let k = h.latches.ex_mem in
    if_split IsRanged s0.valid
      (λ _.
        if_split IsRanged (trapped s0.d)
          (λ _. handle_slot_trap-IsRanged s0 _ c k.slots.lane0 k.pc h)
          (λ _.
            if_split IsRanged (s1.valid && trapped s1.d)
              (λ _. handle_slot_trap-IsRanged s1 _ c k.slots.lane1 (omega arith) h) (λ _. h)))
      (λ _. h)

pub execute-IsRanged : (c : CpuCore) → IsRanged c → IsRanged (execute c)
unfolding execute
execute-IsRanged c h =
    handle_slot_traps-IsRanged _ (resolve_branch-IsRanged _ (execute_and_commit-IsRanged c h))
