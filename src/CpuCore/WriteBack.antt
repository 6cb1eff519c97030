-- ===== src/CpuCore/WriteBack.antt =====
-- `CPUCore::writeBack` of src/CPUCore.cpp.
use simple_rv.Prelude.{ℕ, true, false, ◌&&◌, not, ◌==◌, if◌then◌else◌}
use simple_rv.Types.{PipelineSlot, count}
use simple_rv.RegisterFile.{write_rd}
use simple_rv.CpuCore.State.{CpuCore}

abbrev pub ebreak : ℕ
ebreak = 0x00100073

-- One round of the loop.
unfoldable pub write_back_slot : PipelineSlot → CpuCore → CpuCore
unfolding write_rd count
write_back_slot slot c =
    let written =
      if slot.reg_write && not (slot.rd == 0)
      then write_rd slot.rd slot.result true c.reg_file
      else c.reg_file in
    if slot.valid
    then (if slot.instr == ebreak
        then record c { running = false }
        else if slot.instr == 0x00000000
        then record c { running = false }
        else record c { reg_file = written; instr_count = count c.instr_count })
    else c

unfoldable pub write_back : CpuCore → CpuCore
write_back c =
    write_back_slot c.pipe_regs.mem_wb.slots.lane1
      (write_back_slot c.pipe_regs.mem_wb.slots.lane0 c)
