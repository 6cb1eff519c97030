-- ===== src/PipelineRegisters.antt =====
-- include/PipelineRegisters.h and src/PipelineRegisters.cpp: the four latches.
use simple_rv.Types.{
  IfIdBuffer, IdExBuffer, ExMemBuffer, MemWbBuffer, empty_if_id, empty_id_ex, empty_ex_mem,
  empty_mem_wb,
}

pub record PipelineRegisters : Type 0 where
  pub if_id : IfIdBuffer
  pub id_ex : IdExBuffer
  pub ex_mem : ExMemBuffer
  pub mem_wb : MemWbBuffer

-- Only the two latches in front are emptied.
unfoldable pub flush : PipelineRegisters → PipelineRegisters
flush p = record p { if_id = empty_if_id; id_ex = empty_id_ex }

unfoldable pub reset : PipelineRegisters → PipelineRegisters
reset p = record {
  if_id = empty_if_id;
  id_ex = empty_id_ex;
  ex_mem = empty_ex_mem;
  mem_wb = empty_mem_wb;
}
