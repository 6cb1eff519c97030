-- ===== src/CpuCore/Commit.antt =====
-- What reaches the registers of src/RegisterFile.cpp from a pair of instructions, over the stages of
-- two cycles of `CPUCore::tick` (src/CPUCore.cpp).
pub mod Plain
pub mod Keeps
pub mod Stages
pub mod Results
pub mod Handed
pub mod Cycle
