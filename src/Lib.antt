-- ===== src/Lib.antt =====
-- Simple-RV, a simulator of a dual-issue five-stage RISC-V pipeline (RV32I with control registers,
-- three privilege levels, Sv32 paging, a CLINT timer and a UART), written in C++.
--
-- The core (src/CPUCore.cpp) owns the latches between the stages, the register file, the memory
-- system and the statistics. A cycle counts the timer, takes an interrupt if one is enabled, and
-- runs the stages from the last to the first: write-back, memory access, execution, decode and
-- issue, fetch. The issue unit (src/IssueUnit.cpp) decodes both waiting instructions and moves one
-- or two of them to ID_EX. The execution engine (src/ExecutionEngine.cpp) computes on forwarded
-- operands. The memory system (src/MemorySystem.cpp) holds the physical memory, the devices and
-- the translation buffer.
--
-- Files and what they model:
--   Types            include/common.h: slots, latches, statistics and constants
--   SystemConfig     include/SystemConfig.h
--   RegisterFile     include/RegisterFile.h and src/RegisterFile.cpp. Address names the control
--                    registers; Valid and ReadWrite are about them
--   MemorySystem     include/MemorySystem.h and src/MemorySystem.cpp. Keyboard is
--                    check_host_keyboard, TlbEntries the translation buffer, Translate the walk;
--                    RoundTrip, Access and Flush are about them
--   PipelineRegisters  include/PipelineRegisters.h and src/PipelineRegisters.cpp
--   IssueUnit        src/IssueUnit.cpp: canIssueTogether and decodeAndIssue. Decode is
--                    decodeInstruction, with Fields and Immediates about it; Pairing and Order are
--                    about the issue step
--   ExecutionEngine  src/ExecutionEngine.cpp. Alu is the arithmetic, with Signed about it;
--                    Forwarding is about getOperand
--   CpuCore          src/CPUCore.cpp and src/main.cpp. State is the core's members; WriteBack,
--                    MemoryAccess, Execute and Fetch are its stages; Trap is handleTrap and
--                    checkAndHandleInterrupts, with Status, Laws and Return about it; Interrupts,
--                    with Priority, is about interrupts; Invariant, Cycle and Faults are about
--                    its cycles; Ranges, with a child
--                    for each stage, is about what its fields may hold, Running and Stops
--                    about the end of the main loop, Sequential about the instructions in
--                    ID_EX, Commit about what reaches the registers from them; Front is about
--                    the stages that leave IF_ID and ID_EX alone or flush them, Path about
--                    the predicted path and where the pipeline goes on behind an instruction
--   Isa              no code of the repository: the instructions of RV32I with the control
--                    register instructions, MRET, SRET and WFI as the RISC-V manual has them, their
--                    words (Formats, Assemble), which of them may share a cycle (Pairing) and what
--                    they compute (Meaning), with which the decoder, the pairing and the engine are
--                    compared (Engine, Words, Sequential, Pairs)
--   Guest            Resource/CProgram/main.c, the game that runs on the simulated machine.
--                    Arithmetic is __udivsi3 to __mulsi3, with Division, Signed and
--                    Multiplication about it; Keys is the key queue, with Queue about it;
--                    Random is simple_rand; Game is init_game, logic and the loop of _start,
--                    taken apart in Moves, Frame and Turns, with Rules, Plays and Bounds about it;
--                    Screen is draw, with Layout about it. Console and Timer are the functions
--                    on the UART and the CLINT, run on MemorySystem; Boot is the control
--                    registers that _start sets up. Modes is the handler of calls from S-mode
--                    in Resource/CProgram/mode_test.c
--   Prelude          shared tests, words, outcomes and the laws of bits
--   Tests            runs of small programs and instances of the results
--
-- A method that changes an object is a function that returns the new value. A word is a native
-- number with its wrap-around written out; `int32_t` is its bit pattern. An outcome is `ok`, the
-- exception of a `throw`, or `undefined` for an access outside of the memory vector. The memory is
-- a function of the index, which `byte_at` and the store loop check against the vector's size, and
-- the general registers are a function of the number, used below 32. The loop over the two slots of
-- a latch is written out for the two.
--
-- The main loop of the source has no bound, so `run` takes fuel and gives `none` when it runs out;
-- CpuCore/Stops has the unbounded loop as a relation, and says which fuel is enough; the loops over
-- bytes are recursions on the number of bytes left and need no fuel. In the guest, the loop of
-- `__mulsi3` has 32 rounds, which the bits of a word do not exceed, the wait for the UART one and
-- the loop on the keys one more than there are keys; the theorems say that this is enough.
--
-- The guest is the C program as it is written, and not its machine code. An `int` is its 32-bit
-- pattern and wraps, also where C leaves an overflow undefined; a string is the list of its
-- characters. Its accesses to devices are reads and writes of MemorySystem at the mapped addresses,
-- which is what they come to in M-mode. A key is typed in a frame if the loop on the keys finds it.
--
-- Not modelled: the text that the simulator prints for the user (the UART's output is a list), the
-- debug output, and the terminal calls of the host. The keys are a list that the host chooses, with
-- `none` for a poll that finds no key. A file is the list of its bytes, or `none` if it cannot be
-- opened. `char` is taken to be signed and memory little-endian, as on the hosts that the build files
-- name.
-- Printing and the set-up of S-mode in mode_test.c are not modelled. The other guest programs
-- (straight-line tests and the Dhrystone benchmark) are inputs of the
-- simulator and not modelled.
pub mod Prelude
pub mod Types
pub mod RegisterFile
pub mod MemorySystem
pub mod PipelineRegisters
pub mod IssueUnit
pub mod ExecutionEngine
pub mod Isa
pub mod SystemConfig
pub mod CpuCore
mod Tests
pub mod Guest
