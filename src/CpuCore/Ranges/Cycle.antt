-- ===== src/CpuCore/Ranges/Cycle.antt =====
-- `CPUCore::init`, `CPUCore::tick` and `CPUCore::run` of src/CPUCore.cpp keep the ranges of the
-- core's fields, so that the execute stage of every cycle that is reached finds the latches as its
-- forwarding needs them.
use simple_rv.Prelude.{
  ℕ, ◌≡◌, refl, subst, IsWord, arith, true, if_split, Option, none, some, List, ok,
}
use simple_rv.Types.{second}
use simple_rv.SystemConfig.{SystemConfig}
use simple_rv.RegisterFile.Address.{addr_of, mtvec_csr}
use simple_rv.RegisterFile.Valid.{
  new_register_file-IsValid, write_rd-IsValid, write_csr-IsValid, read_csr-IsWord, read_rs1-IsWord,
}
use simple_rv.MemorySystem.{MemorySystem, new_memory_system, load_program}
use simple_rv.PipelineRegisters.{reset}
use simple_rv.ExecutionEngine.Forwarding.{retire}
use simple_rv.CpuCore.{new_core, init, begin_cycle, stages, tick}
use simple_rv.CpuCore.State.{CpuCore}
use simple_rv.CpuCore.WriteBack.{write_back}
use simple_rv.CpuCore.MemoryAccess.{memory_access}
use simple_rv.CpuCore.Cycle.{Reaches, start, cycle}
use simple_rv.CpuCore.Invariant.Memory.{Ensures, Ensures-chain}
use simple_rv.Isa.Pairs.{IsSettled}
use simple_rv.CpuCore.Ranges.{
  IsRanged, IsByteHost, AreBytes, empty_if_id-IsRangedIfId, empty_id_ex-IsRangedIdEx,
  empty_ex_mem-IsRangedExMem, empty-IsRangedPair,
}
use simple_rv.CpuCore.Ranges.Interrupts.{begin_cycle-IsRanged, write_back-IsRanged}
use simple_rv.CpuCore.Ranges.Accesses.{IsAccessed}
use simple_rv.CpuCore.Ranges.Memory.{memory_access-IsAccessed}
use simple_rv.CpuCore.Ranges.Execute.{execute-IsRanged}
use simple_rv.CpuCore.Ranges.Issue.{decode_and_issue-IsRanged}
use simple_rv.CpuCore.Ranges.Fetch.{fetch-IsRanged}

-- The numbers of a configuration are words.
pub record IsWordConfig (config : SystemConfig) : Type 0 where
  pub pc_word : IsWord config.pc_init
  pub sp_word : IsWord config.sp_init
  pub mtvec_word : IsWord config.mtvec_init

stages-IsRanged : (c : CpuCore) → IsRanged c → Ensures IsRanged (stages c)
unfolding stages
stages-IsRanged c h =
    Ensures-chain (IsAccessed second) IsRanged (memory_access (write_back c)) _
      (memory_access-IsAccessed _ (write_back-IsRanged c h))
      (λ d k. fetch-IsRanged _ (decode_and_issue-IsRanged _ (execute-IsRanged d k.ranged)))

-- A cycle that returns keeps every word of the core a word, the register file valid, destinations
-- below 32 and equal in their copies, and the keyboard's buffer in bytes.
pub tick-IsRanged : (c : CpuCore) → IsRanged c → Ensures IsRanged (tick c)
unfolding tick
tick-IsRanged c h =
    if_split (Ensures IsRanged) (begin_cycle c).running
      (λ _.
        Ensures-chain IsRanged IsRanged (stages (begin_cycle c)) _
          (stages-IsRanged _ (begin_cycle-IsRanged c h))
          (λ d k. record {
            latches = k.latches;
            registers = k.registers;
            host = k.host;
            pc = k.pc;
          }))
      (λ _. begin_cycle-IsRanged c h)

loaded-host :
    (file : Option (List ℕ)) (m : MemorySystem)
    → IsByteHost m.host
    → Ensures (λ k. IsByteHost k.host) (load_program file m)
unfolding load_program
loaded-host none m h = tt
loaded-host (some bytes) m h = h

init-IsRanged :
    (config : SystemConfig) (file : Option (List ℕ)) (input : List (Option ℕ))
    → IsWordConfig config
    → AreBytes input
    → Ensures IsRanged (init file (new_core config input))
unfolding init reset new_core new_memory_system
init-IsRanged config file input w b =
    Ensures-chain (λ k. IsByteHost k.host) IsRanged (load_program file (new_memory_system input)) _
      (loaded-host file (new_memory_system input) (record { buffered = omega arith; waiting = b }))
      λ m k. record {
        latches = record {
          if_id = empty_if_id-IsRangedIfId;
          id_ex = empty_id_ex-IsRangedIdEx;
          ex_mem = empty_ex_mem-IsRangedExMem;
          mem_wb = empty-IsRangedPair;
        };
        registers =
            write_csr-IsValid (addr_of mtvec_csr) config.mtvec_init _ w.mtvec_word
              (write_rd-IsValid 2 config.sp_init true _ w.sp_word new_register_file-IsValid);
        host = k;
        pc = w.pc_word;
      }

-- On every core that is reached from a reset with words in its configuration and bytes at its
-- keyboard, whatever the program: the register file is valid and the pc is a word; in the latches the
-- pcs, the instruction, result, target, control register value and immediate of every slot, and the
-- addresses and the data of EX_MEM are words; destinations are below 32 and equal in their copies.
pub Reaches-IsRanged :
    {config : SystemConfig} {file : Option (List ℕ)} {input : List (Option ℕ)} {c : CpuCore}
    → IsWordConfig config
    → AreBytes input
    → Reaches config file input c
    → IsRanged c
Reaches-IsRanged {config} {file} {input} w b (start e) =
    subst (Ensures IsRanged) e (init-IsRanged config file input w b)
Reaches-IsRanged w b (cycle {c} r e) =
    subst (Ensures IsRanged) e (tick-IsRanged c (Reaches-IsRanged w b r))

accessed-IsSettled :
    (c : CpuCore) → IsAccessed second c → IsSettled c.pipe_regs.ex_mem c.pipe_regs.mem_wb c.reg_file
unfolding retire
accessed-IsSettled c h =
    let k = h.ranged.latches.mem_wb in
    let left =
      write_rd-IsValid _ _ _ _ k.lane1.result_word
        (write_rd-IsValid _ _ _ c.reg_file k.lane0.result_word h.ranged.registers) in
    record {
      low0 = ground (arith, k.lane0.low, k.lane0.same_rd);
      low1 = ground (arith, k.lane1.low, k.lane1.same_rd);
      agrees = h.agrees refl;
      word = λ r. read_rs1-IsWord r _ left;
      csr_word = λ a. read_csr-IsWord a c.reg_file h.ranged.registers;
    }

-- In every cycle of a core that is reached from a reset with words in its configuration and bytes
-- at its keyboard, what the memory stage returns is what the execute stage needs: destinations in
-- MEM_WB below 32, EX_MEM and MEM_WB in agreement, and words in the registers that the instructions
-- in MEM_WB leave and in the control registers.
pub memory_access-IsSettled :
    {config : SystemConfig} {file : Option (List ℕ)} {input : List (Option ℕ)} {c d : CpuCore}
    → IsWordConfig config
    → AreBytes input
    → Reaches config file input c
    → memory_access (write_back (begin_cycle c)) ≡ ok d
    → IsSettled d.pipe_regs.ex_mem d.pipe_regs.mem_wb d.reg_file
memory_access-IsSettled {c = c} {d = d} w b r e = accessed-IsSettled d (
    subst (Ensures (IsAccessed second)) e (
      memory_access-IsAccessed _
        (write_back-IsRanged _ (begin_cycle-IsRanged c (Reaches-IsRanged w b r)))))
