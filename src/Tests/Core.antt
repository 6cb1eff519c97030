-- ===== src/Tests/Core.antt =====
-- The theorems of the core at concrete cores.
use simple_rv.Prelude.{
  false, ℕ, ◌==◌, if◌then◌else◌, ◌≡◌, refl, arith, inr, true, Option, some, List, [], ◌∷◌, ok,
  thrown, undefined,
}
use simple_rv.Types.{
  mcause_timer_int, mcause_load_misaligned, medeleg_mask, empty_slot, empty_if_id, empty_id_ex,
  empty_ex_mem, empty_mem_wb,
}
use simple_rv.SystemConfig.{default_128mb}
use simple_rv.RegisterFile.{new_register_file, interrupt_delegated, exception_delegated}
use simple_rv.MemorySystem.{load_program, new_memory_system}
use simple_rv.CpuCore.{new_core, init}
use simple_rv.CpuCore.State.{CpuCore}
use simple_rv.CpuCore.Fetch.{fetch}
use simple_rv.CpuCore.Path.Words.{FetchesWords, fetch-FetchesWords}
use simple_rv.CpuCore.Trap.{handle_trap, take_interrupt, check_and_handle_interrupts}
use simple_rv.CpuCore.MemoryAccess.{load_width, misaligned, memory_access}
use simple_rv.CpuCore.Faults.{with_load, memory_access-IsMisalignedLoad}
use simple_rv.CpuCore.Execute.{return_from_m, return_from_s}
use simple_rv.CpuCore.Invariant.{IsSound}
use simple_rv.CpuCore.Cycle.{Reaches, start, Reaches-IsSound}
use simple_rv.CpuCore.Interrupts.Priority.{Serves, check_and_handle_interrupts-Serves}
use simple_rv.CpuCore.Interrupts.{TakenInM, take_interrupt-TakenInM}
use simple_rv.CpuCore.Trap.Laws.{EntersM, EntersS, handle_trap-EntersM, handle_trap-EntersS}
use simple_rv.CpuCore.Trap.Return.{
  m_context, s_context, return_from_m-handle_trap, return_from_s-handle_trap,
}

-- A core in M-mode with its interrupts enabled.
abbrev in_m_mode : CpuCore
in_m_mode = record (new_core default_128mb []) {
  reg_file = record new_register_file { mstatus = 0x8; mtvec = 0x10000; mie = 0x80; mip = 0x80 };
  pc = 0x200;
}

-- A core in U-mode that delegates the calls of its environment.
abbrev in_u_mode : CpuCore
in_u_mode = record (new_core default_128mb []) {
  reg_file = record new_register_file {
    mstatus = 0x2;
    medeleg = medeleg_mask;
    stvec = 0x8000;
    privilege = 0;
  };
  pc = 0x200;
}

handle_trap-EntersM_example : EntersM 0x200 2 0 in_m_mode (handle_trap 0x200 2 0 in_m_mode)
unfolding new_register_file
handle_trap-EntersM_example = handle_trap-EntersM 0x200 2 0 in_m_mode (inr refl) (omega arith)

handle_trap-EntersS_example : EntersS 0x200 8 0 in_u_mode (handle_trap 0x200 8 0 in_u_mode)
unfolding exception_delegated
handle_trap-EntersS_example = handle_trap-EntersS 0x200 8 0 in_u_mode (refl, omega arith)

return_from_m-handle_trap_example :
    m_context (return_from_m (handle_trap 0x200 2 0 in_m_mode))
    ≡ record { pc = 0x200; privilege = 3; enabled = true }
unfolding new_register_file
return_from_m-handle_trap_example =
    return_from_m-handle_trap 0x200 2 0 in_m_mode (inr refl) (omega arith)

return_from_s-handle_trap_example :
    s_context (return_from_s (handle_trap 0x204 8 0 in_u_mode))
    ≡ record { pc = 0x204; privilege = 0; enabled = true }
unfolding exception_delegated
return_from_s-handle_trap_example =
    return_from_s-handle_trap 0x204 8 0 in_u_mode (refl, omega arith)

-- The timer is enabled and pending.
check_and_handle_interrupts-Serves_example :
    Serves in_m_mode (check_and_handle_interrupts in_m_mode)
check_and_handle_interrupts-Serves_example = check_and_handle_interrupts-Serves in_m_mode

-- addi x1, x0, 5; ebreak
abbrev program : Option (List ℕ)
program = some (0x93 ∷ 0x00 ∷ 0x50 ∷ 0x00 ∷ 0x73 ∷ 0x00 ∷ 0x10 ∷ 0x00 ∷ [])

-- The core at reset, with the program in its memory.
abbrev at_reset : CpuCore
at_reset = elim (init program (new_core default_128mb [])) [
  | ok c ↦ c
  | thrown e ↦ new_core default_128mb []
  | undefined ↦ new_core default_128mb []
]

at_reset-Reaches : Reaches default_128mb program [] at_reset
unfolding init load_program
at_reset-Reaches = start refl

Reaches-IsSound_example : IsSound at_reset
Reaches-IsSound_example = Reaches-IsSound at_reset-Reaches

take_interrupt-TakenInM_example :
    TakenInM mcause_timer_int in_m_mode (take_interrupt mcause_timer_int in_m_mode)
unfolding new_register_file interrupt_delegated
take_interrupt-TakenInM_example = take_interrupt-TakenInM mcause_timer_int in_m_mode refl refl

-- `lw x5, 2(x0)` in EX_MEM.
abbrev loads_crooked : CpuCore
loads_crooked = record in_m_mode {
  pipe_regs = record {
    if_id = empty_if_id;
    id_ex = empty_id_ex;
    ex_mem = record empty_ex_mem {
      slots = record {
        lane0 = record empty_slot {
          instr = 0x00202283;
          result = 2;
          rd = 5;
          valid = true;
          reg_write = true;
        };
        lane1 = empty_slot;
      };
      pc = 0x40;
      mem_addr = record { lane0 = 2; lane1 = 0 };
      mem_read = record { lane0 = true; lane1 = false };
    };
    mem_wb = empty_mem_wb;
  };
}

memory_access-IsMisalignedLoad_example :
    (d : CpuCore) × (memory_access loads_crooked ≡ ok d)
    × EntersM 0x40 mcause_load_misaligned 2 (with_load loads_crooked) d
    × (d.pipe_regs.mem_wb.slots.lane0 ≡ loads_crooked.pipe_regs.ex_mem.slots.lane0)
unfolding new_register_file misaligned load_width
memory_access-IsMisalignedLoad_example =
    memory_access-IsMisalignedLoad loads_crooked
      (record { valid = refl; loads = refl; crooked = refl }) (inr refl) (omega arith)

-- A core with the word 0x13 at address 0, which it is about to fetch.
abbrev about_to_fetch : CpuCore
about_to_fetch = record (new_core default_128mb []) {
  memory = record (new_memory_system []) { memory = λ a. if a == 0 then 0x13 else 0 };
}

fetch-FetchesWords_example :
    (d : CpuCore) × (fetch about_to_fetch ≡ ok d) × FetchesWords about_to_fetch d
unfolding new_core new_memory_system new_register_file
fetch-FetchesWords_example =
    fetch-FetchesWords about_to_fetch refl (λ a. ground arith)
      (record { not_clint = refl; not_lsr = refl; not_uart = refl }) (omega arith) refl refl
