-- ===== src/CpuCore/Ranges/Accesses.antt =====
-- The latches and the memory system between the accesses of `memoryAccess` of src/CPUCore.cpp.
use simple_rv.Prelude.{ℕ, ◌+◌, ◌≡◌, arith, IsWord, true, false, ◌&&◌, not, ◌==◌, if_split, u32, ltb}
use simple_rv.Prelude.Bits.{bit_and-le}
use simple_rv.Types.{PipelineSlot, Lane, first, second, get_lane, memory_size, uart_tx_addr, prv_m}
use simple_rv.RegisterFile.{exception_delegated}
use simple_rv.MemorySystem.{MemorySystem, write, in_clint, write_clint, store_loop}
use simple_rv.ExecutionEngine.Forwarding.{Agrees}
use simple_rv.PipelineRegisters.{flush}
use simple_rv.CpuCore.State.{CpuCore, drop_ex_mem}
use simple_rv.CpuCore.Trap.{handle_trap}
use simple_rv.CpuCore.MemoryAccess.{Round, goes_on, returns, extend_loaded, put_mem_wb}
use simple_rv.CpuCore.Invariant.Memory.{Ensures, Ensures-bind}
use simple_rv.CpuCore.Ranges.{IsRangedSlot, IsRanged, IsByteHost}
use simple_rv.CpuCore.Ranges.Traps.{handle_trap-IsRanged}

-- The core is ranged, and once the second slot's access is over EX_MEM and MEM_WB agree.
pub record IsAccessed (i : Lane) (c : CpuCore) : Type 0 where
  pub ranged : IsRanged c
  pub agrees : i ≡ second → Agrees c.pipe_regs.ex_mem c.pipe_regs.mem_wb

-- A return in between ends the accesses of both slots.
abbrev pub AccessedRound : Lane → Round → Type 0
AccessedRound i (goes_on c) = IsAccessed i c
AccessedRound i (returns c) = IsAccessed second c

handle_trap-Agrees :
    (p q r : ℕ) (c : CpuCore)
    → Agrees (handle_trap p q r c).pipe_regs.ex_mem (handle_trap p q r c).pipe_regs.mem_wb
unfolding handle_trap flush
handle_trap-Agrees p q r c =
    if_split (λ (d : CpuCore). Agrees d.pipe_regs.ex_mem d.pipe_regs.mem_wb)
      (exception_delegated c.reg_file q && not (c.reg_file.privilege == prv_m)) (λ _. none_left)
      (λ _. none_left)
  where
    none_left : Agrees (drop_ex_mem (flush c.pipe_regs)).ex_mem c.pipe_regs.mem_wb
    none_left = record {
      same_valid = λ v. cc;
      same_write = λ v. cc;
      same_rd = λ v. cc;
      same_result = λ v m. cc;
    }

pub trap-IsAccessed :
    (p q r : ℕ) (c : CpuCore)
    → IsWord p
    → IsWord q
    → IsWord r
    → IsRanged c
    → IsAccessed second (handle_trap p q r c)
trap-IsAccessed p q r c hp hq hr h = record {
  ranged = handle_trap-IsRanged p q r c hp hq hr h;
  agrees = λ e. handle_trap-Agrees p q r c;
}

pub mem_addr-IsWord :
    (i : Lane) (c : CpuCore) → IsRanged c → IsWord (get_lane c.pipe_regs.ex_mem.mem_addr i)
mem_addr-IsWord first c h = h.latches.ex_mem.addr0
mem_addr-IsWord second c h = h.latches.ex_mem.addr1

pub set_memory-IsRanged :
    (m : MemorySystem) (c : CpuCore)
    → IsByteHost m.host
    → IsRanged c
    → IsRanged (record c { memory = m })
set_memory-IsRanged m c b h = record {
  latches = h.latches;
  registers = h.registers;
  host = b;
  pc = h.pc;
}

set_result-IsRangedSlot :
    (v : ℕ) (s : PipelineSlot) → IsWord v → IsRangedSlot s → IsRangedSlot (record s { result = v })
set_result-IsRangedSlot v s w h = record {
  instr_word = h.instr_word;
  result_word = w;
  target_word = h.target_word;
  csr_word = h.csr_word;
  imm_word = h.imm_word;
  low = h.low;
  same_rd = h.same_rd;
  same_write = h.same_write;
}

-- MEM_WB with a slot of EX_MEM, or with what a load of it delivers.
pub put_mem_wb-IsAccessed :
    (i : Lane) (v : ℕ) (c : CpuCore)
    → (get_lane c.pipe_regs.ex_mem.mem_read i ≡ false
        → v ≡ (get_lane c.pipe_regs.ex_mem.slots i).result)
    → IsWord v
    → IsRanged c
    → IsAccessed i (put_mem_wb i (record (get_lane c.pipe_regs.ex_mem.slots i) { result = v }) c)
put_mem_wb-IsAccessed first v c e w h = record {
  ranged = record {
    latches = record {
      if_id = h.latches.if_id;
      id_ex = h.latches.id_ex;
      ex_mem = h.latches.ex_mem;
      mem_wb = record {
        lane0 =
            set_result-IsRangedSlot v c.pipe_regs.ex_mem.slots.lane0 w h.latches.ex_mem.slots.lane0;
        lane1 = h.latches.mem_wb.lane1;
      };
    };
    registers = h.registers;
    host = h.host;
    pc = h.pc;
  };
  agrees = λ n. cc;
}
put_mem_wb-IsAccessed second v c e w h = record {
  ranged = record {
    latches = record {
      if_id = h.latches.if_id;
      id_ex = h.latches.id_ex;
      ex_mem = h.latches.ex_mem;
      mem_wb = record {
        lane0 = h.latches.mem_wb.lane0;
        lane1 =
            set_result-IsRangedSlot v c.pipe_regs.ex_mem.slots.lane1 w h.latches.ex_mem.slots.lane1;
      };
    };
    registers = h.registers;
    host = h.host;
    pc = h.pc;
  };
  agrees = λ n. record {
    same_valid = λ v. v;
    same_write = λ v. h.latches.ex_mem.slots.lane1.same_write;
    same_rd = λ v. h.latches.ex_mem.slots.lane1.same_rd;
    same_result = λ v m. ground (arith, h.latches.ex_mem.load1);
  };
}

pub loaded-IsAccessed :
    (i : Lane) (v : ℕ) (m : MemorySystem) (c : CpuCore)
    → get_lane c.pipe_regs.ex_mem.mem_read i ≡ true
    → IsWord v
    → IsByteHost m.host
    → IsRanged c
    → (let d = put_mem_wb i (get_lane c.pipe_regs.ex_mem.slots i) c in
        IsAccessed i (
          put_mem_wb i
            (record (get_lane d.pipe_regs.mem_wb.slots i) { result = v })
            (record d { memory = m })))
loaded-IsAccessed first v m c reads w b h =
    put_mem_wb-IsAccessed first v (record c { memory = m }) (λ e. cc) w
      (set_memory-IsRanged m c b h)
loaded-IsAccessed second v m c reads w b h =
    put_mem_wb-IsAccessed second v (record c { memory = m }) (λ e. cc) w
      (set_memory-IsRanged m c b h)

pub extend_loaded-IsWord : (funct3 raw : ℕ) → IsWord raw → IsWord (extend_loaded funct3 raw)
unfolding extend_loaded
extend_loaded-IsWord funct3 raw h = ground (arith, bit_and-le raw 0xFF, bit_and-le raw 0xFFFF)

abbrev pub HasBytes : MemorySystem → Type 0
HasBytes m = IsByteHost m.host

-- The memory system after a store has the keyboard buffer of before.
pub write-IsByteHost :
    (addr n v : ℕ) (m : MemorySystem) → IsByteHost m.host → Ensures HasBytes (write addr n v m)
unfolding write write_clint
write-IsByteHost addr n v m h =
    if_split (Ensures HasBytes) (in_clint addr) (λ _. ground (arith, h.buffered, h.waiting))
      λ _.
        if_split (Ensures HasBytes) (addr == uart_tx_addr)
          (λ _. record { buffered = h.buffered; waiting = h.waiting })
          λ _.
            if_split (Ensures HasBytes) (ltb memory_size (u32 (addr + n))) (λ _. tt)
              λ _. Ensures-bind HasBytes (store_loop addr v n 0 m.memory) _ (λ k. h)
