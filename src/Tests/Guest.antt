-- ===== src/Tests/Guest.antt =====
-- The theorems on the guest program of Resource/CProgram/main.c at concrete inputs.
use simple_rv.Prelude.{
  ℕ, ◌+◌, ◌*◌, ◌≡◌, refl, arith, u32, true, none, some, List, [], ◌∷◌, get_or, leb, ok,
}
use simple_rv.ExecutionEngine.Alu.Signed.{signed, wrap}
use simple_rv.MemorySystem.{MemorySystem, new_memory_system, timer_interrupt_pending}
use simple_rv.Guest.Arithmetic.{divsi3, modsi3, mulsi3}
use simple_rv.Guest.Arithmetic.Signed.{quotient_ℤ, remainder_ℤ, divsi3-modsi3}
use simple_rv.Guest.Arithmetic.Multiplication.{mulsi3-lem}
use simple_rv.Guest.Keys.{put_at, KeyQueue, no_keys, push_key, pop_key}
use simple_rv.Guest.Keys.Queue.{
  IsKeyQueue, keys, pushed, popped, no_keys-IsKeyQueue, push_key-pushed, push_key-pop_key,
}
use simple_rv.Guest.Game.Bounds.{SameGame, KeepsBeyond, with_arrays, logic-SameGame}
use simple_rv.Guest.Game.{Game, globals, init_game, logic, play, capture}
use simple_rv.Guest.Game.Frame.{steered}
use simple_rv.Guest.Game.Rules.{IsGame, play-IsGame}
use simple_rv.Guest.Game.Plays.{Plays, logic-Plays}
use simple_rv.Guest.Console.{drain, at_keyboard, remembered, drain-capture}
use simple_rv.Guest.Timer.{delay_start, later, delay_start-pending}
use simple_rv.Types.{mcause_timer_int, prv_m}
use simple_rv.RegisterFile.{new_register_file, hw_set_mtip}
use simple_rv.SystemConfig.{default_128mb}
use simple_rv.CpuCore.{new_core}
use simple_rv.CpuCore.State.{CpuCore}
use simple_rv.CpuCore.Trap.{check_and_handle_interrupts}
use simple_rv.Guest.Boot.{boot, IsReset, boot-interrupt}
use simple_rv.Types.{PipelineSlot, empty_slot, prv_s}
use simple_rv.RegisterFile.{exception_delegated}
use simple_rv.CpuCore.Execute.{handle_slot_trap, return_from_s}
use simple_rv.Guest.Modes.{s_trap_entry, ecall-s_trap_entry}
use simple_rv.Guest.Screen.{draw}
use simple_rv.Guest.Screen.Layout.{Shows, draw-Shows}

-- -7 by 2.
divsi3-modsi3_example :
    (divsi3 0xFFFFFFF9 2 ≡ wrap (quotient_ℤ (signed 0xFFFFFFF9) (signed 2)))
    × (modsi3 0xFFFFFFF9 2 ≡ wrap (remainder_ℤ (signed 0xFFFFFFF9) (signed 2)))
divsi3-modsi3_example = divsi3-modsi3 0xFFFFFFF9 2 (omega arith) (omega arith) (omega arith)

mulsi3-lem_example : mulsi3 0xFFFFFFFF 6 ≡ some (u32 (0xFFFFFFFF * 6))
mulsi3-lem_example = mulsi3-lem 0xFFFFFFFF 6 (omega arith) (omega arith)

abbrev one_key : KeyQueue
one_key = push_key 119 no_keys

push_key-pop_key_example :
    IsKeyQueue (push_key 97 one_key)
    × (keys (push_key 97 one_key) ≡ pushed 97 (keys one_key))
    × IsKeyQueue (pop_key one_key).1
    × (((pop_key one_key).0, keys (pop_key one_key).1) ≡ popped (keys one_key))
push_key-pop_key_example =
    push_key-pop_key 97 one_key (push_key-pushed 119 no_keys no_keys-IsKeyQueue).0

-- A frame without a key, one with w, and one with a.
abbrev typed_frames : List (List ℕ)
typed_frames = [] ∷ (119 ∷ []) ∷ (97 ∷ []) ∷ []

play-IsGame_example : IsGame (play typed_frames (init_game globals))
play-IsGame_example = play-IsGame typed_frames

logic-Plays_example :
    Plays
      (play typed_frames (init_game globals))
      (steered (100 ∷ []) (play typed_frames (init_game globals)))
      (logic (100 ∷ []) (play typed_frames (init_game globals)))
logic-Plays_example =
    logic-Plays (100 ∷ []) (play typed_frames (init_game globals)) (play-IsGame typed_frames)

drain-capture_example :
    drain 3 no_keys (at_keyboard (some 119 ∷ some 97 ∷ none ∷ []) (new_memory_system []))
    ≡ ok (
        some (
          capture (119 ∷ 97 ∷ []) no_keys,
          at_keyboard [] (remembered (119 ∷ 97 ∷ []) (new_memory_system [])),
        ))
drain-capture_example =
    drain-capture (119 ∷ 97 ∷ []) [] no_keys (new_memory_system []) (omega arith, (omega arith, tt))

delay_start-pending_example :
    (m' : MemorySystem) × (delay_start 500000 (new_memory_system []) ≡ ok m')
    × (timer_interrupt_pending (later 499999 m') ≡ leb 500000 499999)
unfolding new_memory_system
delay_start-pending_example =
    delay_start-pending 500000 499999 (new_memory_system []) (omega arith) (omega arith)
      (omega arith)

new_register_file-IsReset : IsReset new_register_file
unfolding new_register_file
new_register_file-IsReset = record {
  machine = refl;
  mstatus_clear = refl;
  mie_clear = refl;
  mip_clear = refl;
  mideleg_clear = refl;
}

abbrev booted : CpuCore
booted = record (new_core default_128mb []) {
  reg_file = hw_set_mtip true (boot 0x200 new_register_file);
}

boot-interrupt_example :
    ((check_and_handle_interrupts booted).pc ≡ 0x200)
    × ((check_and_handle_interrupts booted).reg_file.mcause ≡ mcause_timer_int)
    × ((check_and_handle_interrupts booted).reg_file.mepc ≡ (new_core default_128mb []).pc)
    × ((check_and_handle_interrupts booted).reg_file.privilege ≡ prv_m)
boot-interrupt_example =
    boot-interrupt 0x200 new_register_file (new_core default_128mb []) new_register_file-IsReset

abbrev after_frames : Game
after_frames = play typed_frames (init_game globals)

-- The same with another number behind the end of the array.
abbrev other_x : ℕ → ℕ
other_x = put_at after_frames.snake_x 100 7

logic-SameGame_example :
    SameGame
      (logic (119 ∷ []) after_frames)
      (logic (119 ∷ []) (with_arrays other_x after_frames.snake_y after_frames))
    × KeepsBeyond other_x after_frames.snake_y
        (logic (119 ∷ []) (with_arrays other_x after_frames.snake_y after_frames))
logic-SameGame_example =
    logic-SameGame (119 ∷ []) after_frames other_x after_frames.snake_y (play-IsGame typed_frames)
      (λ i l. ground arith) (λ i l. refl)

draw-Shows_example :
    Shows (init_game globals) 10 5 (get_or (draw (init_game globals)) (52 + (23 * 5 + 11)) 0)
draw-Shows_example = draw-Shows 10 5 (init_game globals) (omega arith) (omega arith)

-- A call in S-mode, which is delegated.
abbrev a_call : PipelineSlot
a_call = record empty_slot { d = record empty_slot.d { is_ecall = true } }

abbrev in_s_mode : CpuCore
in_s_mode = record (new_core default_128mb []) {
  reg_file = record new_register_file { medeleg = 0x200; stvec = 0x8000; privilege = 1 };
  pc = 0x200;
}

ecall-s_trap_entry_example :
    (let t = handle_slot_trap a_call 0x200 in_s_mode in
      (t.pc ≡ 0x8000)
      × (t.reg_file.privilege ≡ prv_s)
      × ((return_from_s (record t { reg_file = s_trap_entry t.reg_file })).pc ≡ 0x208))
unfolding exception_delegated
ecall-s_trap_entry_example = ecall-s_trap_entry a_call 0x200 in_s_mode refl refl refl
