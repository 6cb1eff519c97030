-- ===== src/Guest/Console.antt =====
-- The terminal functions of Resource/CProgram/main.c, as the loads and stores of the simulator that
-- they come to: `uart_kbhit`, `uart_getchar`, `uart_putchar`, `print_str`, and the loop of `logic` on
-- the keys that have arrived. An access in M-mode with translation off is one of `MemorySystem`.
use mathlib.Core.List.{append-nil, append_assoc}
use simple_rv.Prelude.{
  ℕ, zero, suc, ◌<◌, ◌≡◌, refl, sym, ◌∙◌, ap, ap₂, arith, Bool, false, ◌==◌, has_bits, bit_and,
  if◌then◌else◌, if_split, Option, none, some, List, [], ◌∷◌, ◌++◌, length, map, Outcome, ok,
  thrown, undefined, ◌>>=◌,
}
use simple_rv.Types.{uart_tx_addr, uart_lsr_addr}
use simple_rv.MemorySystem.{MemorySystem, read, read_polled, word_of_char, write}
use simple_rv.Prelude.Bits.{bit_and-low}
use simple_rv.CpuCore.Ranges.{AreBytes}
use simple_rv.MemorySystem.Keyboard.{Host, poll, check_host_keyboard}
use simple_rv.Guest.Keys.{KeyQueue, push_key}
use simple_rv.Guest.Game.{capture}

-- `(UART_LSR & UART_LSR_RX_READY) != 0`, a load of one byte.
unfoldable pub uart_kbhit : MemorySystem → Outcome (Bool × MemorySystem)
uart_kbhit m = read uart_lsr_addr 1 m >>= λ r. ok (has_bits (bit_and r.0 0xFF) 0x01, r.1)

unfoldable pub uart_getchar : MemorySystem → Outcome (ℕ × MemorySystem)
uart_getchar m = read uart_tx_addr 1 m >>= λ r. ok (bit_and r.0 0xFF, r.1)

-- `while ((UART_LSR & UART_LSR_TX_IDLE) == 0)`: `none` when the fuel runs out.
unfoldable pub wait_idle : ℕ → MemorySystem → Outcome (Option MemorySystem)
wait_idle zero m = ok none
wait_idle (suc fuel) m = read uart_lsr_addr 1 m >>= λ r.
    let again = wait_idle fuel r.1 in
    if bit_and (bit_and r.0 0xFF) 0x20 == 0 then again else ok (some r.1)

-- What is run on the memory system, if the fuel was enough.
abbrev pub once :
    Outcome (Option MemorySystem)
    → (MemorySystem → Outcome (Option MemorySystem))
    → Outcome (Option MemorySystem)
once (ok (some m)) f = f m
once (ok none) f = ok none
once (thrown e) f = thrown e
once undefined f = undefined

-- Each wait for the line has `fuel` rounds.
unfoldable pub uart_putchar : ℕ → ℕ → MemorySystem → Outcome (Option MemorySystem)
uart_putchar fuel c m = once (wait_idle fuel m) λ m'. write uart_tx_addr 1 c m' >>= λ w. ok (some w)

unfoldable pub print_str : ℕ → List ℕ → MemorySystem → Outcome (Option MemorySystem)
print_str fuel [] m = ok (some m)
print_str fuel (c ∷ cs) m = once (uart_putchar fuel c m) λ m'. print_str fuel cs m'

-- `while (uart_kbhit()) push_key(uart_getchar())`, in `fuel` rounds at most.
unfoldable pub drain : ℕ → KeyQueue → MemorySystem → Outcome (Option (KeyQueue × MemorySystem))
drain zero q m = ok none
drain (suc fuel) q m = uart_kbhit m >>= λ hit.
    let pressed = uart_getchar hit.1 >>= λ key. drain fuel (push_key key.0 q) key.1 in
    if hit.0 then pressed else ok (some (q, hit.1))

-- The memory system `m` before a keyboard that will give `input`.
abbrev pub at_keyboard : List (Option ℕ) → MemorySystem → MemorySystem
at_keyboard input m = record m {
  host = record (m.host) { has_buffered_char = false; input = input };
}

-- The last key of those that were read stays in the buffer.
unfoldable pub remembered : List ℕ → MemorySystem → MemorySystem
remembered [] m = m
remembered (k ∷ ks) m = remembered ks (record m { host = record (m.host) { buffered_char = k } })

low_byte : (ch : ℕ) → ch < 256 → bit_and (word_of_char ch) 0xFF ≡ ch
low_byte ch h = ground (arith, bit_and-low 8 (word_of_char ch))

-- The loop on the keys that have arrived and are bytes, with one round more than there are keys and
-- nothing in the buffer at its start: it pushes all of them into the queue in their order, and ends at
-- the first look that finds no key.
pub drain-capture :
    (typed : List ℕ) (rest : List (Option ℕ)) (q : KeyQueue) (m : MemorySystem)
    → AreBytes (map some typed)
    → drain (suc (length typed)) q (at_keyboard (map some typed ++ none ∷ rest) m)
      ≡ ok (some (capture typed q, at_keyboard rest (remembered typed m)))
unfolding drain capture remembered uart_kbhit uart_getchar read read_polled poll check_host_keyboard
drain-capture [] rest q m b = refl
drain-capture (ch ∷ typed) rest q m b = rw (low_byte ch b.0) (
    drain-capture typed rest (push_key ch q)
      (record m { host = record (m.host) { buffered_char = ch } }) b.1)

abbrev seen : MemorySystem → MemorySystem
seen m = record m { host = check_host_keyboard m.host }

-- The line is always idle, so that one look is enough.
wait_idle-one : (m : MemorySystem) → wait_idle 1 m ≡ ok (some (seen m))
unfolding wait_idle read read_polled
wait_idle-one m =
    let lsr : ℕ = if (check_host_keyboard m.host).has_buffered_char then 0x21 else 0x20 in
    let idle : bit_and (bit_and lsr 0xFF) 0x20 == 0 ≡ false =
      if_split (λ v. (bit_and (bit_and v 0xFF) 0x20 == 0) ≡ false)
        (check_host_keyboard m.host).has_buffered_char (λ _. refl) (λ _. refl) in
    rw idle refl

same-output : (h : Host) → (check_host_keyboard h).output ≡ h.output
unfolding check_host_keyboard
same-output h =
    if_split (λ (k : Host). k.output ≡ h.output) h.has_buffered_char (λ _. refl)
      (λ _. polled h.input)
  where
    polled : (input : List (Option ℕ)) → (poll input h).output ≡ h.output
    polled [] = refl
    polled (none ∷ rest) = refl
    polled (some ch ∷ rest) = refl

abbrev shown : ℕ → MemorySystem → MemorySystem
shown c m = record (seen m) {
  host = record (check_host_keyboard m.host) {
    output = (check_host_keyboard m.host).output ++ bit_and c 0xFF ∷ [];
  };
}

uart_putchar-shown : (c : ℕ) (m : MemorySystem) → uart_putchar 1 c m ≡ ok (some (shown c m))
unfolding uart_putchar write
uart_putchar-shown c m =
    ap (λ w. once w (λ m'. write uart_tx_addr 1 c m' >>= λ r. ok (some r))) (wait_idle-one m)

-- `print_str` returns, though each wait has one round only, and puts the bytes of the string on the
-- terminal in their order, whatever is typed meanwhile; memory and timer stay.
pub print_str-lem :
    (cs : List ℕ) (m : MemorySystem)
    → AreBytes (map some cs)
    → (m' : MemorySystem) × (print_str 1 cs m ≡ ok (some m'))
      × (m'.host.output ≡ m.host.output ++ cs)
      × (m'.memory ≡ m.memory)
      × (m'.mtime ≡ m.mtime)
      × (m'.mtimecmp ≡ m.mtimecmp)
unfolding print_str
print_str-lem [] m b = (m, refl, sym (append-nil m.host.output), refl, refl, refl)
print_str-lem (c ∷ cs) m b =
    let (m', printed, out, memory, mtime, mtimecmp) = print_str-lem cs (shown c m) b.1 in
    let byte : bit_and c 0xFF ≡ c = omega (arith, bit_and-low 8 c, b.0) in
    (
      m',
      ap (λ w. once w (λ m'. print_str 1 cs m')) (uart_putchar-shown c m) ∙ printed,
      out
          ∙ append_assoc (check_host_keyboard m.host).output (bit_and c 0xFF ∷ []) cs
          ∙ ap₂ (λ o k. o ++ k ∷ cs) (same-output m.host) byte,
      memory,
      mtime,
      mtimecmp,
    )
