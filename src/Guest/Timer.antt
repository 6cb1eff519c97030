-- ===== src/Guest/Timer.antt =====
-- `delay` and `timer_isr` of Resource/CProgram/main.c, as the loads and stores of the simulator that
-- they come to.
use simple_rv.Prelude.{
  ℕ, zero, suc, ◌+◌, ◌-◌, ◌/◌, ◌*◌, ◌^◌, ◌%◌, ◌<◌, ◌≡◌, refl, ◌∙◌, ap, arith, u32, Bool, true,
  false, leb, ltb, if◌then◌else◌, Option, none, some, List, [], ◌∷◌, ◌++◌, replicate, bit_and,
  bit_or, Outcome, ok, ◌>>=◌,
}
use simple_rv.Prelude.Bits.{bit_and-low, bit_and-shifted, bit_or-disjoint, bit_or-sum_right}
use simple_rv.Types.{clint_mtimecmp, clint_mtime, count}
use simple_rv.MemorySystem.{
  MemorySystem, read, read_polled, read_clint, write, write_clint, increment_timer,
  timer_interrupt_pending,
}
use simple_rv.MemorySystem.Keyboard.{check_host_keyboard}

-- `CLINT_MTIMECMP_LO = lo; CLINT_MTIMECMP_HI = hi`.
unfoldable pub set_mtimecmp : ℕ → ℕ → MemorySystem → Outcome MemorySystem
set_mtimecmp lo hi m = write clint_mtimecmp 4 lo m >>= λ m'. write (clint_mtimecmp + 4) 4 hi m'

-- `delay` up to its wait for the interrupt.
unfoldable pub delay_start : ℕ → MemorySystem → Outcome MemorySystem
delay_start cycles m = read clint_mtime 4 m >>= λ now. set_mtimecmp (u32 (now.0 + cycles)) 0 now.1

-- The interrupt handler: `timer_ticks` and the memory system.
unfoldable pub timer_isr : ℕ → MemorySystem → Outcome (ℕ × MemorySystem)
timer_isr timer_ticks m =
    set_mtimecmp 0xFFFFFFFF 0xFFFFFFFF m >>= λ m'. ok (u32 (timer_ticks + 1), m')

-- The wait of `delay`, look by look at `timer_ticks`; before a look the handler may have run. `none`
-- is a wait that has not ended with the last look.
unfoldable pub delay_wait : ℕ → ℕ → List Bool → Option ℕ
delay_wait target timer_ticks [] = none
delay_wait target timer_ticks (interrupted ∷ looks) =
    let ticks = if interrupted then u32 (timer_ticks + 1) else timer_ticks in
    let rest = delay_wait target ticks looks in if ltb ticks target then rest else some ticks

-- The clock `k` cycles later.
unfoldable pub later : ℕ → MemorySystem → MemorySystem
later zero m = m
later (suc k) m = later k (increment_timer m)

set_mtimecmp-lem :
    (lo hi : ℕ) (m : MemorySystem)
    → lo < 2 ^ 32
    → set_mtimecmp lo hi m ≡ ok (record m { mtimecmp = lo + hi * 2 ^ 32 })
unfolding set_mtimecmp write write_clint
set_mtimecmp-lem lo hi m h =
    let high = bit_and (m.mtimecmp / 2 ^ 32) (2 ^ 32 - 1) in
    let kept : bit_and m.mtimecmp 0xFFFFFFFF00000000 ≡ high * 2 ^ 32 =
      bit_and-shifted 32 m.mtimecmp (2 ^ 32 - 1) in
    let low_part : bit_or (bit_and m.mtimecmp 0xFFFFFFFF00000000) lo ≡ high * 2 ^ 32 + lo =
      ap (λ x. bit_or x lo) kept ∙ bit_or-disjoint 32 high lo h in
    let low : bit_and (bit_or (bit_and m.mtimecmp 0xFFFFFFFF00000000) lo) 0xFFFFFFFF ≡ lo =
      ap (λ x. bit_and x 0xFFFFFFFF) low_part
      ∙ (bit_and-low 32 (high * 2 ^ 32 + lo) ∙ omega arith) in
    ap (λ v. ok (record m { mtimecmp = v }))
      (ap (λ x. bit_or x (hi * 2 ^ 32)) low ∙ bit_or-sum_right 32 (hi * 2 ^ 32) lo (omega arith) h)

later-lem :
    (k : ℕ) (m : MemorySystem) → m.mtime + k < 2 ^ 64 → later k m ≡ record m { mtime = m.mtime + k }
unfolding later increment_timer count
later-lem zero m h = ap (λ t. record m { mtime = t }) (omega arith)
later-lem (suc k) m h =
    let next : (m.mtime + 1) % 2 ^ 64 ≡ m.mtime + 1 = omega arith in
    let sum : m.mtime + 1 + k ≡ m.mtime + suc k = omega arith in
    rw next (
      later-lem k (record m { mtime = m.mtime + 1 }) (omega arith)
      ∙ ap (λ t. record m { mtime = t }) sum)

-- After `delay` has set the timer, `k` cycles later the timer interrupt is pending exactly if `k` is
-- not below `cycles`. The clock is to fit 32 bits at the end of the delay and not to wrap within the
-- `k` cycles, and either the clock or the delay is not 0.
pub delay_start-pending :
    (cycles k : ℕ) (m : MemorySystem)
    → 0 < m.mtime + cycles
    → m.mtime + cycles < 2 ^ 32
    → m.mtime + k < 2 ^ 64
    → (m' : MemorySystem) × (delay_start cycles m ≡ ok m')
      × (timer_interrupt_pending (later k m') ≡ leb cycles k)
unfolding delay_start read read_polled read_clint timer_interrupt_pending
delay_start-pending cycles k m p h l =
    let seen = record m { host = check_host_keyboard m.host } in
    let now : bit_and m.mtime 0xFFFFFFFF ≡ m.mtime = bit_and-low 32 m.mtime ∙ omega arith in
    let at : u32 (bit_and m.mtime 0xFFFFFFFF + cycles) ≡ m.mtime + cycles = omega (arith, now) in
    let m' = record seen { mtimecmp = m.mtime + cycles + 0 * 2 ^ 32 } in
    (
      m',
      ap (λ lo. set_mtimecmp lo 0 seen) at ∙ set_mtimecmp-lem (m.mtime + cycles) 0 seen h,
      ap timer_interrupt_pending (later-lem k m' l) ∙ ground arith,
    )

-- The handler counts a tick and takes the timer interrupt back, unless the clock is at its last value
-- before it wraps.
pub timer_isr-lem :
    (ticks : ℕ) (m : MemorySystem)
    → m.mtime < 2 ^ 64 - 1
    → (m' : MemorySystem) × (timer_isr ticks m ≡ ok (u32 (ticks + 1), m'))
      × (timer_interrupt_pending m' ≡ false)
      × (m'.mtime ≡ m.mtime)
unfolding timer_isr timer_interrupt_pending
timer_isr-lem ticks m h =
    let m' = record m { mtimecmp = 0xFFFFFFFF + 0xFFFFFFFF * 2 ^ 32 } in
    (
      m',
      ap (λ w. w >>= λ r. ok (u32 (ticks + 1), r))
          (set_mtimecmp-lem 0xFFFFFFFF 0xFFFFFFFF m (omega arith)),
      ground arith,
      refl,
    )

-- Looks before which the handler has not run do not end the wait, and the first one after it has does.
pub delay_wait-tick :
    (looks : ℕ) (rest : List Bool) (timer_ticks : ℕ)
    → timer_ticks < 2 ^ 32 - 1
    → delay_wait (u32 (timer_ticks + 1)) timer_ticks (replicate looks false ++ true ∷ rest)
      ≡ some (timer_ticks + 1)
unfolding delay_wait
delay_wait-tick zero rest t h = ground arith
delay_wait-tick (suc looks) rest t h =
    let waits : ltb t (u32 (t + 1)) ≡ true = ground arith in
    rw waits (delay_wait-tick looks rest t h)
