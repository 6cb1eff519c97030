-- ===== src/CpuCore/Path/Words.antt =====
-- The words that `CPUCore::fetch` of src/CPUCore.cpp finds, with translation off.
use simple_rv.Prelude.{
  ℕ, suc, zero, ◌+◌, ◌*◌, ◌/◌, ◌%◌, ◌^◌, ◌<◌, ◌≤◌, ◌≡◌, refl, ◌∙◌, ap, arith, u32, Bool, true,
  false, Bool-cases, inl, inr, ◌==◌, ltb, leb, lt→ltb, ◌>>◌, if◌then◌else◌, ok, thrown, ◌>>=◌,
  read_out_of_bounds, fetch_out_of_bounds,
}
use simple_rv.Prelude.Bits.{bit_and-low}
use simple_rv.Types.{memory_size, prv_m}
use simple_rv.MemorySystem.{read, read_double_instr, copy_bytes, byte_at, load_loop}
use simple_rv.MemorySystem.RoundTrip.{byte_of, load_loop-stored}
use simple_rv.MemorySystem.Access.{IsPlain, read_plain, load_from, polled}
use simple_rv.MemorySystem.Translate.{translate}
use simple_rv.CpuCore.State.{CpuCore}
use simple_rv.CpuCore.Fetch.{fetch_two, fetch, fetch_access, fill_first, fill_both}

-- The little-endian number of the `n` bytes from an address on, and the word there.
unfoldable pub bytes_at : (ℕ → ℕ) → ℕ → ℕ → ℕ
bytes_at memory zero a = 0
bytes_at memory (suc n) a = memory a + 256 * bytes_at memory n (a + 1)

abbrev pub word_at : (ℕ → ℕ) → ℕ → ℕ
word_at memory a = bytes_at memory 4 a

-- From `c` to `d` the fetch stage fills IF_ID from the pc.
pub record FetchesWords (c d : CpuCore) : Type 0 where
  pub first_valid : d.pipe_regs.if_id.slots.lane0.valid ≡ true
  pub first_word : d.pipe_regs.if_id.slots.lane0.instr ≡ word_at c.memory.memory c.pc
  pub address : d.pipe_regs.if_id.pc ≡ c.pc
  pub second_word :
      d.pipe_regs.if_id.slots.lane1.valid ≡ true
      → d.pipe_regs.if_id.slots.lane1.instr ≡ word_at c.memory.memory (c.pc + 4)
  pub pair : c.pc / 2 ^ 12 ≡ (c.pc + 7) / 2 ^ 12 → d.pipe_regs.if_id.slots.lane1.valid ≡ true
  pub next : d.pc ≡ c.pc + (if d.pipe_regs.if_id.slots.lane1.valid then 8 else 4)
  pub same_memory : d.memory.memory ≡ c.memory.memory
  pub same_registers : d.reg_file ≡ c.reg_file

copy_bytes-lem :
    (memory : ℕ → ℕ) (n addr : ℕ)
    → addr + n ≤ memory_size
    → copy_bytes memory addr n ≡ ok (bytes_at memory n addr)
unfolding copy_bytes byte_at bytes_at
copy_bytes-lem memory zero addr h = refl
copy_bytes-lem memory (suc n) addr h =
    rw (lt→ltb addr memory_size (omega arith), copy_bytes-lem memory n (addr + 1) (omega arith))
      refl

module _ (memory : ℕ → ℕ) (bytes : (a : ℕ) → memory a < 256) (addr : ℕ) where
  eight_bytes :
      (bytes_at memory 8 addr % 2 ^ 32 ≡ word_at memory addr)
      × (u32 (bytes_at memory 8 addr / 2 ^ 32) ≡ word_at memory (addr + 4))
  unfolding bytes_at
  eight_bytes =
      let at : (k l : ℕ) → k ≡ l → memory k ≡ memory l = λ k l e. ap memory e in
      let e4 = at (addr + 1 + 1 + 1 + 1) (addr + 4) (omega arith) in
      let e5 = at (addr + 1 + 1 + 1 + 1 + 1) (addr + 4 + 1) (omega arith) in
      let e6 = at (addr + 1 + 1 + 1 + 1 + 1 + 1) (addr + 4 + 1 + 1) (omega arith) in
      let e7 = at (addr + 1 + 1 + 1 + 1 + 1 + 1 + 1) (addr + 4 + 1 + 1 + 1) (omega arith) in
      let b0 = bytes addr in
      let b1 = bytes (addr + 1) in
      let b2 = bytes (addr + 1 + 1) in
      let b3 = bytes (addr + 1 + 1 + 1) in
      let b4 = bytes (addr + 4) in
      let b5 = bytes (addr + 4 + 1) in
      let b6 = bytes (addr + 4 + 1 + 1) in
      let b7 = bytes (addr + 4 + 1 + 1 + 1) in
      (omega (arith, b0, b1, b2, b3), omega (arith, b0, b1, b2, b3, b4, b5, b6, b7, e4, e5, e6, e7))

  word-byte : (j : ℕ) → j < 4 → memory (addr + j) ≡ byte_of (word_at memory addr) j
  unfolding bytes_at
  word-byte zero h =
      let at : addr + 0 ≡ addr = omega arith in ap memory at ∙ omega (arith, bytes addr)
  word-byte (suc zero) h = omega (arith, bytes addr, bytes (addr + 1))
  word-byte (suc (suc zero)) h =
      let at : addr + 2 ≡ addr + 1 + 1 = omega arith in
      ap memory at ∙ omega (arith, bytes addr, bytes (addr + 1), bytes (addr + 1 + 1))
  word-byte (suc (suc (suc zero))) h =
      let at : addr + 3 ≡ addr + 1 + 1 + 1 = omega arith in
      ap memory at
      ∙ omega (arith, bytes addr, bytes (addr + 1), bytes (addr + 1 + 1), bytes (addr + 1 + 1 + 1))
  word-byte (suc (suc (suc (suc j)))) h = absurd (omega arith)

  word-IsWord : word_at memory addr < 2 ^ 32
  unfolding bytes_at
  word-IsWord =
      omega (arith, bytes addr, bytes (addr + 1), bytes (addr + 1 + 1), bytes (addr + 1 + 1 + 1))

  load_loop-four : addr + 4 ≤ memory_size → load_loop memory addr 4 0 0 ≡ ok (word_at memory addr)
  load_loop-four h =
      let v = word_at memory addr in
      let none_yet : 0 ≡ v % 2 ^ (8 * 0) = omega arith in
      ap (load_loop memory addr 4 0) none_yet
      ∙ load_loop-stored addr v 4 0 memory (omega arith) (omega arith)
          (λ j p q. word-byte j (omega arith))
      ∙ ap ok (omega (arith, word-IsWord))

module _ (c : CpuCore) (machine : c.reg_file.privilege ≡ prv_m)
    (bytes : (a : ℕ) → c.memory.memory a < 256) (plain : IsPlain c.pc)
    (inside : c.pc + 8 ≤ memory_size) (empty0 : c.pipe_regs.if_id.slots.lane0.valid ≡ false)
    (empty1 : c.pipe_regs.if_id.slots.lane1.valid ≡ false) where
  direct :
      translate (fetch_access c c.pc) c.memory
      ≡ ok (record { fault = false; paddr = c.pc; cause = 0 }, c.memory)
  unfolding translate
  direct = let m_mode : (c.reg_file.privilege == prv_m) ≡ true = ground arith in rw m_mode refl

  read_one : read c.pc 4 c.memory ≡ ok (word_at c.memory.memory c.pc, polled c.memory)
  read_one =
      let within : ltb memory_size (u32 (c.pc + 4)) ≡ false = ground arith in
      read_plain c.pc 4 c.memory plain
      ∙ ap (λ b. if b then thrown read_out_of_bounds else load_from (polled c.memory) c.pc 4) within
      ∙ ap (λ v. v >>= λ w. ok (w, polled c.memory))
          (load_loop-four c.memory.memory bytes c.pc (omega arith))

  read_two : read_double_instr c.pc c.memory ≡ ok (bytes_at c.memory.memory 8 c.pc)
  unfolding read_double_instr
  read_two =
      let within : ltb memory_size (u32 (c.pc + 8)) ≡ false = ground arith in
      ap (λ b. if b then thrown fetch_out_of_bounds else copy_bytes c.memory.memory c.pc 8) within
      ∙ copy_bytes-lem c.memory.memory 8 c.pc inside

  abbrev one_page : Bool
  one_page = c.pc >> 12 == u32 (c.pc + 7) >> 12

  two_tried : fetch c ≡ fetch_two c
  unfolding fetch
  two_tried =
      let fits : leb (u32 (c.pc + 8)) memory_size ≡ true = ground arith in
      rw (empty0, empty1, fits) refl

  both_fetched : one_page ≡ true → fetch_two c ≡ ok (fill_both (bytes_at c.memory.memory 8 c.pc) c)
  unfolding fetch_two
  both_fetched page =
      let fits : leb (u32 (c.pc + 8)) memory_size ≡ true = ground arith in
      rw (direct, page, fits, read_two) refl

  one_fetched :
      one_page ≡ false
      → fetch_two c
        ≡ ok (fill_first (word_at c.memory.memory c.pc) (record c { memory = polled c.memory }))
  unfolding fetch_two
  one_fetched page = rw (direct, page, read_one) refl

  -- In M-mode, with an empty IF_ID and a pc at least eight bytes before the end of a memory that
  -- holds bytes, and not at a device, the fetch stage returns and puts the word at the pc into the
  -- first slot, and the word behind it into the second slot unless the eight bytes cross the end of
  -- a page; the pc goes behind what was fetched, and memory and registers stay.
  pub fetch-FetchesWords : (d : CpuCore) × (fetch c ≡ ok d) × FetchesWords c d
  fetch-FetchesWords = elim (Bool-cases one_page) [
    | inl page ↦ (
      fill_both (bytes_at c.memory.memory 8 c.pc) c,
      two_tried ∙ both_fetched page,
      record {
        first_valid = refl;
        first_word =
            bit_and-low 32 (bytes_at c.memory.memory 8 c.pc)
            ∙ (eight_bytes c.memory.memory bytes c.pc).0;
        address = refl;
        second_word = λ v. (eight_bytes c.memory.memory bytes c.pc).1;
        pair = λ p. refl;
        next = omega arith;
        same_memory = refl;
        same_registers = refl;
      },
    )
    | inr page ↦ (
      fill_first (word_at c.memory.memory c.pc) (record c { memory = polled c.memory }),
      two_tried ∙ one_fetched page,
      record {
        first_valid = refl;
        first_word = refl;
        address = refl;
        second_word = λ v. absurd (cc);
        pair = λ p. absurd (ground arith);
        next = rw empty1 (omega arith);
        same_memory = refl;
        same_registers = refl;
      },
    )
  ]
