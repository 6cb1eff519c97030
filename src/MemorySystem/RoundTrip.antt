-- ===== src/MemorySystem/RoundTrip.antt =====
-- The loops over bytes in `MemorySystem::read` and `MemorySystem::write` of src/MemorySystem.cpp.
use simple_rv.Prelude.{
  suc, zero, ℕ, ◌^◌, ◌%◌, ◌/◌, ◌*◌, ◌+◌, ◌<◌, ◌≤◌, ◌<<◌, ◌>>◌, u32, ◌≡◌, ◌⊎◌, refl, ap, ◌∙◌, arith,
  ◌==◌, lt→ltb, if◌then◌else◌, bit_and, bit_or, ok,
}
use simple_rv.Prelude.Bits.{bit_or-sum_right, bit_and-low}
use simple_rv.Types.{memory_size}
use simple_rv.MemorySystem.{byte_at, load_loop, store_loop}

-- Byte `i` of a word.
abbrev pub byte_of : ℕ → ℕ → ℕ
byte_of v i = v / 2 ^ (8 * i) % 256

-- The memory after a store of `n` bytes of `v` from byte `i` on.
pub record Stored (addr v i n : ℕ) (old new : ℕ → ℕ) : Type 0 where
  pub inside : (j : ℕ) → i ≤ j → j < i + n → new (addr + j) ≡ byte_of v j
  pub outside : (a : ℕ) → (a < addr + i) ⊎ (addr + i + n ≤ a) → new a ≡ old a

abbrev put : ℕ → ℕ → (ℕ → ℕ) → ℕ → ℕ
put index b memory a = if a == index then b else memory a

store_loop-suc :
    (addr v left i : ℕ) (memory : ℕ → ℕ)
    → addr + i < memory_size
    → store_loop addr v (suc left) i memory
      ≡ store_loop addr v left (i + 1) (put (addr + i) (byte_of v i) memory)
unfolding store_loop
store_loop-suc addr v left i memory h =
    let index : u32 (addr + i) ≡ addr + i = omega arith in
    let byte : bit_and (v >> (8 * i)) 0xFF ≡ byte_of v i = bit_and-low 8 (v >> (8 * i)) in
    rw (index, byte, lt→ltb _ _ h) refl

pub store_loop-Stored :
    (addr v left i : ℕ) (memory : ℕ → ℕ)
    → addr + i + left ≤ memory_size
    → (new : ℕ → ℕ) × (store_loop addr v left i memory ≡ ok new) × Stored addr v i left memory new
store_loop-Stored addr v zero i memory h = (
  memory,
  unfold store_loop in refl,
  record { inside = λ j p q. absurd (omega arith); outside = λ a p. refl },
)
store_loop-Stored addr v (suc left) i memory h =
    let memory' = put (addr + i) (byte_of v i) memory in
    let rest = store_loop-Stored addr v left (i + 1) memory' (omega arith) in
    (
      rest.0,
      store_loop-suc addr v left i memory (omega arith) ∙ rest.1,
      record {
        inside = λ j p q. ground (arith, rest.2.inside j, rest.2.outside (addr + j));
        outside = λ a p. ground (arith, rest.2.outside a);
      },
    )

-- One round of the load, at each of the four bytes of a word.
load_step :
    (i v : ℕ) → i < 4 → bit_or (v % 2 ^ (8 * i)) (byte_of v i << (8 * i)) ≡ v % 2 ^ (8 * (i + 1))
load_step zero v h =
    bit_or-sum_right 0 (byte_of v 0 << 0) (v % 1) (omega arith) (omega arith) ∙ omega arith
load_step (suc zero) v h =
    bit_or-sum_right 8 (byte_of v 1 << 8) (v % 256) (omega arith) (omega arith) ∙ omega arith
load_step (suc (suc zero)) v h =
    bit_or-sum_right 16 (byte_of v 2 << 16) (v % 2 ^ 16) (omega arith) (omega arith) ∙ omega arith
load_step (suc (suc (suc zero))) v h =
    bit_or-sum_right 24 (byte_of v 3 << 24) (v % 2 ^ 24) (omega arith) (omega arith) ∙ omega arith
load_step (suc (suc (suc (suc i)))) v h = absurd (omega arith)

pub load_loop-stored :
    (addr v left i : ℕ) (memory : ℕ → ℕ)
    → addr + i + left ≤ memory_size
    → i + left ≤ 4
    → ((j : ℕ) → i ≤ j → j < i + left → memory (addr + j) ≡ byte_of v j)
    → load_loop memory addr left i (v % 2 ^ (8 * i)) ≡ ok (v % 2 ^ (8 * (i + left)))
unfolding load_loop byte_at
load_loop-stored addr v zero i memory h w bytes = ap (λ (t : ℕ). ok (v % 2 ^ (8 * t))) (omega arith)
load_loop-stored addr v (suc left) i memory h w bytes =
    let index : u32 (addr + i) ≡ addr + i = omega arith in
    let inside : addr + i < memory_size = omega arith in
    rw (index, lt→ltb _ _ inside, bytes i (omega arith) (omega arith), load_step i v (omega arith))
      (load_loop-stored addr v left (i + 1) memory (omega arith) (omega arith)
          (λ j p q. bytes j (omega arith) (omega arith))
        ∙ ap (λ (t : ℕ). ok (v % 2 ^ (8 * t))) (omega arith))
