-- ===== src/Guest/Keys.antt =====
-- The key queue of Resource/CProgram/main.c: `push_key` and `pop_key` on a ring of 16 characters.
-- An index of the ring is below 16, so that the array is a function on indexes.
pub mod Queue
use simple_rv.Prelude.{ℕ, ◌+◌, ◌%◌, ◌==◌, if◌then◌else◌}

pub record KeyQueue : Type 0 where
  pub key_queue : ℕ → ℕ
  pub q_head : ℕ
  pub q_tail : ℕ
  pub last_pushed_key : ℕ

-- The globals as they are initialised.
unfoldable pub no_keys : KeyQueue
no_keys = record { key_queue = λ i. 0; q_head = 0; q_tail = 0; last_pushed_key = 0 }

abbrev pub put_at : (ℕ → ℕ) → ℕ → ℕ → ℕ → ℕ
put_at f i v = λ a. if a == i then v else f a

unfoldable pub push_key : ℕ → KeyQueue → KeyQueue
push_key k q =
    let next = (q.q_tail + 1) % 16 in
    if k == q.last_pushed_key
    then q
    else if next == q.q_head
    then q
    else record q { key_queue = put_at q.key_queue q.q_tail k; q_tail = next; last_pushed_key = k }

unfoldable pub pop_key : KeyQueue → ℕ × KeyQueue
pop_key q =
    let k = q.key_queue q.q_head in
    let head = (q.q_head + 1) % 16 in
    if q.q_head == q.q_tail then (0, q) else (
      k,
      record q {
        q_head = head;
        last_pushed_key = if head == q.q_tail then 0 else q.last_pushed_key;
      },
    )
