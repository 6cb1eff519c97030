-- ===== src/Guest/Keys/Queue.antt =====
-- The key queue against a list of keys: first in first out, at most 15 of them, and no key twice in
-- a row.
use simple_rv.Prelude.{
  ℕ, zero, suc, ◌+◌, ◌-◌, ◌%◌, ◌<◌, ◌≤◌, ◌≡◌, ◌≢◌, refl, sym, ◌∙◌, ap, ap₂, subst, arith, ◌==◌,
  if◌then◌else◌, if_split, false, ◌||◌, List, [], ◌∷◌, ◌++◌, length,
}
use simple_rv.Guest.Keys.{KeyQueue, no_keys, put_at, push_key, pop_key}

-- The `n` keys from index `i` on, around the ring.
unfoldable pub keys_from : (ℕ → ℕ) → ℕ → ℕ → List ℕ
keys_from ring i zero = []
keys_from ring i (suc n) = ring i ∷ keys_from ring ((i + 1) % 16) n

abbrev pub held : KeyQueue → ℕ
held q = (q.q_tail + 16 - q.q_head) % 16

-- The keys that wait, the next one to be popped first.
abbrev pub keys : KeyQueue → List ℕ
keys q = keys_from q.key_queue q.q_head (held q)

-- The last key of a list, 0 if there is none.
unfoldable pub newest : List ℕ → ℕ
newest [] = 0
newest (k ∷ []) = k
newest (k ∷ l ∷ ks) = newest (l ∷ ks)

-- No key stands behind itself.
unfoldable pub NoRepeat : List ℕ → Type 0
NoRepeat [] = Unit
NoRepeat (k ∷ []) = Unit
NoRepeat (k ∷ l ∷ ks) = (k ≢ l) × NoRepeat (l ∷ ks)

-- The indexes are in the ring, the key that is not to be repeated is the newest one, and none is.
pub record IsKeyQueue (q : KeyQueue) : Type 0 where
  pub head_in : q.q_head < 16
  pub tail_in : q.q_tail < 16
  pub repeated : q.last_pushed_key ≡ newest (keys q)
  pub no_repeat : NoRepeat (keys q)

-- What the two operations are to do to a list of keys.
abbrev pub pushed : ℕ → List ℕ → List ℕ
pushed k ks = if k == newest ks || length ks == 15 then ks else ks ++ k ∷ []

abbrev pub popped : List ℕ → ℕ × List ℕ
popped [] = (0, [])
popped (k ∷ ks) = (k, ks)

length-keys_from : (ring : ℕ → ℕ) (i n : ℕ) → length (keys_from ring i n) ≡ n
unfolding keys_from
length-keys_from ring i zero = refl
length-keys_from ring i (suc n) = ap suc (length-keys_from ring ((i + 1) % 16) n)

-- One more key is the one behind the others.
keys_from-snoc :
    (ring : ℕ → ℕ) (i n : ℕ)
    → i < 16
    → keys_from ring i (suc n) ≡ keys_from ring i n ++ ring ((i + n) % 16) ∷ []
unfolding keys_from
keys_from-snoc ring i zero h =
    let same : i ≡ (i + 0) % 16 = omega arith in ap (λ x. ring x ∷ []) same
keys_from-snoc ring i (suc n) h =
    let same : ((i + 1) % 16 + n) % 16 ≡ (i + suc n) % 16 = omega arith in
    ap (λ ks. ring i ∷ ks)
      (keys_from-snoc ring ((i + 1) % 16) n (omega arith)
        ∙ ap (λ x. keys_from ring ((i + 1) % 16) n ++ ring x ∷ []) same)

-- A key that is put behind the others does not touch them.
keys_from-put_at :
    (ring : ℕ → ℕ) (i n j v : ℕ)
    → i < 16
    → j < 16
    → n ≤ (j + 16 - i) % 16
    → keys_from (put_at ring j v) i n ≡ keys_from ring i n
unfolding keys_from
keys_from-put_at ring i zero j v h k le = refl
keys_from-put_at ring i (suc n) j v h k le =
    ap₂ (λ x xs. x ∷ xs) (ground arith)
      (keys_from-put_at ring ((i + 1) % 16) n j v (omega arith) k (omega arith))

newest-snoc : (ks : List ℕ) (k : ℕ) → newest (ks ++ k ∷ []) ≡ k
unfolding newest
newest-snoc [] k = refl
newest-snoc (x ∷ []) k = refl
newest-snoc (x ∷ y ∷ ks) k = newest-snoc (y ∷ ks) k

NoRepeat-snoc : (ks : List ℕ) (k : ℕ) → NoRepeat ks → k ≢ newest ks → NoRepeat (ks ++ k ∷ [])
unfolding NoRepeat newest
NoRepeat-snoc [] k h ne = tt
NoRepeat-snoc (x ∷ []) k h ne = (λ e. ne (sym e), tt)
NoRepeat-snoc (x ∷ y ∷ ks) k h ne = (h.0, NoRepeat-snoc (y ∷ ks) k h.1 ne)

NoRepeat-rest : (k : ℕ) (ks : List ℕ) → NoRepeat (k ∷ ks) → NoRepeat ks
unfolding NoRepeat
NoRepeat-rest k [] h = tt
NoRepeat-rest k (l ∷ ks) h = h.1

-- A push onto a ring that has room.
module _ (k : ℕ) (q : KeyQueue) (h : IsKeyQueue q) where
  abbrev next : ℕ
  next = (q.q_tail + 1) % 16

  abbrev grown : KeyQueue
  grown = record q { key_queue = put_at q.key_queue q.q_tail k; q_tail = next; last_pushed_key = k }

  full : (next == q.q_head) ≡ (length (keys q) == 15)
  full = rw (length-keys_from q.key_queue q.q_head (held q)) (ground (arith, h.head_in, h.tail_in))

  grown-keys : (next == q.q_head) ≡ false → keys grown ≡ keys q ++ k ∷ []
  grown-keys room =
      let c = held q in
      let one_more : held grown ≡ suc c = ground (arith, h.head_in, h.tail_in) in
      let last : (q.q_head + c) % 16 ≡ q.q_tail = omega (arith, h.head_in, h.tail_in) in
      let stored : put_at q.key_queue q.q_tail k ((q.q_head + c) % 16) ≡ k = ground (arith, last) in
      ap (keys_from grown.key_queue q.q_head) one_more
      ∙ keys_from-snoc grown.key_queue q.q_head c h.head_in
      ∙ ap₂ (λ ks x. ks ++ x ∷ [])
          (keys_from-put_at q.key_queue q.q_head c q.q_tail k h.head_in h.tail_in (omega arith))
          stored

  grown-IsKeyQueue :
      (next == q.q_head) ≡ false → (k == q.last_pushed_key) ≡ false → IsKeyQueue grown
  grown-IsKeyQueue room other = record {
    head_in = h.head_in;
    tail_in = omega arith;
    repeated = sym (ap newest (grown-keys room) ∙ newest-snoc (keys q) k);
    no_repeat =
        let ne : k ≢ newest (keys q) = ground (arith, h.repeated) in
        subst NoRepeat (sym (grown-keys room)) (NoRepeat-snoc (keys q) k h.no_repeat ne);
  }

  -- `push_key` adds a key behind the others, unless it is the newest one or 15 keys wait.
  pub push_key-pushed : IsKeyQueue (push_key k q) × (keys (push_key k q) ≡ pushed k (keys q))
  unfolding push_key
  push_key-pushed =
      let P : KeyQueue → Type 0 = λ r. IsKeyQueue r × (keys r ≡ pushed k (keys q)) in
      let same = ap (λ x. k == x) h.repeated in
      if_split P (k == q.last_pushed_key) (λ again. (h, rw (sym same ∙ again) refl))
        (λ other.
          if_split P (next == q.q_head)
            (λ no_room. (h, rw (sym same ∙ other, sym full ∙ no_room) refl))
            (λ room. (
              grown-IsKeyQueue room other,
              rw (sym same ∙ other, sym full ∙ room) (grown-keys room),
            )))

-- A pop from a ring that holds a key.
module _ (q : KeyQueue) (h : IsKeyQueue q) (some_key : (q.q_head == q.q_tail) ≡ false) where
  abbrev head : ℕ
  head = (q.q_head + 1) % 16

  abbrev rest : List ℕ
  rest = keys_from q.key_queue head (held (record q { q_head = head }))

  keys-rest : keys q ≡ q.key_queue q.q_head ∷ rest
  unfolding keys_from
  keys-rest =
      let one_less : held q ≡ suc (held (record q { q_head = head })) =
        ground (arith, some_key, h.head_in, h.tail_in) in
      ap (keys_from q.key_queue q.q_head) one_less

  newest-rest : newest rest ≡ (if head == q.q_tail then 0 else newest (keys q))
  unfolding keys_from newest
  newest-rest =
      if_split (λ x. newest rest ≡ x) (head == q.q_tail)
        (λ last.
          let none_left : held (record q { q_head = head }) ≡ 0 = ground (arith, h.tail_in) in
          ap (λ n. newest (keys_from q.key_queue head n)) none_left)
        (λ more.
          let one_less : held (record q { q_head = head })
              ≡ suc (held (record q { q_head = (head + 1) % 16 })) =
            ground (arith, h.tail_in) in
          sym (
            ap newest keys-rest
            ∙ ap (λ n. newest (q.key_queue q.q_head ∷ keys_from q.key_queue head n)) one_less
            ∙ ap (λ n. newest (keys_from q.key_queue head n)) (sym one_less)))

-- `pop_key` takes the first key off; with no key it returns 0 and changes nothing.
pub pop_key-popped :
    (q : KeyQueue)
    → IsKeyQueue q
    → IsKeyQueue (pop_key q).1 × (((pop_key q).0, keys (pop_key q).1) ≡ popped (keys q))
unfolding pop_key keys_from
pop_key-popped q h =
    let P : ℕ × KeyQueue → Type 0 = λ r. IsKeyQueue r.1 × ((r.0, keys r.1) ≡ popped (keys q)) in
    if_split P (q.q_head == q.q_tail)
      (λ empty.
        let none : held q ≡ 0 = ground (arith, h.head_in) in
        let nil : keys q ≡ [] = ap (keys_from q.key_queue q.q_head) none in
        (h, subst (λ ks. (0, ks) ≡ popped ks) (sym nil) refl))
      (λ some_key. (
        record {
          head_in = omega arith;
          tail_in = h.tail_in;
          repeated =
              ap (λ x. if head q h some_key == q.q_tail then 0 else x) h.repeated
              ∙ sym (newest-rest q h some_key);
          no_repeat =
              NoRepeat-rest _ (rest q h some_key)
                (subst NoRepeat (keys-rest q h some_key) h.no_repeat);
        },
        sym (ap popped (keys-rest q h some_key)),
      ))

pub no_keys-IsKeyQueue : IsKeyQueue no_keys
unfolding no_keys keys_from newest NoRepeat
no_keys-IsKeyQueue = record {
  head_in = omega arith;
  tail_in = omega arith;
  repeated = refl;
  no_repeat = tt;
}

-- A key queue behaves as a list of at most 15 keys, of which no two neighbours are equal: `push_key`
-- adds a key behind the others unless it is the newest one or the list is full, `pop_key` takes the
-- first key, or gives 0 if there is none; both keep the queue in order.
pub push_key-pop_key :
    (k : ℕ) (q : KeyQueue)
    → IsKeyQueue q
    → IsKeyQueue (push_key k q)
      × (keys (push_key k q) ≡ pushed k (keys q))
      × IsKeyQueue (pop_key q).1
      × (((pop_key q).0, keys (pop_key q).1) ≡ popped (keys q))
push_key-pop_key k q h =
    let (a, b) = push_key-pushed k q h in let (c, d) = pop_key-popped q h in (a, b, c, d)
