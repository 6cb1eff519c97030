-- ===== src/Guest/Game.antt =====
-- The game of Resource/CProgram/main.c: its globals, `init_game` and `logic`. The arrays are
-- functions on indexes, of which those below 100 are in bounds.
pub mod Moves
pub mod Frame
pub mod Rules
pub mod Turns
pub mod Plays
pub mod Bounds
use simple_rv.Prelude.{
  ℕ, zero, suc, ◌+◌, ◌-◌, ◌%◌, u32, Bool, true, false, ◌&&◌, ◌||◌, not, ◌==◌, is_negative,
  signed_ltb, if◌then◌else◌, List, [], ◌∷◌,
}
use simple_rv.Guest.Keys.{KeyQueue, no_keys, put_at, push_key, pop_key}
use simple_rv.Guest.Random.{simple_rand}

abbrev pub width : ℕ
width = 20

abbrev pub height : ℕ
height = 10

abbrev pub max_len : ℕ
max_len = 100

-- The pattern of -1.
abbrev pub minus_one : ℕ
minus_one = 0xFFFFFFFF

pub record Game : Type 0 where
  pub snake_x : ℕ → ℕ
  pub snake_y : ℕ → ℕ
  pub snake_len : ℕ
  pub dir_x : ℕ
  pub dir_y : ℕ
  pub apple_x : ℕ
  pub apple_y : ℕ
  pub game_over : Bool
  pub score : ℕ
  pub rand_state : ℕ
  pub queue : KeyQueue

-- The globals before `_start`.
unfoldable pub globals : Game
unfolding no_keys
globals = record {
  snake_x = λ i. 0;
  snake_y = λ i. 0;
  snake_len = 0;
  dir_x = 0;
  dir_y = 0;
  apple_x = 0;
  apple_y = 0;
  game_over = false;
  score = 0;
  rand_state = 123456789;
  queue = no_keys;
}

-- `apple_x = simple_rand() % WIDTH; apple_y = simple_rand() % HEIGHT`.
unfoldable pub place_apple : Game → Game
place_apple g =
    let x = simple_rand g.rand_state in
    let y = simple_rand x in record g { apple_x = x % width; apple_y = y % height; rand_state = y }

unfoldable pub init_game : Game → Game
init_game g = place_apple (record g {
  snake_len = 3;
  snake_x = put_at (put_at (put_at g.snake_x 0 10) 1 9) 2 8;
  snake_y = put_at (put_at (put_at g.snake_y 0 5) 1 5) 2 5;
  dir_x = 1;
  dir_y = 0;
  score = 0;
  game_over = false;
})

-- `while (uart_kbhit()) push_key(uart_getchar())`, on the characters that it finds.
unfoldable pub capture : List ℕ → KeyQueue → KeyQueue
capture [] q = q
capture (k ∷ ks) q = capture ks (push_key k q)

-- The keys w, s, a, d and q.
unfoldable pub steer : ℕ → Game → Game
steer key g =
    if key == 119 && g.dir_y == 0
    then record g { dir_x = 0; dir_y = minus_one }
    else if key == 115 && g.dir_y == 0
    then record g { dir_x = 0; dir_y = 1 }
    else if key == 97 && g.dir_x == 0
    then record g { dir_x = minus_one; dir_y = 0 }
    else if key == 100 && g.dir_x == 0
    then record g { dir_x = 1; dir_y = 0 }
    else if key == 113
    then record g { game_over = true }
    else g

unfoldable pub take_key : Game → Game
take_key g =
    let popped = pop_key g.queue in
    let g' = record g { queue = popped.1 } in
    if popped.0 == 0
    then g'
    else steer popped.0 (record g' { rand_state = u32 (g'.rand_state + 1) })

-- `for (i = left; i > 0; i--)`.
unfoldable pub move_body : ℕ → Game → Game
move_body zero g = g
move_body (suc i) g = move_body i (record g {
  snake_x = put_at g.snake_x (suc i) (g.snake_x i);
  snake_y = put_at g.snake_y (suc i) (g.snake_y i);
})

unfoldable pub move : Game → Game
move g =
    let g' = move_body (g.snake_len - 1) g in
    record g' {
      snake_x = put_at g'.snake_x 0 (u32 (g'.snake_x 0 + g'.dir_x));
      snake_y = put_at g'.snake_y 0 (u32 (g'.snake_y 0 + g'.dir_y));
    }

unfoldable pub hits_wall : Game → Bool
hits_wall g =
    is_negative (g.snake_x 0)
    || not (signed_ltb (g.snake_x 0) width)
    || is_negative (g.snake_y 0)
    || not (signed_ltb (g.snake_y 0) height)

unfoldable pub check_wall : Game → Game
check_wall g = if hits_wall g then record g { game_over = true } else g

-- The loop on the segments from `i` on, with `left` rounds left.
unfoldable pub check_self : ℕ → ℕ → Game → Game
check_self zero i g = g
check_self (suc left) i g = check_self left (i + 1) (
    if g.snake_x 0 == g.snake_x i && g.snake_y 0 == g.snake_y i
    then record g { game_over = true }
    else g)

unfoldable pub eat : Game → Game
eat g =
    if g.snake_x 0 == g.apple_x && g.snake_y 0 == g.apple_y
    then place_apple (record g {
      score = u32 (g.score + 1);
      snake_len = if signed_ltb g.snake_len max_len then u32 (g.snake_len + 1) else g.snake_len;
    })
    else g

-- `logic` on a frame in which the characters `typed` have arrived.
unfoldable pub logic : List ℕ → Game → Game
logic typed g =
    let moved = move (take_key (record g { queue = capture typed g.queue })) in
    let checked = check_wall moved in eat (check_self (checked.snake_len - 1) 1 checked)

-- The loop of `_start`, frame by frame, on what is typed in each frame.
unfoldable pub play : List (List ℕ) → Game → Game
play [] g = g
play (typed ∷ rest) g = let later = play rest (logic typed g) in if g.game_over then g else later
