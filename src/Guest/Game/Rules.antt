-- ===== src/Guest/Game/Rules.antt =====
-- `logic` of Resource/CProgram/main.c against the rules of the game.
use simple_rv.Prelude.{
  ℕ, zero, suc, ◌-◌, ◌<◌, ◌≤◌, ◌≡◌, refl, sym, subst, arith, Bool, true, false, ◌&&◌, ◌||◌, ◌==◌,
  if_split, List, [], ◌∷◌,
}
use simple_rv.Guest.Keys.{KeyQueue, push_key, pop_key}
use simple_rv.Guest.Keys.Queue.{IsKeyQueue, push_key-pushed, pop_key-popped, no_keys-IsKeyQueue}
use simple_rv.Guest.Game.{
  Game, globals, width, height, max_len, minus_one, place_apple, init_game, capture, steer,
  take_key, hits_wall, eat, logic, play,
}
use simple_rv.Guest.Game.Frame.{steered, advanced, settled, logic-settled}
use simple_rv.Guest.Game.Moves.{bites}

pub data Direction : Type 0 where
  up down left right : Direction

unfoldable pub step_x : Direction → ℕ
step_x up = 0
step_x down = 0
step_x left = minus_one
step_x right = 1

unfoldable pub step_y : Direction → ℕ
step_y up = minus_one
step_y down = 1
step_y left = 0
step_y right = 0

-- The snake goes in one of the four directions.
abbrev pub Heads : Game → Direction → Type 0
Heads g d = (g.dir_x ≡ step_x d) × (g.dir_y ≡ step_y d)

abbrev pub InField : (ℕ → ℕ) → (ℕ → ℕ) → Type 0
InField xs ys = (i : ℕ) → (xs i < width) × (ys i < height)

-- The snake fits its arrays, the apple is in the field, the snake goes in one of the four
-- directions, the key queue is one, and until the game is over all segments are in the field.
pub record IsGame (g : Game) : Type 0 where
  pub long : 3 ≤ g.snake_len
  pub fits : g.snake_len ≤ max_len
  pub apple_in : (g.apple_x < width) × (g.apple_y < height)
  pub heading : (d : Direction) × Heads g d
  pub queue : IsKeyQueue g.queue
  pub inside : g.game_over ≡ false → InField g.snake_x g.snake_y

capture-IsKeyQueue : (ks : List ℕ) (q : KeyQueue) → IsKeyQueue q → IsKeyQueue (capture ks q)
unfolding capture
capture-IsKeyQueue [] q h = h
capture-IsKeyQueue (k ∷ ks) q h = capture-IsKeyQueue ks (push_key k q) (push_key-pushed k q h).0

turn-IsGame :
    (d : Direction) (g : Game) → IsGame g → IsGame (record g { dir_x = step_x d; dir_y = step_y d })
turn-IsGame d g h = record {
  long = h.long;
  fits = h.fits;
  apple_in = h.apple_in;
  heading = (d, (refl, refl));
  queue = h.queue;
  inside = h.inside;
}

over-IsGame : (g : Game) → IsGame g → IsGame (record g { game_over = true })
over-IsGame g h = record {
  long = h.long;
  fits = h.fits;
  apple_in = h.apple_in;
  heading = h.heading;
  queue = h.queue;
  inside = λ e. absurd (cc);
}

steer-IsGame : (key : ℕ) (g : Game) → IsGame g → IsGame (steer key g)
unfolding steer step_x step_y
steer-IsGame key g h =
    if_split IsGame (key == 119 && g.dir_y == 0) (λ _. turn-IsGame up g h)
      λ _.
        if_split IsGame (key == 115 && g.dir_y == 0) (λ _. turn-IsGame down g h)
          λ _.
            if_split IsGame (key == 97 && g.dir_x == 0) (λ _. turn-IsGame left g h)
              λ _.
                if_split IsGame (key == 100 && g.dir_x == 0) (λ _. turn-IsGame right g h)
                  λ _. if_split IsGame (key == 113) (λ _. over-IsGame g h) (λ _. h)

requeued-IsGame :
    (q : KeyQueue) (g : Game) → IsKeyQueue q → IsGame g → IsGame (record g { queue = q })
requeued-IsGame q g k h = record {
  long = h.long;
  fits = h.fits;
  apple_in = h.apple_in;
  heading = h.heading;
  queue = k;
  inside = h.inside;
}

reseeded-IsGame : (s : ℕ) (g : Game) → IsGame g → IsGame (record g { rand_state = s })
reseeded-IsGame s g h = record {
  long = h.long;
  fits = h.fits;
  apple_in = h.apple_in;
  heading = h.heading;
  queue = h.queue;
  inside = h.inside;
}

pub steered-IsGame : (typed : List ℕ) (g : Game) → IsGame g → IsGame (steered typed g)
unfolding take_key
steered-IsGame typed g h =
    let q = capture typed g.queue in
    let popped = pop_key q in
    let k = (pop_key-popped q (capture-IsKeyQueue typed g.queue h.queue)).0 in
    let g' = record g { queue = popped.1 } in
    let h' = requeued-IsGame popped.1 g k h in
    if_split IsGame (popped.0 == 0) (λ _. h')
      (λ _. steer-IsGame popped.0 _ (reseeded-IsGame _ g' h'))

in_field : (g : Game) → hits_wall g ≡ false → (g.snake_x 0 < width) × (g.snake_y 0 < height)
unfolding hits_wall
in_field g h = ground arith

none_holds : (a b c : Bool) → (a || (b || c)) ≡ false → (a ≡ false) × (b ≡ false) × (c ≡ false)
none_holds a b c h = ground arith

settled-InField :
    (g : Game)
    → IsGame g
    → (settled g).game_over ≡ false
    → InField (settled g).snake_x (settled g).snake_y
settled-InField g h e i =
    let m = advanced g in
    let (on, wall, self) = none_holds g.game_over (hits_wall m) (bites (g.snake_len - 1) 1 m) e in
    place i (in_field m wall) (h.inside on)
  where
    place :
        (i : ℕ)
        → ((advanced g).snake_x 0 < width) × ((advanced g).snake_y 0 < height)
        → InField g.snake_x g.snake_y
        → ((advanced g).snake_x i < width) × ((advanced g).snake_y i < height)
    place zero head body = head
    place (suc i) head body = ground (arith, body i, body (suc i))

settled-IsGame : (g : Game) → IsGame g → IsGame (settled g)
settled-IsGame g h = record {
  long = h.long;
  fits = h.fits;
  apple_in = h.apple_in;
  heading = h.heading;
  queue = h.queue;
  inside = settled-InField g h;
}

place_apple-IsGame : (g : Game) → IsGame g → IsGame (place_apple g)
unfolding place_apple
place_apple-IsGame g h = record {
  long = h.long;
  fits = h.fits;
  apple_in = (omega arith, omega arith);
  heading = h.heading;
  queue = h.queue;
  inside = h.inside;
}

eat-IsGame : (g : Game) → IsGame g → IsGame (eat g)
unfolding eat
eat-IsGame g h =
    if_split IsGame (g.snake_x 0 == g.apple_x && g.snake_y 0 == g.apple_y)
      (λ _. place_apple-IsGame _ (record {
        long = ground (arith, h.long, h.fits);
        fits = ground (arith, h.long, h.fits);
        apple_in = h.apple_in;
        heading = h.heading;
        queue = h.queue;
        inside = h.inside;
      }))
      (λ _. h)

-- A frame keeps the snake within its arrays, the apple and, until the game is over, every segment in
-- the field, and the snake going in one of the four directions.
pub logic-IsGame : (typed : List ℕ) (g : Game) → IsGame g → IsGame (logic typed g)
logic-IsGame typed g h =
    let t = steered-IsGame typed g h in
    subst IsGame (sym (logic-settled typed g (omega (arith, t.long))))
      (eat-IsGame _ (settled-IsGame _ t))

init_game-IsGame : IsGame (init_game globals)
unfolding init_game globals step_x step_y
init_game-IsGame = place_apple-IsGame _ (record {
  long = omega arith;
  fits = omega arith;
  apple_in = (omega arith, omega arith);
  heading = (right, (refl, refl));
  queue = no_keys-IsKeyQueue;
  inside = λ e i. ground arith;
})

-- In every frame of the game, whatever is typed: the snake has 3 to 100 segments and goes in one of
-- the four directions, the apple is in the field, the key queue is in order, and until the game is
-- over every segment is in the field.
pub play-IsGame : (frames : List (List ℕ)) → IsGame (play frames (init_game globals))
unfolding play
play-IsGame frames = from frames (init_game globals) init_game-IsGame
  where
    from : (frames : List (List ℕ)) (g : Game) → IsGame g → IsGame (play frames g)
    from [] g h = h
    from (typed ∷ rest) g h =
        if_split IsGame g.game_over (λ _. h)
          (λ _. from rest (logic typed g) (logic-IsGame typed g h))
