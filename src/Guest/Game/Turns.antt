-- ===== src/Guest/Game/Turns.antt =====
-- The keys of a frame of `logic` in Resource/CProgram/main.c: how they turn the snake.
use simple_rv.Prelude.{
  ℕ, ◌+◌, ◌≡◌, ◌≢◌, refl, ◌∙◌, ap, arith, u32, Bool, true, ◌&&◌, ◌==◌, if_split, List,
}
use simple_rv.Guest.Keys.{pop_key}
use simple_rv.Guest.Game.{Game, capture, steer, take_key}
use simple_rv.Guest.Game.Frame.{steered}
use simple_rv.Guest.Game.Rules.{Direction, up, down, left, right, step_x, step_y, Heads}

unfoldable pub opposite : Direction → Direction
opposite up = down
opposite down = up
opposite left = right
opposite right = left

-- The keys turn the snake and nothing else of it.
pub record Turns (g t : Game) : Type 0 where
  pub same_x : t.snake_x ≡ g.snake_x
  pub same_y : t.snake_y ≡ g.snake_y
  pub same_len : t.snake_len ≡ g.snake_len
  pub same_score : t.score ≡ g.score
  pub same_apple_x : t.apple_x ≡ g.apple_x
  pub same_apple_y : t.apple_y ≡ g.apple_y
  pub turned : (d : Direction) → Heads g d → (d' : Direction) × Heads t d' × (d' ≢ opposite d)

turn-Turns :
    (d' : Direction) (g : Game)
    → ((d : Direction) → Heads g d → d' ≢ opposite d)
    → Turns g (record g { dir_x = step_x d'; dir_y = step_y d' })
turn-Turns d' g h = record {
  same_x = refl;
  same_y = refl;
  same_len = refl;
  same_score = refl;
  same_apple_x = refl;
  same_apple_y = refl;
  turned = λ d k. (d', (refl, refl), h d k);
}

ne-opposite : (d : Direction) → d ≢ opposite d
unfolding opposite
ne-opposite up e = cc
ne-opposite down e = cc
ne-opposite left e = cc
ne-opposite right e = cc

same-Turns : (g : Game) (b : Bool) → Turns g (record g { game_over = b })
same-Turns g b = record {
  same_x = refl;
  same_y = refl;
  same_len = refl;
  same_score = refl;
  same_apple_x = refl;
  same_apple_y = refl;
  turned = λ d k. (d, k, ne-opposite d);
}

upright : (d d' : Direction) (g : Game) → Heads g d → step_x d' ≡ 0 → g.dir_y ≡ 0 → d' ≢ opposite d
unfolding step_x step_y opposite
upright up d' g h x y = absurd (omega (arith, h))
upright down d' g h x y = absurd (omega (arith, h))
upright left d' g h x y = λ e. absurd (omega (arith, x, ap step_x e))
upright right d' g h x y = λ e. absurd (omega (arith, x, ap step_x e))

sideways : (d d' : Direction) (g : Game) → Heads g d → step_y d' ≡ 0 → g.dir_x ≡ 0 → d' ≢ opposite d
unfolding step_x step_y opposite
sideways left d' g h y x = absurd (omega (arith, h))
sideways right d' g h y x = absurd (omega (arith, h))
sideways up d' g h y x = λ e. absurd (omega (arith, y, ap step_y e))
sideways down d' g h y x = λ e. absurd (omega (arith, y, ap step_y e))

steer-Turns : (key : ℕ) (g : Game) → Turns g (steer key g)
unfolding steer step_x step_y
steer-Turns key g =
    if_split (Turns g) (key == 119 && g.dir_y == 0)
      (λ k. turn-Turns up g (λ d h. upright d up g h refl (ground arith)))
      λ _.
        if_split (Turns g) (key == 115 && g.dir_y == 0)
          (λ k. turn-Turns down g (λ d h. upright d down g h refl (ground arith)))
          λ _.
            if_split (Turns g) (key == 97 && g.dir_x == 0)
              (λ k. turn-Turns left g (λ d h. sideways d left g h refl (ground arith)))
              λ _.
                if_split (Turns g) (key == 100 && g.dir_x == 0)
                  (λ k. turn-Turns right g (λ d h. sideways d right g h refl (ground arith)))
                  λ _.
                    if_split (Turns g) (key == 113) (λ _. same-Turns g true)
                      (λ _. same-Turns g g.game_over)

chained :
    (g s t : Game)
    → s.snake_x ≡ g.snake_x
    → s.snake_y ≡ g.snake_y
    → s.snake_len ≡ g.snake_len
    → s.score ≡ g.score
    → (s.apple_x ≡ g.apple_x) × (s.apple_y ≡ g.apple_y)
    → ((d : Direction) → Heads g d → Heads s d)
    → Turns s t
    → Turns g t
chained g s t x y l c a h k = record {
  same_x = k.same_x ∙ x;
  same_y = k.same_y ∙ y;
  same_len = k.same_len ∙ l;
  same_score = k.same_score ∙ c;
  same_apple_x = k.same_apple_x ∙ a.0;
  same_apple_y = k.same_apple_y ∙ a.1;
  turned = λ d p. k.turned d (h d p);
}

-- The keys of a frame do not turn the snake round.
pub steered-Turns : (typed : List ℕ) (g : Game) → Turns g (steered typed g)
unfolding take_key
steered-Turns typed g =
    let popped = pop_key (capture typed g.queue) in
    let s = record g { queue = popped.1 } in
    let s' = record s { rand_state = u32 (g.rand_state + 1) } in
    if_split (Turns g) (popped.0 == 0)
      (λ _. chained g s s refl refl refl refl (refl, refl) (λ d h. h) (same-Turns s s.game_over))
      (λ _.
        chained g s' (steer popped.0 s') refl refl refl refl (refl, refl) (λ d h. h)
          (steer-Turns popped.0 s'))
