-- ===== src/Guest/Game/Frame.antt =====
-- A frame of `logic` in Resource/CProgram/main.c, taken apart: the keys, the move with what it runs
-- into, and the apple.
use simple_rv.Prelude.{
  ℕ, ◌-◌, ◌<◌, ◌≡◌, refl, sym, ◌∙◌, ap, Bool, true, false, ◌||◌, if_split, List,
}
use simple_rv.Guest.Game.{
  Game, capture, take_key, move, hits_wall, check_wall, check_self, eat, logic,
}
use simple_rv.Guest.Game.Moves.{followed, move-lem, bites, check_self-lem, bites-over_if}

-- The keyboard's part of a frame.
abbrev pub steered : List ℕ → Game → Game
steered typed g = take_key (record g { queue = capture typed g.queue })

pub check_wall-lem : (g : Game) → check_wall g ≡ record g { game_over = g.game_over || hits_wall g }
unfolding check_wall
check_wall-lem g =
    if_split (λ r. r ≡ record g { game_over = g.game_over || hits_wall g }) (hits_wall g)
      (λ hit.
        ap (λ b. record g { game_over = b })
          (sym (ap (λ w. g.game_over || w) hit ∙ or-true g.game_over)))
      (λ miss.
        ap (λ b. record g { game_over = b })
          (sym (ap (λ w. g.game_over || w) miss ∙ or-false g.game_over)))
  where
    or-true : (b : Bool) → (b || true) ≡ true
    or-true true = refl
    or-true false = refl

    or-false : (b : Bool) → (b || false) ≡ b
    or-false true = refl
    or-false false = refl

-- The snake has moved, whatever it ran into.
abbrev pub advanced : Game → Game
advanced g = record g {
  snake_x = followed g.snake_len g.dir_x g.snake_x;
  snake_y = followed g.snake_len g.dir_y g.snake_y;
}

-- It has run into the wall or into itself.
abbrev pub crashes : Game → Bool
crashes g = hits_wall g || bites (g.snake_len - 1) 1 g

abbrev pub settled : Game → Game
settled g = record (advanced g) { game_over = g.game_over || crashes (advanced g) }

-- A frame is the keys, the move and the apple, in this order.
pub logic-settled :
    (typed : List ℕ) (g : Game)
    → 0 < (steered typed g).snake_len
    → logic typed g ≡ eat (settled (steered typed g))
unfolding logic
logic-settled typed g h =
    let t = steered typed g in
    let m = advanced t in
    let wall = record m { game_over = t.game_over || hits_wall m } in
    let walked : check_wall (move t) ≡ wall = ap check_wall (move-lem t h) ∙ check_wall-lem m in
    ap (λ c. eat (check_self (c.snake_len - 1) 1 c)) walked
    ∙ ap eat (
        check_self-lem (t.snake_len - 1) 1 wall
        ∙ ap (λ b. record m { game_over = b })
            (ap (λ b. (t.game_over || hits_wall m) || b)
                (bites-over_if (t.snake_len - 1) 1 m (t.game_over || hits_wall m))
              ∙ or_assoc t.game_over (hits_wall m) (bites (t.snake_len - 1) 1 m)))
  where
    or_assoc : (a b c : Bool) → ((a || b) || c) ≡ (a || (b || c))
    or_assoc true b c = refl
    or_assoc false b c = refl
