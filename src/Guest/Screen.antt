-- ===== src/Guest/Screen.antt =====
-- `draw` of Resource/CProgram/main.c: the characters that it gives to `print_str`, in their order.
pub mod Layout
use simple_rv.Prelude.{
  ℕ, zero, suc, ◌+◌, ◌-◌, ◌*◌, ◌/◌, ◌%◌, ◌<◌, ◌≤◌, ◌≡◌, ◌≢◌, refl, sym, ◌∙◌, ap, subst, arith, Bool,
  true, false, ◌&&◌, not, ◌==◌, ltb, if◌then◌else◌, if_split, Bool-cases, inl, inr, Option, none,
  some, List, [], ◌∷◌, ◌++◌, length, get_or, replicate,
}
use simple_rv.Guest.Game.{logic, Game, width, height}

-- The loop on the segments from `k` on, with `left` rounds left: the first one at this place.
unfoldable pub segment_at : ℕ → ℕ → ℕ → ℕ → Game → Option ℕ
segment_at zero k x y g = none
segment_at (suc left) k x y g =
    let rest = segment_at left (k + 1) x y g in
    if g.snake_x k == x && g.snake_y k == y then some k else rest

-- A space, the head O or a segment o.
unfoldable pub segment_char : Option ℕ → ℕ
segment_char none = 32
segment_char (some k) = if k == 0 then 79 else 111

-- The character of one place, @ for the apple.
unfoldable pub cell_char : ℕ → ℕ → Game → ℕ
cell_char x y g =
    if x == g.apple_x && y == g.apple_y then 64 else segment_char (segment_at g.snake_len 0 x y g)

-- One round of the loop on `x`, with the walls beside the first and the last place.
unfoldable pub draw_cell : ℕ → ℕ → Game → List ℕ
draw_cell x y g =
    (if x == 0 then 35 ∷ [] else []) ++ cell_char x y g ∷ (if x == width - 1 then 35 ∷ [] else [])

unfoldable pub draw_cells : ℕ → ℕ → ℕ → Game → List ℕ
draw_cells zero x y g = []
draw_cells (suc left) x y g = draw_cell x y g ++ draw_cells left (x + 1) y g

unfoldable pub draw_rows : ℕ → ℕ → Game → List ℕ
draw_rows zero y g = []
draw_rows (suc left) y g = draw_cells width 0 y g ++ 10 ∷ draw_rows left (y + 1) g

-- `for (i = 0; i < WIDTH + 2; i++) print_str("#"); print_str("\n")`.
abbrev pub border : List ℕ
border = replicate (width + 2) 35 ++ 10 ∷ []

-- The escape sequences of `clear_screen`.
abbrev pub clear_screen : List ℕ
clear_screen = 27 ∷ 91 ∷ 72 ∷ 27 ∷ 91 ∷ 50 ∷ 74 ∷ []

-- "== SIMPLE-RV SNAKE ==\n"
abbrev pub title : List ℕ
title =
    61 ∷ 61 ∷ 32 ∷ 83 ∷ 73 ∷ 77 ∷ 80 ∷ 76 ∷ 69 ∷ 45 ∷ 82 ∷ 86 ∷ 32 ∷ 83 ∷ 78 ∷ 65 ∷ 75 ∷ 69 ∷ 32
    ∷ 61 ∷ 61 ∷ 10 ∷ []

-- `score_str`, which ends before a character 0.
abbrev pub score_str : Game → List ℕ
score_str g =
    let tens = (g.score / 10 + 48) % 256 in
    if tens == 0 then [] else tens ∷ (g.score % 10 + 48) % 256 ∷ []

-- "Score: ", the two characters of the score, and the line of instructions.
abbrev pub score_line : Game → List ℕ
score_line g =
    (83 ∷ 99 ∷ 111 ∷ 114 ∷ 101 ∷ 58 ∷ 32 ∷ [])
    ++ score_str g
    ++ 10 ∷ 85 ∷ 115 ∷ 101 ∷ 32 ∷ 87 ∷ 47 ∷ 65 ∷ 47 ∷ 83 ∷ 47 ∷ 68 ∷ 32 ∷ 116 ∷ 111 ∷ 32 ∷ 109 ∷ 111
      ∷ 118 ∷ 101 ∷ 44 ∷ 32 ∷ 81 ∷ 32 ∷ 116 ∷ 111 ∷ 32 ∷ 113 ∷ 117 ∷ 105 ∷ 116 ∷ 46 ∷ 10 ∷ []

unfoldable pub draw : Game → List ℕ
draw g = (clear_screen ++ title ++ border) ++ (draw_rows height 0 g ++ (border ++ score_line g))

-- "\n\n", "   GAME OVER!\n" and "   System Halting...\n" on a cleared screen.
abbrev pub closing : List ℕ
closing =
    clear_screen
    ++ 10 ∷ 10 ∷ 32 ∷ 32 ∷ 32 ∷ 71 ∷ 65 ∷ 77 ∷ 69 ∷ 32 ∷ 79 ∷ 86 ∷ 69 ∷ 82 ∷ 33 ∷ 10 ∷ 32 ∷ 32 ∷ 32
      ∷ 83 ∷ 121 ∷ 115 ∷ 116 ∷ 101 ∷ 109 ∷ 32 ∷ 72 ∷ 97 ∷ 108 ∷ 116 ∷ 105 ∷ 110 ∷ 103 ∷ 46 ∷ 46 ∷ 46
      ∷ 10 ∷ []

-- What `_start` prints while it plays, as far as the frames go.
unfoldable pub screens : List (List ℕ) → Game → List ℕ
screens [] g = if g.game_over then closing else []
screens (typed ∷ rest) g =
    let later = draw g ++ screens rest (logic typed g) in if g.game_over then closing else later
