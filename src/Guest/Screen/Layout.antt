-- ===== src/Guest/Screen/Layout.antt =====
-- Where `draw` of Resource/CProgram/main.c puts the places of the field, and what it shows there.
use native.Mathlib.Nat.{eq-or-lt_of_le}
use simple_rv.Prelude.{
  ℕ, zero, suc, ◌+◌, ◌*◌, ◌<◌, ◌≤◌, ◌≡◌, ◌≢◌, refl, sym, ◌∙◌, ap, ap₂, subst, arith, false, ◌&&◌,
  ◌==◌, if_split, inl, inr, Option, none, some, List, [], ◌∷◌, ◌++◌, map, length, get_or,
}
use simple_rv.Guest.Game.{Game, width, height}
use simple_rv.Guest.Screen.{
  segment_at, segment_char, cell_char, draw_cell, draw_cells, draw_rows, border, clear_screen,
  title, score_line, draw,
}

length-append : (xs ys : List ℕ) → length (xs ++ ys) ≡ length xs + length ys
length-append [] ys = omega arith
length-append (x ∷ xs) ys = omega (arith, length-append xs ys)

behind : (xs ys : List ℕ) (i : ℕ) → get_or (xs ++ ys) (length xs + i) 0 ≡ get_or ys i 0
behind [] ys i = let e : 0 + i ≡ i = omega arith in ap (λ k. get_or ys k 0) e
behind (x ∷ xs) ys i =
    let e : suc (length xs) + i ≡ suc (length xs + i) = omega arith in
    ap (λ k. get_or (x ∷ xs ++ ys) k 0) e ∙ behind xs ys i

within : (xs ys : List ℕ) (i : ℕ) → i < length xs → get_or (xs ++ ys) i 0 ≡ get_or xs i 0
within [] ys i h = absurd (omega arith)
within (x ∷ xs) ys zero h = refl
within (x ∷ xs) ys (suc i) h = within xs ys i (omega arith)

-- The numbers `x`, `x + 1`, … of which there are `n`.
unfoldable pub count_from : ℕ → ℕ → List ℕ
count_from x zero = []
count_from x (suc n) = x ∷ count_from (x + 1) n

get_or-count_from :
    (f : ℕ → ℕ) (x n i : ℕ) → i < n → get_or (map f (count_from x n)) i 0 ≡ f (x + i)
unfolding count_from
get_or-count_from f x zero i h = absurd (omega arith)
get_or-count_from f x (suc n) zero h = let e : x ≡ x + 0 = omega arith in ap f e
get_or-count_from f x (suc n) (suc i) h =
    let e : x + 1 + i ≡ x + suc i = omega arith in
    get_or-count_from f (x + 1) n i (omega arith) ∙ ap f e

-- A row between its walls.
abbrev row : ℕ → Game → List ℕ
row y g = 35 ∷ map (λ x. cell_char x y g) (count_from 0 width) ++ 35 ∷ 10 ∷ []

draw_rows-row :
    (left y : ℕ) (g : Game) → draw_rows (suc left) y g ≡ row y g ++ draw_rows left (y + 1) g
unfolding draw_rows draw_cells draw_cell count_from
draw_rows-row left y g = refl

length-draw_rows : (left y : ℕ) (g : Game) → length (draw_rows left y g) ≡ 23 * left
unfolding draw_rows count_from
length-draw_rows zero y g = refl
length-draw_rows (suc left) y g =
    ap length (draw_rows-row left y g)
    ∙ length-append (row y g) (draw_rows left (y + 1) g)
    ∙ omega (arith, length-draw_rows left (y + 1) g)

-- Place `x` of row `y + r` of the rows from `y` on.
get_or-draw_rows :
    (left y r x : ℕ) (g : Game)
    → r < left
    → x < width
    → get_or (draw_rows left y g) (23 * r + suc x) 0 ≡ cell_char x (y + r) g
unfolding count_from
get_or-draw_rows zero y r x g h k = absurd (omega arith)
get_or-draw_rows (suc left) y zero x g h k =
    let places = map (λ x. cell_char x y g) (count_from 0 width) in
    let at : 23 * 0 + suc x ≡ suc x = omega arith in
    let same : y ≡ y + 0 = omega arith in
    let first : 0 + x ≡ x = omega arith in
    ap₂ (λ xs i. get_or xs i 0) (draw_rows-row left y g) at
    ∙ within (row y g) (draw_rows left (y + 1) g) (suc x) (omega arith)
    ∙ within places (35 ∷ 10 ∷ []) x (omega arith)
    ∙ get_or-count_from (λ x. cell_char x y g) 0 width x k
    ∙ ap₂ (λ a b. cell_char a b g) first same
get_or-draw_rows (suc left) y (suc r) x g h k =
    let at : 23 * suc r + suc x ≡ 23 + (23 * r + suc x) = omega arith in
    let same : y + 1 + r ≡ y + suc r = omega arith in
    ap₂ (λ xs i. get_or xs i 0) (draw_rows-row left y g) at
    ∙ behind (row y g) (draw_rows left (y + 1) g) (23 * r + suc x)
    ∙ get_or-draw_rows left (y + 1) r x g (omega arith) k
    ∙ ap (λ b. cell_char x b g) same

-- No `P` is at both numbers.
abbrev NotAt : ℕ → ℕ → ℕ → ℕ → Type 0
NotAt x y x' y' = x ≡ x' → y ≢ y'

-- What is at a place of the field: the apple, else the head, else another segment, else nothing.
pub data Shows (g : Game) (x y : ℕ) : ℕ → Type 0 where
  apple_shown : x ≡ g.apple_x → y ≡ g.apple_y → Shows g x y 64
  head_shown :
      NotAt x y g.apple_x g.apple_y
      → x ≡ g.snake_x 0
      → y ≡ g.snake_y 0
      → 0 < g.snake_len
      → Shows g x y 79
  body_shown :
      NotAt x y g.apple_x g.apple_y
      → NotAt x y (g.snake_x 0) (g.snake_y 0)
      → (k : ℕ) → k < g.snake_len
      → x ≡ g.snake_x k
      → y ≡ g.snake_y k
      → Shows g x y 111
  nothing_shown :
      NotAt x y g.apple_x g.apple_y
      → ((k : ℕ) → k < g.snake_len → NotAt x y (g.snake_x k) (g.snake_y k))
      → Shows g x y 32

-- The first segment from `k` on that is there, if one is.
data Finds (g : Game) (x y k left : ℕ) : Option ℕ → Type 0 where
  found :
      (j : ℕ)
      → j < k + left
      → x ≡ g.snake_x j
      → y ≡ g.snake_y j
      → ((i : ℕ) → k ≤ i → i < j → NotAt x y (g.snake_x i) (g.snake_y i))
      → Finds g x y k left (some j)
  missing :
      ((j : ℕ) → k ≤ j → j < k + left → NotAt x y (g.snake_x j) (g.snake_y j))
      → Finds g x y k left none

segment_at-Finds : (left k x y : ℕ) (g : Game) → Finds g x y k left (segment_at left k x y g)
unfolding segment_at
segment_at-Finds zero k x y g = missing (λ j h l. absurd (omega arith))
segment_at-Finds (suc left) k x y g =
    if_split (Finds g x y k (suc left)) (g.snake_x k == x && g.snake_y k == y)
      (λ here. found k (omega arith) (ground arith) (ground arith) (λ i h l. absurd (omega arith)))
      (λ elsewhere.
        farther elsewhere (segment_at left (k + 1) x y g) (segment_at-Finds left (k + 1) x y g))
  where
    first_or_later :
        (g.snake_x k == x && g.snake_y k == y) ≡ false
        → (i : ℕ) → k ≤ i
        → (k + 1 ≤ i → NotAt x y (g.snake_x i) (g.snake_y i))
        → NotAt x y (g.snake_x i) (g.snake_y i)
    first_or_later elsewhere i le h ex ey = elim (eq-or-lt_of_le le) [
      | inl e ↦
          let ex' : x ≡ g.snake_x k = ex ∙ ap g.snake_x (sym e) in
          let ey' : y ≡ g.snake_y k = ey ∙ ap g.snake_y (sym e) in ground arith
      | inr lt ↦ h (omega arith) ex ey
    ]

    farther :
        (g.snake_x k == x && g.snake_y k == y) ≡ false
        → (r : Option ℕ) → Finds g x y (k + 1) left r
        → Finds g x y k (suc left) r
    farther elsewhere (some first) (found j lt ex ey h) =
        found j (omega arith) ex ey (λ i le l. first_or_later elsewhere i le (λ more. h i more l))
    farther elsewhere none (missing h) =
        missing (λ j le l. first_or_later elsewhere j le (λ more. h j more (omega arith)))

cell_char-Shows : (x y : ℕ) (g : Game) → Shows g x y (cell_char x y g)
unfolding cell_char segment_char
cell_char-Shows x y g =
    if_split (Shows g x y) (x == g.apple_x && y == g.apple_y)
      (λ here. apple_shown (ground arith) (ground arith))
      (λ elsewhere.
        segment (λ ex ey. ground arith) (segment_at g.snake_len 0 x y g)
          (segment_at-Finds g.snake_len 0 x y g))
  where
    segment :
        NotAt x y g.apple_x g.apple_y
        → (r : Option ℕ) → Finds g x y 0 g.snake_len r
        → Shows g x y (segment_char r)
    segment no_apple (some j) (found k lt ex ey h) =
        if_split (Shows g x y) (k == 0)
          (λ z.
            let first : k ≡ 0 = ground arith in
            head_shown no_apple (ex ∙ ap g.snake_x first) (ey ∙ ap g.snake_y first) (omega arith))
          (λ other. body_shown no_apple (h 0 (omega arith) (ground arith)) k (omega arith) ex ey)
    segment no_apple none (missing h) =
        nothing_shown no_apple (λ k lt. h k (omega arith) (omega arith))

-- On the screen that `draw` gives, the character at row `y` and column `x` of the field, behind 52
-- characters and the rows with their walls, shows what is at that place: `@` for the apple, else `O`
-- for the head, else `o` for another segment, else a space.
pub draw-Shows :
    (x y : ℕ) (g : Game)
    → x < width
    → y < height
    → Shows g x y (get_or (draw g) (52 + (23 * y + suc x)) 0)
unfolding draw
draw-Shows x y g h k =
    let front = clear_screen ++ title ++ border in
    let rows = draw_rows height 0 g in
    let back = border ++ score_line g in
    let inside : 23 * y + suc x < length rows = omega (arith, length-draw_rows height 0 g) in
    let same : 0 + y ≡ y = omega arith in
    subst (Shows g x y)
      (sym (
        behind front (rows ++ back) (23 * y + suc x)
        ∙ within rows back (23 * y + suc x) inside
        ∙ get_or-draw_rows height 0 y x g k h
        ∙ ap (λ b. cell_char x b g) same))
      (cell_char-Shows x y g)
