-- ===== src/Guest/Game/Bounds.antt =====
-- The accesses of `logic` in Resource/CProgram/main.c to the arrays of the snake, which have 100
-- elements: what is behind them is neither read nor written.
use simple_rv.Prelude.{
  ℕ, zero, suc, ◌+◌, ◌-◌, ◌≤◌, ◌<◌, ◌≡◌, refl, sym, ◌∙◌, ap, ap₂, subst, if◌then◌else◌, arith, Bool,
  true, false, ◌&&◌, ◌||◌, ◌==◌, if_split, List,
}
use simple_rv.Guest.Keys.{pop_key}
use simple_rv.Guest.Game.{Game, place_apple, capture, steer, take_key, hits_wall, eat, logic}
use simple_rv.Guest.Game.Moves.{followed, bites}
use simple_rv.Guest.Game.Frame.{steered, advanced, settled, logic-settled}
use simple_rv.Guest.Game.Rules.{IsGame, steered-IsGame}

-- Equal in the 100 elements that an array has.
abbrev pub SameElements : (ℕ → ℕ) → (ℕ → ℕ) → Type 0
SameElements f g = (i : ℕ) → i < 100 → f i ≡ g i

-- The game with other contents of the arrays.
abbrev pub with_arrays : (ℕ → ℕ) → (ℕ → ℕ) → Game → Game
with_arrays xs ys g = record g { snake_x = xs; snake_y = ys }

-- Two games are equal but for what is behind their arrays.
pub record SameGame (g h : Game) : Type 0 where
  pub same : with_arrays h.snake_x h.snake_y g ≡ h
  pub same_x : SameElements g.snake_x h.snake_x
  pub same_y : SameElements g.snake_y h.snake_y

-- A relation between two tests of the same condition.
if_same {ℓ} :
    {A : Type ℓ} (R : A → A → Type ℓ) (b : Bool) {x x' y y' : A}
    → R x x'
    → R y y'
    → R (if b then x else y) (if b then x' else y')
if_same R true p q = p
if_same R false p q = q

module _ (xs ys : ℕ → ℕ) where
  -- The second game is the first one with the other arrays.
  Swapped : Game → Game → Type 0
  Swapped g h = with_arrays xs ys g ≡ h

  steer-Swapped : (key : ℕ) (g : Game) → Swapped (steer key g) (steer key (with_arrays xs ys g))
  unfolding Swapped steer
  steer-Swapped key g = if_same Swapped (key == 119 && g.dir_y == 0) refl (
      if_same Swapped (key == 115 && g.dir_y == 0) refl (
        if_same Swapped (key == 97 && g.dir_x == 0) refl (
          if_same Swapped (key == 100 && g.dir_x == 0) refl
            (if_same Swapped (key == 113) refl refl))))

  steered-Swapped :
      (typed : List ℕ) (g : Game) → Swapped (steered typed g) (steered typed (with_arrays xs ys g))
  unfolding Swapped take_key
  steered-Swapped typed g =
      let popped = pop_key (capture typed g.queue) in
      if_same Swapped (popped.0 == 0) refl (steer-Swapped popped.0 _)

-- The keys leave the arrays alone.
HasArrays : (ℕ → ℕ) → (ℕ → ℕ) → Game → Type 0
HasArrays xs ys g = (g.snake_x ≡ xs) × (g.snake_y ≡ ys)

steered-HasArrays : (typed : List ℕ) (g : Game) → HasArrays g.snake_x g.snake_y (steered typed g)
unfolding HasArrays Swapped
steered-HasArrays typed g =
    let swapped = steered-Swapped g.snake_x g.snake_y typed g in
    (sym (ap (λ h. h.snake_x) swapped), sym (ap (λ h. h.snake_y) swapped))

followed-same :
    (len d : ℕ) (f g : ℕ → ℕ)
    → len ≤ 100
    → SameElements f g
    → SameElements (followed len d f) (followed len d g)
followed-same len d f g h s i l = ground (arith, s 0 (omega arith), s i l, s (i - 1) (omega arith))

followed-beyond : (len d : ℕ) (f : ℕ → ℕ) (i : ℕ) → len ≤ 100 → 100 ≤ i → followed len d f i ≡ f i
followed-beyond len d f i h l = ground arith

bites-same :
    (left i : ℕ) (g h : Game)
    → i + left ≤ 100
    → SameElements g.snake_x h.snake_x
    → SameElements g.snake_y h.snake_y
    → bites left i g ≡ bites left i h
unfolding bites
bites-same zero i g h l sx sy = refl
bites-same (suc left) i g h l sx sy =
    let rest = bites-same left (i + 1) g h (omega arith) sx sy in
    rw (sx 0 (omega arith), sy 0 (omega arith), sx i (omega arith), sy i (omega arith), rest) refl

hits_wall-same :
    (g h : Game) → g.snake_x 0 ≡ h.snake_x 0 → g.snake_y 0 ≡ h.snake_y 0 → hits_wall g ≡ hits_wall h
unfolding hits_wall
hits_wall-same g h ex ey = rw (ex, ey) refl

settled-same :
    (g : Game) (xs ys : ℕ → ℕ)
    → 0 < g.snake_len
    → g.snake_len ≤ 100
    → SameElements g.snake_x xs
    → SameElements g.snake_y ys
    → SameGame (settled g) (settled (with_arrays xs ys g))
settled-same g xs ys p l sx sy =
    let h = with_arrays xs ys g in
    let mx = followed-same g.snake_len g.dir_x g.snake_x xs l sx in
    let my = followed-same g.snake_len g.dir_y g.snake_y ys l sy in
    let wall = hits_wall-same (advanced g) (advanced h) (mx 0 (omega arith)) (my 0 (omega arith)) in
    let bitten = bites-same (g.snake_len - 1) 1 (advanced g) (advanced h) (omega arith) mx my in
    record {
      same = ap₂ (λ a b. record (advanced h) { game_over = g.game_over || (a || b) }) wall bitten;
      same_x = mx;
      same_y = my;
    }

eat-same :
    (g : Game) (xs ys : ℕ → ℕ)
    → SameElements g.snake_x xs
    → SameElements g.snake_y ys
    → SameGame (eat g) (eat (with_arrays xs ys g))
unfolding eat place_apple
eat-same g xs ys sx sy =
    rw (← sx 0 (omega arith), ← sy 0 (omega arith))
      (if_same SameGame (g.snake_x 0 == g.apple_x && g.snake_y 0 == g.apple_y)
        (record { same = refl; same_x = sx; same_y = sy })
        (record { same = refl; same_x = sx; same_y = sy }))

eat-HasArrays : (g : Game) → HasArrays g.snake_x g.snake_y (eat g)
unfolding eat place_apple HasArrays
eat-HasArrays g =
    if_split (HasArrays g.snake_x g.snake_y) (g.snake_x 0 == g.apple_x && g.snake_y 0 == g.apple_y)
      (λ _. (refl, refl)) (λ _. (refl, refl))

-- Keys, move and apple, on a game with other contents behind its arrays.
frame-same :
    (t : Game) (xs ys : ℕ → ℕ)
    → 0 < t.snake_len
    → t.snake_len ≤ 100
    → SameElements t.snake_x xs
    → SameElements t.snake_y ys
    → SameGame (eat (settled t)) (eat (settled (with_arrays xs ys t)))
frame-same t xs ys p l sx sy =
    let s = settled-same t xs ys p l sx sy in
    subst (λ h. SameGame (eat (settled t)) (eat h)) s.same
      (eat-same (settled t) (settled (with_arrays xs ys t)).snake_x
        (settled (with_arrays xs ys t)).snake_y s.same_x s.same_y)

-- Behind the 100 elements the arrays stay as they are.
abbrev pub KeepsBeyond : (ℕ → ℕ) → (ℕ → ℕ) → Game → Type 0
KeepsBeyond xs ys g = (i : ℕ) → 100 ≤ i → (g.snake_x i ≡ xs i) × (g.snake_y i ≡ ys i)

frame-KeepsBeyond :
    (t : Game) (xs ys : ℕ → ℕ)
    → t.snake_len ≤ 100
    → KeepsBeyond xs ys (eat (settled (with_arrays xs ys t)))
unfolding HasArrays
frame-KeepsBeyond t xs ys l i beyond =
    let eaten = eat-HasArrays (settled (with_arrays xs ys t)) in
    (
      ap (λ f. f i) eaten.0 ∙ followed-beyond t.snake_len t.dir_x xs i l beyond,
      ap (λ f. f i) eaten.1 ∙ followed-beyond t.snake_len t.dir_y ys i l beyond,
    )

-- In a game that is in order a frame stays within the 100 elements of the arrays of the snake:
-- whatever stands behind them has no influence on anything that the frame leaves in them or in the
-- other variables, and is left as it is.
pub logic-SameGame :
    (typed : List ℕ) (g : Game) (xs ys : ℕ → ℕ)
    → IsGame g
    → SameElements g.snake_x xs
    → SameElements g.snake_y ys
    → SameGame (logic typed g) (logic typed (with_arrays xs ys g))
      × KeepsBeyond xs ys (logic typed (with_arrays xs ys g))
unfolding HasArrays Swapped
logic-SameGame typed g xs ys r sx sy =
    let t = steered typed g in
    let k = steered-IsGame typed g r in
    let arrays = steered-HasArrays typed g in
    let swapped = steered-Swapped xs ys typed g in
    let p : 0 < t.snake_len = omega (arith, k.long) in
    let first = logic-settled typed g p in
    let second : logic typed (with_arrays xs ys g) ≡ eat (settled (with_arrays xs ys t)) =
      logic-settled typed (with_arrays xs ys g) (subst (λ h. 0 < h.snake_len) swapped p)
      ∙ ap (λ h. eat (settled h)) (sym swapped) in
    let tx = subst (λ f. SameElements f xs) (sym arrays.0) sx in
    let ty = subst (λ f. SameElements f ys) (sym arrays.1) sy in
    (
      subst (λ a. SameGame a (logic typed (with_arrays xs ys g))) (sym first)
          (subst (SameGame (eat (settled t))) (sym second) (frame-same t xs ys p k.fits tx ty)),
      subst (KeepsBeyond xs ys) (sym second) (frame-KeepsBeyond t xs ys k.fits),
    )
