-- ===== src/Guest/Game/Plays.antt =====
-- What the player sees of a frame of `logic` in Resource/CProgram/main.c.
use simple_rv.Prelude.{
  ℕ, suc, ◌+◌, ◌-◌, ◌<◌, ◌≡◌, ◌≢◌, ◌↔◌, inl, inr, refl, sym, ◌∙◌, ap, ap₂, subst, arith, u32, Bool,
  false, ◌&&◌, ◌||◌, ◌==◌, min, if◌then◌else◌, if_split, Bool-cases, List,
}
use simple_rv.Guest.Game.{Game, width, height, max_len, place_apple, hits_wall, eat, logic}
use simple_rv.Guest.Game.Moves.{followed, bites, bites_iff}
use simple_rv.Guest.Game.Frame.{steered, advanced, crashes, settled, logic-settled}
use simple_rv.Guest.Game.Turns.{opposite, Turns, steered-Turns}
use simple_rv.Guest.Game.Rules.{Direction, Heads, IsGame, steered-IsGame}

-- The head is on the apple `a` of `g`.
abbrev pub on_apple : Game → Game → Bool
on_apple a g = g.snake_x 0 == a.apple_x && g.snake_y 0 == a.apple_y

-- The head is in the field and on no other segment.
abbrev pub Safe : ℕ → (ℕ → ℕ) → (ℕ → ℕ) → Type 0
Safe len xs ys =
    (xs 0 < width)
    × (ys 0 < height)
    × ((i : ℕ) → suc i < len → xs 0 ≡ xs (suc i) → ys 0 ≢ ys (suc i))

abbrev pub IsSafe : ℕ → Game → Type 0
IsSafe len g = Safe len g.snake_x g.snake_y

-- A frame from `g` to `g'`, where the key that is taken from the queue leads to `t`: the snake goes
-- on or turns to one side, its head takes a step and the other segments follow, it grows by the
-- apple that it eats as far as there is room, and the game goes on exactly if it went on until here
-- and the head is in the field and on no other segment.
pub record Plays (g t g' : Game) : Type 0 where
  pub turn : (d : Direction) × (d' : Direction) × Heads g d × Heads g' d' × (d' ≢ opposite d)
  pub head_x : g'.snake_x 0 ≡ u32 (g.snake_x 0 + g'.dir_x)
  pub head_y : g'.snake_y 0 ≡ u32 (g.snake_y 0 + g'.dir_y)
  pub body :
      (i : ℕ)
      → suc i < g.snake_len
      → (g'.snake_x (suc i) ≡ g.snake_x i) × (g'.snake_y (suc i) ≡ g.snake_y i)
  pub length : g'.snake_len ≡ (if on_apple g g' then min (g.snake_len + 1) max_len else g.snake_len)
  pub score : g'.score ≡ (if on_apple g g' then u32 (g.score + 1) else g.score)
  pub apple : on_apple g g' ≡ false → (g'.apple_x ≡ g.apple_x) × (g'.apple_y ≡ g.apple_y)
  pub goes_on : (g'.game_over ≡ false) ↔ ((t.game_over ≡ false) × IsSafe g.snake_len g')

neither : (a b : Bool) → (a || b) ≡ false → (a ≡ false) × (b ≡ false)
neither a b h = ground arith

crashes-IsSafe : (m : Game) → 0 < m.snake_len → (crashes m ≡ false) ↔ IsSafe m.snake_len m
unfolding hits_wall
crashes-IsSafe m long = (
  λ h.
      let (wall, self) = neither (hits_wall m) (bites (m.snake_len - 1) 1 m) h in
      (
        ground arith,
        ground arith,
        λ i lt x y. absurd (
            let at : suc i ≡ 1 + i = omega arith in
            let bitten =
              (bites_iff (m.snake_len - 1) 1 m).1
                (i, omega arith, x ∙ ap m.snake_x at, y ∙ ap m.snake_y at) in
            cc),
      ),
  λ h. let wall : hits_wall m ≡ false = ground (arith, h.0, h.1) in rw wall (unbitten h.2),
)
  where
    unbitten :
        ((i : ℕ)
          → suc i < m.snake_len
          → m.snake_x 0 ≡ m.snake_x (suc i)
          → m.snake_y 0 ≢ m.snake_y (suc i))
        → bites (m.snake_len - 1) 1 m ≡ false
    unbitten self = elim (Bool-cases (bites (m.snake_len - 1) 1 m)) [
      | inr miss ↦ miss
      | inl hit ↦
          let (j, lt, x, y) = (bites_iff (m.snake_len - 1) 1 m).0 hit in
          let at : 1 + j ≡ suc j = omega arith in
          absurd (self j (omega arith) (x ∙ ap m.snake_x at) (y ∙ ap m.snake_y at))
    ]

same-Safe :
    (l l' : ℕ) (xs xs' ys ys' : ℕ → ℕ)
    → l' ≡ l
    → xs' ≡ xs
    → ys' ≡ ys
    → Safe l xs ys
    → Safe l' xs' ys'
same-Safe l l' xs xs' ys ys' e x y h =
    subst (λ k. Safe k xs' ys') (sym e)
      (subst (λ f. Safe l f ys') (sym x) (subst (λ f. Safe l xs f) (sym y) h))

-- A frame whose move is that of `t`, with what becomes of the apple.
module _ (g t g' : Game) (turns : Turns g t) (game : IsGame t)
    (heading : (d : Direction) × Heads g d) where
  frame-Plays :
      g'.snake_x ≡ (advanced t).snake_x
      → g'.snake_y ≡ (advanced t).snake_y
      → (g'.dir_x ≡ t.dir_x) × (g'.dir_y ≡ t.dir_y)
      → g'.game_over ≡ (settled t).game_over
      → g'.snake_len ≡ (if on_apple g g' then min (g.snake_len + 1) max_len else g.snake_len)
      → g'.score ≡ (if on_apple g g' then u32 (g.score + 1) else g.score)
      → (on_apple g g' ≡ false → (g'.apple_x ≡ g.apple_x) × (g'.apple_y ≡ g.apple_y))
      → Plays g t g'
  frame-Plays x y dir over length score apple = record {
    turn =
        let (d', h, ne) = turns.turned heading.0 heading.1 in
        (heading.0, d', heading.1, (dir.0 ∙ h.0, dir.1 ∙ h.1), ne);
    head_x = ap (λ f. f 0) x ∙ ap₂ (λ (f : ℕ → ℕ) v. u32 (f 0 + v)) turns.same_x (sym dir.0);
    head_y = ap (λ f. f 0) y ∙ ap₂ (λ (f : ℕ → ℕ) v. u32 (f 0 + v)) turns.same_y (sym dir.1);
    body = λ i lt. (
      ap (λ f. f (suc i)) x ∙ behind i t.snake_x t.dir_x lt ∙ ap (λ f. f i) turns.same_x,
      ap (λ f. f (suc i)) y ∙ behind i t.snake_y t.dir_y lt ∙ ap (λ f. f i) turns.same_y,
    );
    length = length;
    score = score;
    apple = apple;
    goes_on =
        let m = advanced t in
        let safe = crashes-IsSafe m (omega (arith, game.long)) in
        let len = turns.same_len in
        (
          λ h.
              let (on, unhurt) = neither t.game_over (crashes m) (sym over ∙ h) in
              (
                on,
                same-Safe t.snake_len g.snake_len m.snake_x g'.snake_x m.snake_y g'.snake_y
                    (sym len) x y (safe.0 unhurt),
              ),
          λ h.
              let unhurt = safe.1 (
                same-Safe g.snake_len t.snake_len g'.snake_x m.snake_x g'.snake_y m.snake_y len
                  (sym x) (sym y) h.1) in
              over ∙ ap₂ (λ a b. a || b) h.0 unhurt,
        );
  }
    where
      behind :
          (i : ℕ) (f : ℕ → ℕ) (v : ℕ) → suc i < g.snake_len → followed t.snake_len v f (suc i) ≡ f i
      behind i f v lt = ground (arith, turns.same_len)

eat-Plays :
    (g t : Game) → Turns g t → IsGame t → (d : Direction) × Heads g d → Plays g t (eat (settled t))
unfolding eat place_apple
eat-Plays g t turns game heading =
    let r = settled t in
    let same : on_apple t r ≡ on_apple g r =
      ap₂ (λ x y. r.snake_x 0 == x && r.snake_y 0 == y) turns.same_apple_x turns.same_apple_y in
    if_split (Plays g t) (on_apple t r)
      (λ eaten.
        frame-Plays g t _ turns game heading refl refl (refl, refl) refl
          (rw (sym same ∙ eaten) (ground (arith, turns.same_len, game.long, game.fits)))
          (rw (sym same ∙ eaten) (ap (λ n. u32 (n + 1)) turns.same_score)) (λ missed. absurd (cc)))
      (λ missed.
        frame-Plays g t r turns game heading refl refl (refl, refl) refl
          (rw (sym same ∙ missed) turns.same_len) (rw (sym same ∙ missed) turns.same_score)
          (λ _. (turns.same_apple_x, turns.same_apple_y)))

-- A frame of the game, whatever is typed, plays by the rules of `Plays`: no turning round, one step,
-- segments that follow, growth and score by the apple, and the end exactly at a wall, at the snake
-- itself or by a key.
pub logic-Plays : (typed : List ℕ) (g : Game) → IsGame g → Plays g (steered typed g) (logic typed g)
logic-Plays typed g h =
    let t = steered-IsGame typed g h in
    subst (Plays g (steered typed g)) (sym (logic-settled typed g (omega (arith, t.long))))
      (eat-Plays g (steered typed g) (steered-Turns typed g) t h.heading)
