-- ===== src/Guest/Game/Moves.antt =====
-- The loops of `logic` in Resource/CProgram/main.c: what they come to.
use mathlib.Core.Path.{fun_ext}
use simple_rv.Prelude.{
  ℕ, zero, suc, ◌+◌, ◌-◌, ◌<◌, ◌≡◌, ◌↔◌, inl, inr, refl, sym, ◌∙◌, ap, ap₂, arith, u32, Bool, true,
  false, ◌&&◌, ◌||◌, ◌==◌, ltb, leb, if◌then◌else◌, if_split, Bool-cases,
}
use simple_rv.Guest.Keys.{put_at}
use simple_rv.Guest.Game.{Game, move_body, move, check_self}

-- The first `n` places taken one up.
abbrev shifted : ℕ → (ℕ → ℕ) → ℕ → ℕ
shifted n f i = if leb 1 i && leb i n then f (i - 1) else f i

shifted-suc : (n : ℕ) (f : ℕ → ℕ) → shifted n (put_at f (suc n) (f n)) ≡ shifted (suc n) f
shifted-suc n f = fun_ext λ i. place i
  where
    place : (i : ℕ) → shifted n (put_at f (suc n) (f n)) i ≡ shifted (suc n) f i
    place i = ground arith

shifted-zero : (f : ℕ → ℕ) → f ≡ shifted 0 f
shifted-zero f =
    fun_ext
      λ i. if_split (λ x. f i ≡ x) (leb 1 i && leb i 0) (λ both. absurd (ground arith)) (λ _. refl)

move_body-lem :
    (n : ℕ) (g : Game)
    → move_body n g ≡ record g { snake_x = shifted n g.snake_x; snake_y = shifted n g.snake_y }
unfolding move_body
move_body-lem zero g =
    ap₂ (λ xs ys. record g { snake_x = xs; snake_y = ys }) (shifted-zero g.snake_x)
      (shifted-zero g.snake_y)
move_body-lem (suc n) g =
    move_body-lem n (record g {
      snake_x = put_at g.snake_x (suc n) (g.snake_x n);
      snake_y = put_at g.snake_y (suc n) (g.snake_y n);
    })
    ∙ ap₂ (λ xs ys. record g { snake_x = xs; snake_y = ys }) (shifted-suc n g.snake_x)
        (shifted-suc n g.snake_y)

-- The snake after a move by `d` along one axis: the segments follow the head.
abbrev pub followed : ℕ → ℕ → (ℕ → ℕ) → ℕ → ℕ
followed len d f i = if i == 0 then u32 (f 0 + d) else if ltb i len then f (i - 1) else f i

pub move-lem :
    (g : Game)
    → 0 < g.snake_len
    → move g ≡ record g {
      snake_x = followed g.snake_len g.dir_x g.snake_x;
      snake_y = followed g.snake_len g.dir_y g.snake_y;
    }
unfolding move
move-lem g h =
    ap {A = Game} {B = Game}
      (λ g'. record g' {
        snake_x = put_at g'.snake_x 0 (u32 (g'.snake_x 0 + g'.dir_x));
        snake_y = put_at g'.snake_y 0 (u32 (g'.snake_y 0 + g'.dir_y));
      })
      (move_body-lem (g.snake_len - 1) g)
    ∙ ap₂ (λ xs ys. record g { snake_x = xs; snake_y = ys })
        (fun_ext (head_moved g.snake_x g.dir_x)) (fun_ext (head_moved g.snake_y g.dir_y))
  where
    head_moved :
        (f : ℕ → ℕ) (d i : ℕ)
        → put_at (shifted (g.snake_len - 1) f) 0 (u32 (shifted (g.snake_len - 1) f 0 + d)) i
          ≡ followed g.snake_len d f i
    head_moved f d i = ground arith

-- The head is on one of the `left` segments from `i` on.
abbrev pub Bites : ℕ → ℕ → Game → Type 0
Bites left i g =
    (j : ℕ) × (j < left) × (g.snake_x 0 ≡ g.snake_x (i + j)) × (g.snake_y 0 ≡ g.snake_y (i + j))

unfoldable pub bites : ℕ → ℕ → Game → Bool
bites zero i g = false
bites (suc left) i g =
    (g.snake_x 0 == g.snake_x i && g.snake_y 0 == g.snake_y i) || bites left (i + 1) g

abbrev over_if : Game → Bool → Game
over_if g b = record g { game_over = g.game_over || b }

-- The loop on the segments ends the game when the head is on one, and changes nothing else.
pub check_self-lem :
    (left i : ℕ) (g : Game)
    → check_self left i g ≡ record g { game_over = g.game_over || bites left i g }
unfolding check_self bites
check_self-lem zero i g = ap (λ b. record g { game_over = b }) (sym (or-false g.game_over))
  where
    or-false : (b : Bool) → (b || false) ≡ b
    or-false true = refl
    or-false false = refl
check_self-lem (suc left) i g =
    let here = g.snake_x 0 == g.snake_x i && g.snake_y 0 == g.snake_y i in
    if_split (λ h. check_self left (i + 1) h ≡ over_if g (here || bites left (i + 1) g)) here
      (λ hit.
        check_self-lem left (i + 1) (record g { game_over = true })
        ∙ ap (λ b. record g { game_over = b })
            (ended (bites left (i + 1) (record g { game_over = true })) g.game_over here
              (bites left (i + 1) g) hit))
      (λ miss.
        check_self-lem left (i + 1) g ∙ ap (λ h. over_if g (h || bites left (i + 1) g)) (sym miss))
  where
    ended : (x b h y : Bool) → h ≡ true → (true || x) ≡ (b || (h || y))
    ended x b h y e = ground arith

-- The segments alone matter.
pub bites-over_if :
    (left i : ℕ) (g : Game) (b : Bool) → bites left i (record g { game_over = b }) ≡ bites left i g
unfolding bites
bites-over_if zero i g b = refl
bites-over_if (suc left) i g b =
    ap (λ r. (g.snake_x 0 == g.snake_x i && g.snake_y 0 == g.snake_y i) || r)
      (bites-over_if left (i + 1) g b)

bites-Bites : (left i : ℕ) (g : Game) → bites left i g ≡ true → Bites left i g
unfolding bites
bites-Bites zero i g h = absurd (cc)
bites-Bites (suc left) i g h =
    let here = g.snake_x 0 == g.snake_x i && g.snake_y 0 == g.snake_y i in
    elim (Bool-cases here) [
      | inl hit ↦
          let at : i + 0 ≡ i = omega arith in
          (0, omega arith, rw at (ground arith), rw at (ground arith))
      | inr miss ↦
          let (j, lt, x, y) =
            bites-Bites left (i + 1) g (sym (ap (λ b. b || bites left (i + 1) g) miss) ∙ h) in
          let at : i + 1 + j ≡ i + suc j = omega arith in
          (suc j, omega arith, x ∙ ap g.snake_x at, y ∙ ap g.snake_y at)
    ]

Bites-bites : (left i : ℕ) (g : Game) → Bites left i g → bites left i g ≡ true
unfolding bites
Bites-bites zero i g (j, lt, x, y) = absurd (omega arith)
Bites-bites (suc left) i g (zero, lt, x, y) =
    let at : i + 0 ≡ i = omega arith in
    let ex : g.snake_x 0 ≡ g.snake_x i = x ∙ ap g.snake_x at in
    let ey : g.snake_y 0 ≡ g.snake_y i = y ∙ ap g.snake_y at in ground arith
Bites-bites (suc left) i g (suc j, lt, x, y) =
    let at : i + suc j ≡ i + 1 + j = omega arith in
    let rest : bites left (i + 1) g ≡ true =
      Bites-bites left (i + 1) g (j, omega arith, x ∙ ap g.snake_x at, y ∙ ap g.snake_y at) in
    rw rest (or-true (g.snake_x 0 == g.snake_x i && g.snake_y 0 == g.snake_y i))
  where
    or-true : (b : Bool) → (b || true) ≡ true
    or-true true = refl
    or-true false = refl

pub bites_iff : (left i : ℕ) (g : Game) → (bites left i g ≡ true) ↔ Bites left i g
bites_iff left i g = (bites-Bites left i g, Bites-bites left i g)
