-- ===== src/Clcg4/Streams.antt =====
-- Each stream is multiplication by a constant modulo a prime, and `b` is its inverse, so `prev` undoes a
-- draw, and a draw undoes `prev`.
use charades.Prelude.{ℕ, zero, suc, ◌+◌, ◌-◌, ◌*◌, ◌%◌, ◌^◌, ◌<◌, ◌≡◌, refl, ap, ◌∙◌, arith}
use charades.Clcg4.{m, b, find_b, find_b_loop, sqrs, square, step, Clcg4, draw, prev, discard}

-- The seeds are below their moduli.
abbrev pub IsSeeded : Clcg4 → Type 0
IsSeeded g =
    (g.cg.s0 < m.s0) × (g.cg.s1 < m.s1) × (g.cg.s2 < m.s2) × (g.cg.s3 < m.s3) × (g.count < 2 ^ 64)

-- `init` finds the inverses of the multipliers.
pub b_values : b ≡ record { s0 = 1441196816; s1 = 1463744518; s2 = 499766181; s3 = 660421676 }
unfolding b find_b find_b_loop sqrs square
b_values = refl

step_0 : (s : ℕ) → s < 2147483647 → step 45991 46693 25884 2147483647 s ≡ (45991 * s) % 2147483647
unfolding step
step_0 s h = ground arith

back_0 : (s : ℕ) → s < 2147483647 → (1441196816 * ((45991 * s) % 2147483647)) % 2147483647 ≡ s
back_0 s h = omega arith

forth_0 : (s : ℕ) → s < 2147483647 → (45991 * ((1441196816 * s) % 2147483647)) % 2147483647 ≡ s
forth_0 s h = omega arith

step_1 : (s : ℕ) → s < 2147483543 → step 207707 10339 870 2147483543 s ≡ (207707 * s) % 2147483543
unfolding step
step_1 s h = ground arith

back_1 : (s : ℕ) → s < 2147483543 → (1463744518 * ((207707 * s) % 2147483543)) % 2147483543 ≡ s
back_1 s h = omega arith

forth_1 : (s : ℕ) → s < 2147483543 → (207707 * ((1463744518 * s) % 2147483543)) % 2147483543 ≡ s
forth_1 s h = omega arith

step_2 : (s : ℕ) → s < 2147483423 → step 138556 15499 3979 2147483423 s ≡ (138556 * s) % 2147483423
unfolding step
step_2 s h = ground arith

back_2 : (s : ℕ) → s < 2147483423 → (499766181 * ((138556 * s) % 2147483423)) % 2147483423 ≡ s
back_2 s h = omega arith

forth_2 : (s : ℕ) → s < 2147483423 → (138556 * ((499766181 * s) % 2147483423)) % 2147483423 ≡ s
forth_2 s h = omega arith

step_3 : (s : ℕ) → s < 2147483323 → step 49689 43218 24121 2147483323 s ≡ (49689 * s) % 2147483323
unfolding step
step_3 s h = ground arith

back_3 : (s : ℕ) → s < 2147483323 → (660421676 * ((49689 * s) % 2147483323)) % 2147483323 ≡ s
back_3 s h = omega arith

forth_3 : (s : ℕ) → s < 2147483323 → (49689 * ((660421676 * s) % 2147483323)) % 2147483323 ≡ s
forth_3 s h = omega arith

-- A draw multiplies each stream by its constant.
abbrev drawn : Clcg4 → Clcg4
drawn g = record {
  cg = record {
    s0 = (45991 * g.cg.s0) % 2147483647;
    s1 = (207707 * g.cg.s1) % 2147483543;
    s2 = (138556 * g.cg.s2) % 2147483423;
    s3 = (49689 * g.cg.s3) % 2147483323;
  };
  count = (g.count + 1) % 2 ^ 64;
}

abbrev undrawn : Clcg4 → Clcg4
undrawn g = record {
  cg = record {
    s0 = (1441196816 * g.cg.s0) % 2147483647;
    s1 = (1463744518 * g.cg.s1) % 2147483543;
    s2 = (499766181 * g.cg.s2) % 2147483423;
    s3 = (660421676 * g.cg.s3) % 2147483323;
  };
  count = (g.count + (2 ^ 64 - 1)) % 2 ^ 64;
}

abbrev state : ℕ → ℕ → ℕ → ℕ → ℕ → Clcg4
state x0 x1 x2 x3 n = record { cg = record { s0 = x0; s1 = x1; s2 = x2; s3 = x3 }; count = n }

state_ext :
    (x0 x1 x2 x3 n y0 y1 y2 y3 k : ℕ)
    → x0 ≡ y0
    → x1 ≡ y1
    → x2 ≡ y2
    → x3 ≡ y3
    → n ≡ k
    → state x0 x1 x2 x3 n ≡ state y0 y1 y2 y3 k
state_ext x0 x1 x2 x3 n y0 y1 y2 y3 k e0 e1 e2 e3 e = cc

draw-drawn : (g : Clcg4) → IsSeeded g → draw g ≡ drawn g
unfolding draw
draw-drawn g (h0, h1, h2, h3, h) =
    state_ext _ _ _ _ _ _ _ _ _ _ (step_0 g.cg.s0 h0) (step_1 g.cg.s1 h1) (step_2 g.cg.s2 h2)
      (step_3 g.cg.s3 h3) refl

prev-undrawn : (g : Clcg4) → prev g ≡ undrawn g
unfolding prev b find_b find_b_loop sqrs square
prev-undrawn g = refl

count_back : (n : ℕ) → n < 2 ^ 64 → ((n + 1) % 2 ^ 64 + (2 ^ 64 - 1)) % 2 ^ 64 ≡ n
count_back n h = omega arith

count_forth : (n : ℕ) → n < 2 ^ 64 → ((n + (2 ^ 64 - 1)) % 2 ^ 64 + 1) % 2 ^ 64 ≡ n
count_forth n h = omega arith

drawn-IsSeeded : (g : Clcg4) → IsSeeded (drawn g)
drawn-IsSeeded g = (omega arith, omega arith, omega arith, omega arith, omega arith)

undrawn-IsSeeded : (g : Clcg4) → IsSeeded (undrawn g)
undrawn-IsSeeded g = (omega arith, omega arith, omega arith, omega arith, omega arith)

-- On seeds below the moduli a draw keeps them there, and prev takes the state of the generator back, its
-- count included.
pub prev-draw : (g : Clcg4) → IsSeeded g → IsSeeded (draw g) × (prev (draw g) ≡ g)
prev-draw g (h0, h1, h2, h3, h) = rw (draw-drawn g (h0, h1, h2, h3, h)) (
  drawn-IsSeeded g,
  prev-undrawn (drawn g)
      ∙ state_ext _ _ _ _ _ _ _ _ _ _ (back_0 g.cg.s0 h0) (back_1 g.cg.s1 h1) (back_2 g.cg.s2 h2)
          (back_3 g.cg.s3 h3) (count_back g.count h),
)

-- On seeds below the moduli prev keeps them there, and a draw takes the state of the generator forth
-- again, its count included.
pub draw-prev : (g : Clcg4) → IsSeeded g → IsSeeded (prev g) × (draw (prev g) ≡ g)
draw-prev g (h0, h1, h2, h3, h) = rw (prev-undrawn g) (
  undrawn-IsSeeded g,
  draw-drawn (undrawn g) (undrawn-IsSeeded g)
      ∙ state_ext _ _ _ _ _ _ _ _ _ _ (forth_0 g.cg.s0 h0) (forth_1 g.cg.s1 h1) (forth_2 g.cg.s2 h2)
          (forth_3 g.cg.s3 h3) (count_forth g.count h),
)

-- `prev`, as often as `n` says.
abbrev pub rewind : Clcg4 → ℕ → Clcg4
rewind g zero = g
rewind g (suc n) = prev (rewind g n)

-- On seeds below the moduli, any number of draws is undone by as many calls of prev.
pub rewind-discard : (g : Clcg4) (n : ℕ) → IsSeeded g → rewind (discard g n) n ≡ g
unfolding discard
rewind-discard g zero s = refl
rewind-discard g (suc n) s =
    ap prev (rewind-discard (draw g) n (prev-draw g s).0) ∙ (prev-draw g s).1
