-- ===== src/Clcg4/Tests.antt =====
-- Draws from the default seed, and the theorems there.
use charades.Prelude.{◌≡◌, refl, arith}
use charades.Clcg4.{Clcg4, draw, prev, step}
use charades.Clcg4.Streams.{IsSeeded, prev-draw}

abbrev seeded : Clcg4
seeded = record {
  cg = record { s0 = 11111111; s1 = 22222222; s2 = 33333333; s3 = 44444444 };
  count = 0;
}

seeded-IsSeeded : IsSeeded seeded
seeded-IsSeeded = (omega arith, omega arith, omega arith, omega arith, omega arith)

first_draw : (draw seeded).cg.s0 ≡ 2057481662
unfolding draw step
first_draw = refl

prev-draw_example : IsSeeded (draw seeded) × (prev (draw seeded) ≡ seeded)
prev-draw_example = prev-draw seeded seeded-IsSeeded
