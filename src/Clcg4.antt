-- ===== src/Clcg4.antt =====
-- util/clcg4.h: the reversible random number generator of the LPs.
-- The state is modelled, not the floating-point number that each draw returns. The four streams of
-- numbers are the fields of a record; they are never negative between operations, so they are natural
-- numbers, and a difference that may be negative is written out with the test of its sign.
pub mod Streams
mod Tests
use charades.Prelude.{
  ℕ, zero, suc, ◌+◌, ◌-◌, ◌*◌, ◌/◌, ◌%◌, ◌^◌, ltb, ◌==◌, if◌then◌else◌, Bool, true, false,
}

-- One number for each stream.
pub record Four : Type 0 where
  pub s0 : ℕ
  pub s1 : ℕ
  pub s2 : ℕ
  pub s3 : ℕ

-- `rng.m` and `rng.a`, as `init` sets them.
abbrev pub m : Four
m = record { s0 = 2147483647; s1 = 2147483543; s2 = 2147483423; s3 = 2147483323 }

abbrev pub a : Four
a = record { s0 = 45991; s1 = 207707; s2 = 138556; s3 = 49689 }

-- `find_b`: the squares, and the product of those that the bits of `k` select.
unfoldable pub square : ℕ → ℕ → ℕ
square m s = (s * s) % m

unfoldable pub sqrs : ℕ → ℕ → ℕ → ℕ
sqrs a m zero = a
sqrs a m (suc i) = square m (sqrs a m i)

unfoldable pub find_b_loop : ℕ → ℕ → ℕ → ℕ → ℕ
find_b_loop a k m zero = 1
find_b_loop a k m (suc i) =
    (find_b_loop a k m i * (if (k / 2 ^ i) % 2 == 0 then 1 else sqrs a m i)) % m

unfoldable pub find_b : ℕ → ℕ → ℕ → ℕ
find_b a k m = find_b_loop a k m 32

-- `rng.b`, as `init` sets it.
unfoldable pub b : Four
b = record {
  s0 = find_b a.s0 (m.s0 - 2) m.s0;
  s1 = find_b a.s1 (m.s1 - 2) m.s1;
  s2 = find_b a.s2 (m.s2 - 2) m.s2;
  s3 = find_b a.s3 (m.s3 - 2) m.s3;
}

-- A stream in `operator()`: `a * (s - k * q) - k * r`, and `m` added where that is negative.
unfoldable pub step : ℕ → ℕ → ℕ → ℕ → ℕ → ℕ
step a q r m s =
    let k = s / q in
    let x = a * (s - k * q) in let y = k * r in if ltb x y then (x + m) - y else x - y

pub record Clcg4 : Type 0 where
  pub cg : Four
  pub count : ℕ

-- `operator()`; `_count` is an unsigned number of 64 bits.
unfoldable pub draw : Clcg4 → Clcg4
draw g = record {
  cg = record {
    s0 = step 45991 46693 25884 2147483647 g.cg.s0;
    s1 = step 207707 10339 870 2147483543 g.cg.s1;
    s2 = step 138556 15499 3979 2147483423 g.cg.s2;
    s3 = step 49689 43218 24121 2147483323 g.cg.s3;
  };
  count = (g.count + 1) % 2 ^ 64;
}

unfoldable pub prev : Clcg4 → Clcg4
prev g = record {
  cg = record {
    s0 = (b.s0 * g.cg.s0) % m.s0;
    s1 = (b.s1 * g.cg.s1) % m.s1;
    s2 = (b.s2 * g.cg.s2) % m.s2;
    s3 = (b.s3 * g.cg.s3) % m.s3;
  };
  count = (g.count + (2 ^ 64 - 1)) % 2 ^ 64;
}

unfoldable pub discard : Clcg4 → ℕ → Clcg4
discard g zero = g
discard g (suc n) = discard (draw g) n
