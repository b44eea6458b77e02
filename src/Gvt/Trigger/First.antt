-- ===== src/Gvt/Trigger/First.antt =====
-- When a count trigger is ready for the first time.
use charades.Prelude.{ℕ, zero, suc, ◌+◌, ◌-◌, ◌%◌, ◌^◌, ◌<◌, ◌≤◌, ◌≡◌, ◌∙◌, ap, arith, true, leb}
use charades.Gvt.Trigger.{Trigger, counter, iteration_done, ready, count_trigger}

-- After `n` iterations.
abbrev pub iterations : ℕ → Trigger → Trigger
iterations zero t = t
iterations (suc n) t = iteration_done (iterations n t)

iterations-counter :
    (n cnt max : ℕ) → cnt + n < 2 ^ 32 → iterations n (counter cnt max) ≡ counter (cnt + n) max
unfolding iteration_done
iterations-counter zero cnt max h = ap (λ c. counter c max) (omega arith)
iterations-counter (suc n) cnt max h =
    ap iteration_done (iterations-counter n cnt max (omega arith))
    ∙ ap (λ c. counter c max) (next cnt n (omega arith))
  where
    next : (c n : ℕ) → c + suc n < 2 ^ 32 → (c + n + 1) % 2 ^ 32 ≡ c + suc n
    next c n h = omega arith

-- A count trigger whose first number of iterations is no greater than its interval, and which has not
-- counted to 2 ^ 32, is ready exactly after the first number of iterations.
pub count_trigger-ready :
    (first max n : ℕ)
    → first ≤ max
    → max < 2 ^ 32
    → max + n < first + 2 ^ 32
    → ready (iterations n (count_trigger first max)) ≡ leb first n
unfolding ready count_trigger
count_trigger-ready first max n h b w =
    ap (λ c. ready (iterations n (counter c max))) (start first max h b)
    ∙ ap ready (iterations-counter n (max - first) max (omega arith))
    ∙ tests first max n h
  where
    start :
        (first max : ℕ)
        → first ≤ max
        → max < 2 ^ 32
        → (max + (2 ^ 32 - first)) % 2 ^ 32 ≡ max - first
    start first max h b = omega arith

    tests : (first max n : ℕ) → first ≤ max → leb max (max - first + n) ≡ leb first n
    tests first max n h = ground arith

-- A count trigger whose first number of iterations is greater than its interval is ready at once, since
-- the difference wraps.
pub count_trigger_early :
    (first max : ℕ) → max < first → first < 2 ^ 32 → ready (count_trigger first max) ≡ true
unfolding ready count_trigger
count_trigger_early first max h b = ground arith
