-- ===== src/Gvt/Trigger.antt =====
-- scheduler/trigger.h: what decides when a processor starts a load balancing, or the like.
-- The trigger that looks at the scheduler's times (`LeashTrigger`) is not one of these.
pub mod First
use charades.Prelude.{ℕ, ◌+◌, ◌-◌, ◌%◌, ◌^◌, Bool, false, ltb, leb, ◌&&◌, ◌||◌, ◌==◌, if◌then◌else◌}

pub data Trigger : Type 0 where
  bounded : Trigger → ℕ → Trigger
  constant : Bool → Trigger
  counter : ℕ → ℕ → Trigger

unfoldable pub iteration_done : Trigger → Trigger
iteration_done (bounded t left) = bounded (iteration_done t) left
iteration_done (constant b) = constant b
iteration_done (counter cnt max) = counter ((cnt + 1) % 2 ^ 32) max

unfoldable pub reset : Trigger → Trigger
reset (bounded t left) = bounded (reset t) (left - 1)
reset (constant b) = constant b
reset (counter cnt max) = counter 0 max

unfoldable pub ready : Trigger → Bool
ready (bounded t left) = ltb 0 left && ready t
ready (constant b) = b
ready (counter cnt max) = leb max cnt

-- The constructors of `CountTrigger`; `max - first` is unsigned.
unfoldable pub count_trigger : ℕ → ℕ → Trigger
count_trigger first max = counter ((max + (2 ^ 32 - first)) % 2 ^ 32) max

-- `GVTManager::GVTManager`: the trigger for load balancing, from the first time, the interval and the
-- greatest number of times; the last result is the number as the constructor leaves it.
unfoldable pub make_lb_trigger : ℕ → ℕ → ℕ → Trigger × ℕ
make_lb_trigger first interval max_ldb =
    let once = interval == 0 in
    let max' = if once then 1 else max_ldb in
    let first' = if once then first else if first == 0 then interval else first in
    let t = count_trigger first' interval in
    if ltb 0 interval || ltb 0 first
    then (if ltb 0 max' then bounded t max' else t, max')
    else (constant false, max_ldb)
