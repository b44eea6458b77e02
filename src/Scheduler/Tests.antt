-- ===== src/Scheduler/Tests.antt =====
-- A scheduler with load balancing after each computation, and the theorems there.
use charades.Prelude.{◌-◌, ◌≡◌, refl, arith, Bool, true, false, none, some}
use charades.Event.{time_max}
use charades.Gvt.Trigger.{counter, iteration_done, reset, ready, count_trigger}
use charades.Gvt.Trigger.First.{count_trigger_early}
use charades.Gvt.Phased.{PhaseGvt, gvt_begin, begin_round}
use charades.Scheduler.{Loop, next_iteration, batch_done, end_gvt, Reached, start, after, execute}
use charades.Scheduler.Awake.{IsAwake, Reached-IsAwake, end_gvt_passes, end_gvt_aborts}

abbrev fresh : PhaseGvt
fresh = record {
  curr_gvt = 0;
  prev_gvt = 0;
  active = false;
  producing_phase = 0;
  active_phase = 1;
  sent = λ i. 0;
  received = λ i. 0;
  min_sent = time_max;
  lb_trigger = counter 0 1;
  count_reductions = 0;
  min_reductions = 0;
  begin_successes = 0;
  begin_fails = 0;
}

abbrev started : Loop
started = record {
  running = true;
  executes = 1;
  gvt_trigger = counter 0 1;
  gvt = fresh;
  last_gvt = 0;
  balancing = false;
  finished = false;
}

-- After the first batch a computation is active and load balancing is due at its end.
abbrev waiting : Bool → Loop
waiting continuous = batch_done continuous (record started { executes = 1 - 1 })

reaches : (continuous : Bool) → Reached continuous 100 (waiting continuous)
reaches continuous =
    after started (waiting continuous) (start started refl refl refl refl)
      (execute started (omega arith))

waiting-active : (waiting false).gvt.active ≡ true
unfolding batch_done gvt_begin begin_round next_iteration iteration_done ready reset
waiting-active = refl

waiting-last_gvt : (waiting false).last_gvt ≡ 0
unfolding batch_done gvt_begin begin_round next_iteration iteration_done ready reset
waiting-last_gvt = refl

Reached-IsAwake_example : IsAwake (waiting false)
Reached-IsAwake_example = Reached-IsAwake 100 (waiting false) (reaches false)

end_gvt_passes_example : (l' : Loop) × (end_gvt 100 7 (waiting false) ≡ some l')
end_gvt_passes_example =
    end_gvt_passes 100 7 (waiting false) (reaches false) waiting-active
      (ground (arith, waiting-last_gvt))

end_gvt_aborts_example :
    (end_gvt 100 7 (waiting true) ≡ none)
    × ((l' : Loop) × (end_gvt 100 7 (waiting false) ≡ some l') × (l'.balancing ≡ true))
unfolding iteration_done ready
end_gvt_aborts_example =
    end_gvt_aborts 100 7 (record started { executes = 1 - 1 }) refl refl refl (omega arith)
      (omega arith)

-- Load balancing after five computations, and then after each three.
count_trigger_early_example : ready (count_trigger 5 3) ≡ true
count_trigger_early_example = count_trigger_early 5 3 (omega arith) (omega arith)
