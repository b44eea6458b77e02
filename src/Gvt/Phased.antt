-- ===== src/Gvt/Phased.antt =====
-- gvt/phased.C: the global virtual time by counting the messages of two phases.
-- A processor sends its messages in one phase while those of the other are counted: once as many have
-- been received as sent, the minimum of the processors' times bounds all that is still to be executed.
-- What a method contributes to a reduction or tells the scheduler is part of its result.
use charades.Prelude.{
  ℕ, ◌+◌, ◌%◌, ◌^◌, Bool, true, false, not, ◌||◌, write, ltb, leb, ◌==◌, if◌then◌else◌, min, Option,
  some, none,
}
use charades.Event.{time_max}
use charades.Gvt.Trigger.{Trigger, iteration_done, reset, ready}

pub record PhaseGvt : Type 0 where
  pub curr_gvt : ℕ
  pub prev_gvt : ℕ
  pub active : Bool
  pub producing_phase : ℕ
  pub active_phase : ℕ
  pub sent : ℕ → ℕ
  pub received : ℕ → ℕ
  pub min_sent : ℕ
  pub lb_trigger : Trigger
  pub count_reductions : ℕ
  pub min_reductions : ℕ
  pub begin_successes : ℕ
  pub begin_fails : ℕ

abbrev pub u32 : ℕ → ℕ
u32 n = n % 2 ^ 32

-- The constructor aborts unless there are two phases; `active_phase` starts as -1.
unfoldable pub init : Trigger → ℕ → Option PhaseGvt
init lb max_phase =
    if max_phase == 2
    then some (record {
      curr_gvt = 0;
      prev_gvt = 0;
      active = false;
      producing_phase = 0;
      active_phase = 0xffff_ffff;
      sent = λ i. 0;
      received = λ i. 0;
      min_sent = time_max;
      lb_trigger = lb;
      count_reductions = 0;
      min_reductions = 0;
      begin_successes = 0;
      begin_fails = 0;
    })
    else none

-- What a processor gives to a reduction.
pub data Contribution : Type 0 where
  nothing : Contribution
  counts : ℕ → ℕ → Contribution
  minimum : ℕ → Contribution

-- The branch of `gvt_begin` for a processor that is not active.
unfoldable pub begin_round : PhaseGvt → PhaseGvt
begin_round g = record g {
  begin_successes = u32 (g.begin_successes + 1);
  active = true;
  min_sent = time_max;
  active_phase = g.producing_phase;
  producing_phase = (g.producing_phase + 1) % 2;
  lb_trigger = iteration_done g.lb_trigger;
}

-- `gvt_begin`; the last result is whether the scheduler resumes.
unfoldable pub gvt_begin : Bool → PhaseGvt → PhaseGvt × Contribution × Bool
gvt_begin continuous g =
    let g' =
      if g.active then record g { begin_fails = u32 (g.begin_fails + 1) } else begin_round g in
    let c =
      if g.active
      then nothing
      else counts (g'.sent g'.active_phase) (g'.received g'.active_phase) in
    (g', c, not (ready g'.lb_trigger) || continuous)

-- `check_counts` at a processor whose scheduler has the least time `local`; `none` is a failed assertion.
unfoldable pub check_counts : ℕ → ℕ → ℕ → PhaseGvt → Option (PhaseGvt × Contribution)
check_counts local s r g =
    let g' = record g { count_reductions = u32 (g.count_reductions + 1) } in
    let min_time = min local g.min_sent in
    if s == r
    then (if leb g.curr_gvt min_time then some (g', minimum min_time) else none)
    else some (g', counts (g.sent g.active_phase) (g.received g.active_phase))

-- `gvt_end`; the last result is whether load balancing is due.
unfoldable pub gvt_end : ℕ → PhaseGvt → PhaseGvt × Bool
gvt_end new_gvt g = (
  record g {
    min_reductions = u32 (g.min_reductions + 1);
    active = false;
    prev_gvt = g.curr_gvt;
    curr_gvt = new_gvt;
    sent = write g.sent g.active_phase 0;
    received = write g.received g.active_phase 0;
    lb_trigger = if ready g.lb_trigger then reset g.lb_trigger else g.lb_trigger;
  },
  ready g.lb_trigger,
)

-- `consume` of a message of a phase.
unfoldable pub consume : ℕ → PhaseGvt → PhaseGvt
consume phase g = record g { received = write g.received phase (u32 (g.received phase + 1)) }

-- `produce` of a message with a timestamp. The phase that it gives to the message is the producing
-- phase, and it always returns true.
unfoldable pub produce : ℕ → PhaseGvt → PhaseGvt
produce ts g = record g {
  min_sent = if ltb ts g.min_sent then ts else g.min_sent;
  sent = write g.sent g.producing_phase (u32 (g.sent g.producing_phase + 1));
}
