-- ===== src/Scheduler.antt =====
-- scheduler/scheduler.C and scheduler/optimistic.C: how a processor goes from one batch of events to the
-- next, and to the computation of the global virtual time, which is phased (Gvt.Phased).
-- Printing and statistics are left out. `executes` counts the messages to `execute` that are on their way
-- to the processor itself, `balancing` says that load balancing has started and not completed, and
-- `finished` that the simulation was ended. What a batch executes is not modelled here.
pub mod Awake
mod Tests
use charades.Prelude.{
  ℕ, ◌+◌, ◌-◌, ◌≡◌, ◌<◌, ◌≤◌, Bool, true, false, leb, ltb, if◌then◌else◌, Option, none, some,
}
use charades.Gvt.Trigger.{Trigger, iteration_done, reset, ready}
use charades.Gvt.Phased.{PhaseGvt, gvt_begin, gvt_end}

pub record Loop : Type 0 where
  pub running : Bool
  pub executes : ℕ
  pub gvt_trigger : Trigger
  pub gvt : PhaseGvt
  pub last_gvt : ℕ
  pub balancing : Bool
  pub finished : Bool

-- `next_iteration`, which is also `gvt_resume` and what `balancing_complete` does.
unfoldable pub next_iteration : Loop → Loop
next_iteration l = if l.running then l else record l { running = true; executes = l.executes + 1 }

-- `iteration_done`, with the result of `gvt_begin` on whether to resume.
unfoldable pub batch_done : Bool → Loop → Loop
batch_done continuous l =
    let l' = record l { running = false; gvt_trigger = iteration_done l.gvt_trigger } in
    let b = gvt_begin continuous l.gvt in
    let begun = record l' { gvt = b.0 } in
    let resumed = if b.2 then next_iteration begun else begun in
    if ready l'.gvt_trigger
    then record resumed { gvt_trigger = reset resumed.gvt_trigger }
    else next_iteration l'

-- `start_balancing`; `none` is its failed assertion.
unfoldable pub start_balancing : Loop → Option Loop
start_balancing l = if l.running then none else some (record l { balancing = true })

-- `gvt_done`, where the simulation ends at `ts_end`; `none` is a failed assertion.
unfoldable pub gvt_done : ℕ → ℕ → Bool → Loop → Option Loop
gvt_done ts_end gvt lb l =
    let l' = record l { last_gvt = gvt } in
    if ltb gvt l.last_gvt
    then none
    else if leb ts_end gvt
    then some (record l' { finished = true })
    else if lb
    then start_balancing l'
    else some (next_iteration l')

-- The end of a computation of the global virtual time, which calls `gvt_done`.
unfoldable pub end_gvt : ℕ → ℕ → Loop → Option Loop
end_gvt ts_end t l = let e = gvt_end t l.gvt in gvt_done ts_end t e.1 (record l { gvt = e.0 })

-- What may happen to the processor: a message to `execute` arrives, a global virtual time that is no less
-- than the last arrives while one is computed, or load balancing completes.
pub data Step (continuous : Bool) (ts_end : ℕ) : Loop → Loop → Type 0 where
  execute :
      (l : Loop)
      → 0 < l.executes
      → Step continuous ts_end l (batch_done continuous (record l { executes = l.executes - 1 }))
  reduced :
      (l l' : Loop) (t : ℕ)
      → l.gvt.active ≡ true
      → l.last_gvt ≤ t
      → end_gvt ts_end t l ≡ some l'
      → Step continuous ts_end l l'
  balanced :
      (l : Loop)
      → l.balancing ≡ true
      → Step continuous ts_end l (next_iteration (record l { balancing = false }))

-- The states that are reached from one in which the simulation starts (`start_simulation`).
pub data Reached (continuous : Bool) (ts_end : ℕ) : Loop → Type 0 where
  start :
      (l : Loop)
      → l.running ≡ true
      → l.executes ≡ 1
      → l.gvt.active ≡ false
      → l.balancing ≡ false
      → Reached continuous ts_end l
  after :
      (l l' : Loop)
      → Reached continuous ts_end l
      → Step continuous ts_end l l'
      → Reached continuous ts_end l'
