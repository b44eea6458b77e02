-- ===== src/Lp/Rolling.antt =====
-- Part of simcore/lp.C: the loops that roll back, commit and cancel the events of the chare.
use charades.Prelude.{
  ℕ, zero, suc, ◌+◌, ◌%◌, ◌^◌, true, false, ◌&&◌, not, Ptr, null, ltb, leb, ◌==◌, if◌then◌else◌,
  Option, none, some, ◌>>=◌,
}
use charades.Event.{event_null, chare_q, rollback_q, sent, time_max}
use charades.PendingHeap
use charades.ProcessedQueue
use charades.Lp.{Chare, Model, Place, events, set_events, processed_events, set_processed}
use charades.Lp.Freeing.{tw_event_free}
use charades.Lp.Cancelling.{set_current_event, update_next, delete_pending, tw_event_rollback}

module _ {S D : Type 0} (model : Model S D) (place : Place) (fuel : ℕ) where
  -- The body of the loops of `rollback_me`: the event goes back to the pending events.
  unfoldable pub roll_back : Chare S D → Ptr → Option (Chare S D)
  roll_back c e = do
    c' ← tw_event_rollback model place fuel c e
    let counted = record c' { rolled_back_events = c'.rolled_back_events + 1 }
    some (set_events counted (PendingHeap.push model.compare (events counted) e))

  -- The end of `rollback_me`.
  unfoldable pub resume : Chare S D → Chare S D
  resume c = set_current_event (update_next c) (ProcessedQueue.front (processed_events c))

  -- `rollback_me(Time)`; every round takes an event out of the queue.
  unfoldable pub rollback_loop : ℕ → ℕ → Chare S D → Option (Chare S D)
  rollback_loop zero ts c = none
  rollback_loop (suc n) ts c =
      let q = processed_events c in
      let rest = (do
        r ← ProcessedQueue.pop_front q
        c' ← roll_back (set_processed c r.1) r.0
        rollback_loop n ts c') in
      if not (q.length == 0) && leb ts (q.mem.ts q.head) then rest else some c

  unfoldable pub rollback_me_ts : ℕ → Chare S D → Option (Chare S D)
  rollback_me_ts ts c = do c' ← rollback_loop (c.queue.length + 1) ts c; some (resume c')

  -- `rollback_me(Event*)`.
  unfoldable pub rollback_to_loop : ℕ → Ptr → Chare S D → Option (Chare S D)
  rollback_to_loop zero event c = none
  rollback_to_loop (suc n) event c = do
    r ← ProcessedQueue.pop_front (processed_events c)
    let c' = set_processed c r.1
    let rest = (do c'' ← roll_back c' r.0; rollback_to_loop n event c'')
    if r.0 == event then some c' else rest

  unfoldable pub rollback_me : Ptr → Chare S D → Option (Chare S D)
  rollback_me event c = do
    c1 ← rollback_to_loop (c.queue.length + 1) event c
    c2 ← tw_event_rollback model place fuel c1 event
    some (resume (record c2 { rolled_back_events = c2.rolled_back_events + 1 }))

  -- `fossil_me`.
  unfoldable pub fossil_loop : ℕ → ℕ → Chare S D → Option (Chare S D)
  fossil_loop zero gvt c = none
  fossil_loop (suc n) gvt c =
      let q = processed_events c in
      let back = ProcessedQueue.back q in
      let rest = (do
        r ← ProcessedQueue.pop_back q
        c' ← tw_event_free model place fuel (set_processed c r.1) r.0 true
        fossil_loop n gvt (record c' {
          committed_events = c'.committed_events + 1;
          committed_time = c'.mem.ts r.0 % 2 ^ 32;
        })) in
      if not (back == null) && ltb (q.mem.ts back) gvt then rest else some c

  unfoldable pub fossil_me : ℕ → Chare S D → Option (Chare S D)
  fossil_me gvt c = fossil_loop (c.queue.length + 1) gvt c

  -- The inner loop of `process_cancel_q`, over the events that were in the cancel queue.
  unfoldable pub cancel_loop : ℕ → Ptr → Chare S D → Option (Chare S D)
  cancel_loop zero curr c = if curr == null then some c else none
  cancel_loop (suc n) curr c =
      let next = c.mem.cancel_next curr in
      let pending = (do
        c' ← delete_pending model place fuel c curr
        tw_event_free model place fuel c' curr false) in
      let processed = (do c' ← rollback_me curr c; tw_event_free model place fuel c' curr false) in
      let rest = (do
        c' ← elim (c.mem.owner curr) as (λ o. Option (Chare S D)) [
          | chare_q ↦ pending
          | rollback_q ↦ processed
          | event_null ↦ none
          | sent ↦ none
        ]
        cancel_loop n next c') in
      if curr == null then some c else rest

  -- `process_cancel_q`: cancelling may fill the queue again.
  unfoldable pub process_cancel_q : ℕ → Chare S D → Option (Chare S D)
  process_cancel_q zero c = none
  process_cancel_q (suc n) c =
      let curr = c.cancel_q in
      let rest = (do
        c' ← cancel_loop fuel curr (record c { cancel_q = null; min_cancel_q = time_max })
        process_cancel_q n c') in
      if curr == null then some c else rest
