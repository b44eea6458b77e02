-- ===== src/Lp/Cancelling.antt =====
-- Part of simcore/event.C and simcore/lp.C: the cancelling of events, and the rollback of one event.
use charades.Prelude.{
  ℕ, zero, suc, true, false, Ptr, null, write, ltb, ◌==◌, if◌then◌else◌, Option, none, some, ◌>>=◌,
  ◌∷◌,
}
use charades.Event.{event_null, chare_q, rollback_q, sent}
use charades.PendingHeap
use charades.Lp.{Chare, Model, Place, recv_anti_event, events, set_events}
use charades.Lp.Freeing.{is_sent, tw_event_free}

module _ {S D : Type 0} where
  -- `set_current_event`.
  unfoldable pub set_current_event : Chare S D → Ptr → Chare S D
  set_current_event c e = record c {
    current_event = e;
    current_time = if e == null then c.last_gvt else c.mem.ts e;
  }

  -- `scheduler->update_next(&next_token, events.min())`.
  unfoldable pub update_next : Chare S D → Chare S D
  update_next c = record c { next_ts = PendingHeap.min_ts (events c) }

  -- `add_to_cancel_q`, with `update_min_cancel` of the scheduler.
  unfoldable pub add_to_cancel_q : Chare S D → Ptr → Chare S D
  add_to_cancel_q c e =
      let ts = c.mem.ts e in
      let c' = record c {
        mem = record c.mem {
          in_cancel_q = write c.mem.in_cancel_q e true;
          cancel_next = write c.mem.cancel_next e c.cancel_q;
        };
        cancel_q = e;
      } in
      if ltb ts c.min_cancel_q
      then record c' {
        min_cancel_q = ts;
        min_cancel_time = if ltb ts c.min_cancel_time then ts else c.min_cancel_time;
      }
      else c'

module _ {S D : Type 0} (model : Model S D) (place : Place) (fuel : ℕ) where
  -- `delete_pending`.
  unfoldable pub delete_pending : Chare S D → Ptr → Option (Chare S D)
  delete_pending c e = do
    h ← PendingHeap.erase model.compare (events c) e
    some (update_next (set_events c h))

  -- `cancel_event`.
  unfoldable pub cancel_event : Chare S D → Ptr → Option (Chare S D)
  cancel_event c e =
      let pending = (do c' ← delete_pending c e; tw_event_free model place fuel c' e false) in
      elim (c.mem.owner e) [
        | chare_q ↦ pending
        | rollback_q ↦ some (add_to_cancel_q c e)
        | event_null ↦ none
        | sent ↦ none
      ]

  -- `charm_anti_send`.
  unfoldable pub charm_anti_send : Chare S D → Ptr → Chare S D
  charm_anti_send c e = record c {
    sent =
        recv_anti_event (place.get_chare_id (c.mem.dest_lp e)) (c.mem.ts e) (c.mem.event_id e)
          (c.mem.src_lp e) (c.mem.dest_lp e)
        ∷ c.sent;
  }

  -- `charm_event_cancel`.
  unfoldable pub charm_event_cancel : Chare S D → Ptr → Option (Chare S D)
  charm_event_cancel c e =
      if c.mem.in_cancel_q e
      then some c
      else if is_sent (c.mem.owner e)
      then tw_event_free model place fuel (charm_anti_send c e) e false
      else cancel_event c e

  -- The loop of `tw_event_rollback` over the events that the event caused.
  unfoldable pub cancel_caused : ℕ → Chare S D → Ptr → Option (Chare S D)
  cancel_caused zero c e = if e == null then some c else none
  cancel_caused (suc n) c e =
      let next = c.mem.cause_next e in
      let unlinked = record c {
        mem = record c.mem { cause_next = write c.mem.cause_next e null };
      } in
      let rest = (do c' ← charm_event_cancel unlinked e; cancel_caused n c' next) in
      if e == null then some c else rest

  -- `tw_event_rollback`: `reverse` is called with the event as the current one.
  unfoldable pub tw_event_rollback : Chare S D → Ptr → Option (Chare S D)
  tw_event_rollback c event =
      let e = c.mem.caused_by_me event in
      let c1 = set_current_event c event in
      let (lps, message) =
        model.reverse c1.lps (c1.mem.lp event) (c1.mem.ts event) (c1.messages event) in
      do
        c2 ←
            cancel_caused fuel (record c1 { lps = lps; messages = write c1.messages event message })
              e
        some (record c2 {
          mem = record c2.mem { caused_by_me = write c2.mem.caused_by_me event null };
        })
