-- ===== src/Lp/Executing.antt =====
-- Part of simcore/lp.C and simcore/event.C: the execution of an event, and the sending of those it causes.
-- A handler returns what it sends, so the events are sent when the handler has ended, in its order.
use charades.Prelude.{
  ℕ, ◌+◌, ◌-◌, ◌%◌, ◌^◌, Bool, true, false, ◌&&◌, Ptr, write, ltb, leb, ◌==◌, if◌then◌else◌, Option,
  none, some, ◌>>=◌, List, [], ◌∷◌,
}
use charades.Event.{Events, sent}
use charades.PendingHeap
use charades.ProcessedQueue
use charades.Setup.{Protocol, sequential, conservative, optimistic}
use charades.Lp.{
  Chare, Model, Place, recv_remote_event, RemoteEvent, Send, events, set_events, processed_events,
  set_processed,
}
use charades.Lp.Freeing.{is_optimistic, tw_event_free}
use charades.Lp.Cancelling.{set_current_event, update_next}
use charades.Lp.Receiving.{event_alloc, set_msg, recv_local_event}

abbrev is_conservative : Protocol → Bool
is_conservative conservative = true
is_conservative sequential = false
is_conservative optimistic = false

-- `link_causality`.
unfoldable pub link_causality : Events → Ptr → Ptr → Events
link_causality m nev cev =
    let m' = record m { cause_next = write m.cause_next nev (m.caused_by_me cev) } in
    record m' { caused_by_me = write m'.caused_by_me cev nev }

module _ {S D : Type 0} (model : Model S D) (place : Place) (fuel : ℕ) where
  -- `event_alloc(msg, dest_gid, offset, sender)`; `uint64_t` sums wrap.
  unfoldable pub event_alloc_from : Chare S D → Ptr → Send D → Option (Ptr × Chare S D)
  event_alloc_from c sender s =
      let msg : RemoteEvent D = record {
        ts = (c.current_time + s.offset) % 2 ^ 64;
        event_id = c.next_event_id;
        src_lp = place.gid sender;
        dest_lp = s.dest;
        payload = s.payload;
      } in
      let c1 = record c { next_event_id = (c.next_event_id + 1) % 2 ^ 64 } in
      do
        a ← (if leb place.ts_end msg.ts then some (place.abort_event, c1) else event_alloc c1)
        let (e, c2) = a
        let c3 = record c2 { mem = record c2.mem { lp = write c2.mem.lp e sender } }
        some (e, set_msg c3 e msg)

  -- An event for another chare: the message is sent, and the event stays with its cause.
  unfoldable pub send_remote : Chare S D → Ptr → Option (Chare S D)
  send_remote c e =
      let msg : RemoteEvent D = record {
        ts = c.mem.ts e;
        event_id = c.mem.event_id e;
        src_lp = c.mem.src_lp e;
        dest_lp = c.mem.dest_lp e;
        payload = c.messages e;
      } in
      let c' = record c {
        sent = recv_remote_event (place.get_chare_id (c.mem.dest_lp e)) msg ∷ c.sent;
      } in
      if is_optimistic place.protocol
      then some (record c' { mem = record c'.mem { owner = write c'.mem.owner e sent } })
      else tw_event_free model place fuel c' e false

  -- `tw_event_send`.
  unfoldable pub tw_event_send : Chare S D → Ptr → Option (Chare S D)
  tw_event_send c e =
      let linked = record c { mem = link_causality c.mem e c.current_event } in
      let late =
        is_conservative place.protocol
        && ltb ((c.mem.ts e + (2 ^ 64 - c.current_time)) % 2 ^ 64) place.lookahead in
      let local = recv_local_event model place fuel linked e in
      let remote = send_remote linked e in
      if e == place.abort_event
      then (if ltb (c.mem.ts e) place.ts_end then none else some c)
      else if late
      then none
      else if place.get_chare_id (c.mem.dest_lp e) == place.this_index
      then local
      else remote

  unfoldable pub send_all : Chare S D → Ptr → List (Send D) → Option (Chare S D)
  send_all c sender [] = some c
  send_all c sender (s ∷ ss) = do
    a ← event_alloc_from c sender s
    c' ← tw_event_send a.1 a.0
    send_all c' sender ss

  -- What `execute_me` does with an event that is taken off the pending events.
  unfoldable pub execute : Chare S D → Ptr → Option (Chare S D)
  execute c e =
      let c1 = set_current_event c e in
      let c2 =
        if is_optimistic place.protocol
        then record c1 { messages = write c1.messages e (model.clear_bits (c1.messages e)) }
        else c1 in
      let lp = c2.mem.lp e in
      let r = model.forward c2.lps lp c2.current_time (c2.messages e) in
      do
        c3 ← send_all (record c2 { lps = r.0; messages = write c2.messages e r.1 }) lp r.2
        let kept = some (set_processed c3 (ProcessedQueue.push_front (processed_events c3) e))
        let freed = (do
          c4 ← tw_event_free model place fuel c3 e true
          some (record c4 {
            committed_events = c4.committed_events + 1;
            committed_time = c4.mem.ts e % 2 ^ 32;
          }))
        c5 ← (if is_optimistic place.protocol then kept else freed)
        some (update_next c5)

  -- `execute_me`; the Boolean is what it returns.
  unfoldable pub execute_me : Chare S D → Option (Bool × Chare S D)
  execute_me c =
      let r = PendingHeap.pop model.compare (events c) in
      let executed = (do c' ← execute (set_events c r.1) r.0; some (true, c')) in
      if (events c).nelems == 0 then some (false, c) else executed
