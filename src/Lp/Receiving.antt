-- ===== src/Lp/Receiving.antt =====
-- Part of simcore/lp.C and simcore/event.C: what happens to an event that arrives at the chare.
use charades.Prelude.{
  ℕ, true, false, ◌&&◌, Ptr, write, ltb, leb, if◌then◌else◌, Option, none, some, ◌>>=◌,
}
use charades.PendingHeap
use charades.AvlTree.{insert_or_delete}
use charades.EventBuffer.{get_event}
use charades.Lp.{Chare, Model, Place, RemoteEvent, events, set_events}
use charades.Lp.Freeing.{is_optimistic, tw_event_free}
use charades.Lp.Cancelling.{charm_event_cancel}
use charades.Lp.Rolling.{rollback_me_ts}

module _ {S D : Type 0} where
  -- `event_alloc()`.
  unfoldable pub event_alloc : Chare S D → Option (Ptr × Chare S D)
  event_alloc c = do
    r ← get_event c.event_buffer c.mem
    some (r.0, record c { event_buffer = r.1; mem = r.2 })

  -- `Event::set_msg`.
  unfoldable pub set_msg : Chare S D → Ptr → RemoteEvent D → Chare S D
  set_msg c e msg = record c {
    mem = record c.mem {
      ts = write c.mem.ts e msg.ts;
      event_id = write c.mem.event_id e msg.event_id;
      src_lp = write c.mem.src_lp e msg.src_lp;
      dest_lp = write c.mem.dest_lp e msg.dest_lp;
    };
    messages = write c.messages e msg.payload;
  }

module _ {S D : Type 0} (model : Model S D) (place : Place) (fuel : ℕ) where
  -- `recv_local_event`.
  unfoldable pub recv_local_event : Chare S D → Ptr → Option (Chare S D)
  recv_local_event c e =
      let lp = place.lp_structs (place.get_local_id (c.mem.dest_lp e)) in
      let c1 = record c { mem = record c.mem { lp = write c.mem.lp e lp } } in
      let c2 =
        if ltb (c1.mem.ts e) (PendingHeap.min_ts (events c1))
        then record c1 { next_ts = c1.mem.ts e }
        else c1 in
      do
        c3 ←
            (if is_optimistic place.protocol && leb (c2.mem.ts e) c2.current_time
              then rollback_me_ts model place fuel (c2.mem.ts e) c2
              else some c2)
        some (set_events c3 (PendingHeap.push model.compare (events c3) e))

  -- `recv_remote_event`; `consume` of the GVT is left out.
  unfoldable pub recv_remote_event : Chare S D → RemoteEvent D → Option (Chare S D)
  recv_remote_event c msg = do
    a ← event_alloc c
    let e = a.0
    let c1 = set_msg a.1 e msg
    let c2 = record c1 { mem = record c1.mem { remote = write c1.mem.remote e true } }
    let hashed = (do
      r ←
          insert_or_delete c2.mem c2.all_events e
            (record { in_tree = c2.mem.in_avl_tree; free = c2.free_nodes })
      let c3 = record c2 {
        all_events = r.1;
        free_nodes = r.2.free;
        mem = record c2.mem { in_avl_tree = r.2.in_tree };
      }
      elim r.0 as (λ o. Option (Chare S D)) [
        | none ↦ recv_local_event c3 e
        | some anti_event ↦ (do
          c4 ← tw_event_free model place fuel c3 anti_event false
          tw_event_free model place fuel c4 e false)
      ])
    if is_optimistic place.protocol then hashed else recv_local_event c2 e

  -- `recv_anti_event`.
  unfoldable pub recv_anti_event : Chare S D → (ts event_id src_lp : ℕ) → Option (Chare S D)
  recv_anti_event c ts event_id src_lp = do
    a ← event_alloc c
    let key = a.0
    let c1 = record a.1 {
      mem = record a.1.mem {
        event_id = write a.1.mem.event_id key event_id;
        ts = write a.1.mem.ts key ts;
        src_lp = write a.1.mem.src_lp key src_lp;
      };
    }
    r ←
        insert_or_delete c1.mem c1.all_events key
          (record { in_tree = c1.mem.in_avl_tree; free = c1.free_nodes })
    let c2 = record c1 {
      all_events = r.1;
      free_nodes = r.2.free;
      mem = record c1.mem { in_avl_tree = r.2.in_tree };
    }
    elim r.0 as (λ o. Option (Chare S D)) [
      | none ↦ some c2
      | some real_event ↦ (do
        c3 ← charm_event_cancel model place fuel c2 real_event
        tw_event_free model place fuel c3 key false)
    ]
