-- ===== src/EventBuffer.antt =====
-- collections/event_buffer.h: the free events of a processor, a stack. Statistics are left out, and the
-- allocation of memory: the addresses of the events are an argument. `none` is a failed assertion.
pub mod Stack
mod Tests
use charades.Prelude.{ℕ, ◌+◌, ◌-◌, Ptr, null, write, false, ltb, if◌then◌else◌, Option, none, some}
use charades.Event.{Events, event_null}

pub record EventBuffer : Type 0 where
  pub max_events : ℕ
  pub stack_pointer : ℕ
  pub buffer : ℕ → Ptr

-- The constructor, for events at these addresses.
unfoldable pub init : ℕ → (ℕ → Ptr) → EventBuffer
init max addresses = record { max_events = max; stack_pointer = max; buffer = addresses }

-- `Event::clear`.
unfoldable pub clear : Events → Ptr → Events
clear m e = record {
  ts = write m.ts e 0;
  event_id = write m.event_id e 0;
  src_lp = write m.src_lp e 0;
  dest_lp = write m.dest_lp e 0;
  lp = write m.lp e null;
  owner = write m.owner e event_null;
  in_cancel_q = write m.in_cancel_q e false;
  remote = write m.remote e false;
  in_avl_tree = write m.in_avl_tree e false;
  prev = write m.prev e null;
  next = write m.next e null;
  caused_by_me = write m.caused_by_me e null;
  cause_next = write m.cause_next e null;
  cancel_next = write m.cancel_next e null;
  index = write m.index e 0;
}

unfoldable pub get_event : EventBuffer → Events → Option (Ptr × EventBuffer × Events)
unfolding clear
get_event b m =
    let top = b.stack_pointer - 1 in
    if ltb 0 b.stack_pointer
    then some (b.buffer top, record b { stack_pointer = top }, clear m (b.buffer top))
    else none

unfoldable pub free_event : EventBuffer → Ptr → Option EventBuffer
free_event b e =
    if ltb b.stack_pointer b.max_events
    then some (record b {
      stack_pointer = b.stack_pointer + 1;
      buffer = write b.buffer b.stack_pointer e;
    })
    else none
