-- ===== src/Lp.antt =====
-- simcore/lp.C and simcore/event.C: a chare of LPs, which executes events, rolls them back, and cancels
-- what it sent. The events of a processor are one memory, which the queues of the chare share.
-- There is one chare on the processor; calls of other chares and of the GVT are messages that it puts
-- in `sent`. `none` is an abort, or a loop that runs out of fuel.
pub mod Freeing
pub mod Cancelling
pub mod Rolling
pub mod Receiving
pub mod Executing
pub mod Hashed
pub mod Stored
pub mod Freeable
pub mod Fossils
pub mod Frames
pub mod Listed
pub mod Kept
pub mod Cancelled
pub mod Rolled
pub mod Rollable
pub mod Rollbacks
pub mod Restored
pub mod Arriving
pub mod Stragglers
mod Tests
use charades.Prelude.{ℕ, Bool, Ptr, List, []}
use charades.Event.{Events, Compare}
use charades.PendingHeap.{PendingHeap}
use charades.ProcessedQueue.{ProcessedQueue}
use charades.AvlTree.{AvlTree}
use charades.EventBuffer.{EventBuffer}
use charades.Setup.{Protocol}

-- An event that a handler sends: its destination, the offset of its time, and its data.
pub record Send (D : Type 0) : Type 0 where
  pub dest : ℕ
  pub offset : ℕ
  pub payload : D

-- The methods of the LPs of a model, which lie outside of the simulator: `S` is the state of the LPs
-- of the chare, `D` the data of a message with its bits. The address of the LP and the current time
-- are passed; the events that `forward` sends are listed in their order.
pub record Model (S D : Type 0) : Type 0 where
  pub forward : S → Ptr → ℕ → D → S × D × List (Send D)
  pub reverse : S → Ptr → ℕ → D → S × D
  pub commit : S → Ptr → ℕ → D → S
  pub clear_bits : D → D
  pub compare : Compare

-- What the chare reads and never changes: its place, the mapping, and the settings of the run.
pub record Place : Type 0 where
  pub this_index : ℕ
  pub lp_structs : ℕ → Ptr
  pub gid : Ptr → ℕ
  pub get_chare_id : ℕ → ℕ
  pub get_local_id : ℕ → ℕ
  pub protocol : Protocol
  pub ts_end : ℕ
  pub lookahead : ℕ
  pub abort_event : Ptr

-- `RemoteEvent`, without the fields of the GVT.
pub record RemoteEvent (D : Type 0) : Type 0 where
  pub ts : ℕ
  pub event_id : ℕ
  pub src_lp : ℕ
  pub dest_lp : ℕ
  pub payload : D

-- The entry methods of chares, with the index of the chare; an anti-event has no data.
pub data Mail (D : Type 0) : Type 0 where
  recv_remote_event : ℕ → RemoteEvent D → Mail D
  recv_anti_event : ℕ → (ts event_id src_lp dest_lp : ℕ) → Mail D

-- The chare with the parts of the processor that it changes: the memory of events, the buffer of free
-- ones, the nodes of trees, the data of messages, and what the scheduler has of it. The queues stand
-- without the memory, see `events` and `processed_events` below.
pub record Chare (S D : Type 0) : Type 0 where
  pub mem : Events
  pub messages : Ptr → D
  pub lps : S
  pub current_time : ℕ
  pub current_event : Ptr
  pub next_event_id : ℕ
  pub heap : PendingHeap
  pub queue : ProcessedQueue
  pub all_events : AvlTree
  pub free_nodes : ℕ
  pub event_buffer : EventBuffer
  pub cancel_q : Ptr
  pub min_cancel_q : ℕ
  pub committed_events : ℕ
  pub rolled_back_events : ℕ
  -- An `int`, so a word of 32 bits.
  pub committed_time : ℕ
  -- `next_token` in the scheduler's queue, and the scheduler's `min_cancel_time`.
  pub next_ts : ℕ
  pub min_cancel_time : ℕ
  pub last_gvt : ℕ
  pub sent : List (Mail D)

module _ {S D : Type 0} where
  -- The queues, over the memory of events.
  abbrev pub events : Chare S D → PendingHeap
  events c = record c.heap { mem = c.mem }

  abbrev pub set_events : Chare S D → PendingHeap → Chare S D
  set_events c h = record c { heap = h; mem = h.mem }

  abbrev pub processed_events : Chare S D → ProcessedQueue
  processed_events c = record c.queue { mem = c.mem }

  abbrev pub set_processed : Chare S D → ProcessedQueue → Chare S D
  set_processed c q = record c { queue = q; mem = q.mem }
