-- ===== src/Lib.antt =====
-- Charades: a parallel discrete event simulator that runs optimistically (Time Warp).
--
-- Logical processes (LPs) are grouped in chares. A chare keeps the events that it has still to
-- execute in a heap (src/collections/pending_heap.h), those that it has executed and may have to
-- roll back in a linked list (src/collections/processed_queue.h), and all events received from other
-- chares in a tree (src/collections/avl_tree.C). The scheduler of a processor keeps the tokens of its
-- chares in a queue ordered by the time of their next event (src/collections/pe_queue.C).
--
-- How the files of this library correspond to the source:
--   * PeQueue: src/collections/pe_queue.C, one function for each method. HeapOrder is the theory of
--     array heaps that both heaps use.
--   * Event: the fields of events (src/simcore/event.h) and their comparators
--     (src/simcore/event.C), with the default tie break of src/simcore/lp.h.
--   * PendingHeap: src/collections/pending_heap.h, one function for each method.
--   * ProcessedQueue: src/collections/processed_queue.h, one function for each method, over the
--     memory of events that holds the links.
--   * AvlTree: src/collections/avl_tree.C, one function for each function. A tree is a value, since no
--     node is shared; the keys of events stand fixed in the memory, and the flags and the free nodes
--     are passed along.
--   * Gvt: src/gvt/phased.C, one function for each method of a processor (Gvt.Phased), with the triggers
--     of src/scheduler/trigger.h (Gvt.Trigger). Gvt.Network is the relation of the steps that all
--     processors make in one round: work, sending, receiving, gvt_begin, the reductions and check_counts,
--     in any order, up to the contributions of the minima. The least time that the scheduler of a processor
--     gives (get_min_time) and the times of what the processor sends are free in this relation. A parameter
--     holds them to what the algorithm needs: the time goes back no further than to that of a message
--     received, and nothing earlier is sent. Whether src/simcore/lp.C keeps to that is the subject of
--     Lp.Stragglers. The counts of messages are assumed to stay below 2^32. How gvt_end of one processor
--     meets the next round of another is the subject of Gvt.Late.
--   * Scheduler: the loop of a processor (src/scheduler/scheduler.C with the overlap of execution and GVT
--     of src/scheduler/optimistic.C), from one batch of events to the next, as steps on its state.
--   * Setup: the mapping of LPs to chares (src/setup/mapper.h) and the numbers of LPs and chares that
--     tw_create_simulation (src/setup/setup.C) settles on. Its loop has a step for each LP as fuel.
--   * Clcg4: src/util/clcg4.h, the streams of numbers and their inverses. Random: the draws of
--     src/util/random.h, with the floating-point numbers as an argument.
--   * EventBuffer: src/collections/event_buffer.h, the stack of free events.
--   * Lp: a chare of LPs (src/simcore/lp.C) with the operations on events that act on it
--     (src/simcore/event.C): Lp.Freeing, Lp.Cancelling, Lp.Rolling, Lp.Receiving and Lp.Executing have one
--     function for each method, over one memory of events that the heap, the queue, the tree and the buffer
--     share. The handlers of the model are a parameter; a handler returns what it sends, and the events are
--     sent when it has ended. The chare is the only one of its processor, and messages to other
--     chares are listed. Each round of the loops over the queue takes an event out of it, so its length is
--     the fuel; the loops over the events that an event caused take as fuel more than their number.
--   * Pcs: the model of portables and cells (models/pcs/pcs.C). A handler takes the state of a cell and
--     an event, and returns the state, the bits and counter for its reverse handler, and the event sent
--     (Pcs.Handlers); its loops are Pcs.Moves and Pcs.Calls. Pcs.Network is the relation of the steps of all cells
--     and the events between them, in any order. The loops take fuel; enough is
--     more than the number of exponential times that bring one time of a portable to the other, counted
--     from the state of its random numbers. What tw_rand_reverse_unif does is a hypothesis, since the
--     repository does not declare it.
--
-- Pointers are numbers, `NULL` is 0, and a field of all objects of a class is a function of their
-- addresses, so that queues which share objects share their fields. An array is a function of its
-- indices: the theorems bound the indices in use by the capacity, and what lies beyond is not read.
-- Times are numbers, as `Time` is an unsigned integer that the modelled code only compares. Counts
-- and array indices are numbers below the capacity of an array in memory, so they do not wrap; the
-- index field of an event is a byte, and its wrap is modelled. The totals committed_events and
-- rolled_back_events of a chare are ints in the source, and are taken not to overflow.
-- Loops take fuel that is computed from the state; the theorems about the loops hold with that fuel,
-- so that it is enough.
pub mod Prelude
pub mod HeapOrder
pub mod PeQueue
pub mod Event
pub mod PendingHeap
pub mod ProcessedQueue
pub mod AvlTree
pub mod Clcg4
pub mod Gvt
pub mod Setup
pub mod Scheduler
pub mod Random
pub mod Pcs
pub mod EventBuffer
pub mod Lp
