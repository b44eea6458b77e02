-- ===== src/Lp/Stragglers/Tests.antt =====
-- An event at time 15 arrives at the chare with three processed events, at the times 10, 20 and 30.
use charades.Prelude.{ℕ, ◌<◌, ◌≡◌, refl, ap, Ptr, write, inl, inr, some, List, arith}
use charades.Event.{event_null}
use charades.PendingHeap
use charades.PendingHeap.{min_ts}
use charades.PendingHeap.Valid.{init-IsValid}
use charades.Lp.{Chare, events}
use charades.Lp.Receiving.{recv_local_event}
use charades.Lp.Rollable.{AreRollable}
use charades.Lp.Restored.{IsHistory}
use charades.Lp.Stragglers.{Received, recv_local_event-Received, recv_local_event_late}
use charades.Lp.Tests.{
  memory, sums, place, chare, kids, processed, processed-at, own_kids, all-IsReady, queue_holds,
}

abbrev receiving : Chare ℕ ℕ
receiving = record chare {
  mem = record memory { ts = write memory.ts 7 15; owner = write memory.owner 7 event_null };
  lps = 3;
}

receiving_rollable : AreRollable sums place 9 kids receiving processed
unfolding PendingHeap.init
receiving_rollable = record {
  queue = record {
    count = refl;
    head = queue_holds.head;
    tail = queue_holds.tail;
    next = queue_holds.next;
    prev = queue_holds.prev;
    ne_null = queue_holds.ne_null;
    distinct = queue_holds.distinct;
    owned = λ i h. ground (arith, processed-at i);
  };
  heap = init-IsValid receiving.mem;
  few = omega arith;
  room = omega arith;
  distinct = (tt, tt);
  cancellable = (inr (inl (refl, (refl, refl))), tt);
  own = λ i h. own_kids i h;
  chains = λ i h. (all-IsReady i h).0;
  short = λ i h. omega (arith, (all-IsReady i h).2);
}

receiving-IsHistory : IsHistory sums place 9 kids receiving 0 processed 3
receiving-IsHistory = (2, 1, (1, 1, (0, 1, refl, refl, refl), refl, refl), refl, refl)

recv_local_event-Received_example :
    (c' : Chare ℕ ℕ) × (recv_local_event sums place 10 receiving 7 ≡ some c')
    × (gone : List Ptr) × (kept : List Ptr) × Received sums place 9 kids receiving 0 7 processed
        gone kept c'
recv_local_event-Received_example =
    recv_local_event-Received sums place 9 kids (λ s lp now d. ap (λ s. (s, d)) (omega arith)) refl
      receiving 0 7 processed receiving_rollable receiving-IsHistory refl (omega arith)

recv_local_event_late_example :
    (c' : Chare ℕ ℕ) × (recv_local_event sums place 10 receiving 7 ≡ some c')
    × (min_ts (events c') ≡ 15)
    × (15 < c'.next_ts)
unfolding PendingHeap.init
recv_local_event_late_example =
    recv_local_event_late sums place 9 kids (λ s lp now d. ap (λ s. (s, d)) (omega arith)) refl
      receiving 0 7 processed receiving_rollable receiving-IsHistory refl (omega arith)
      (λ x (i, h, e). absurd (omega arith)) (λ i h e. ground (arith, processed-at i)) (omega arith)
