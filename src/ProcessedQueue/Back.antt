-- ===== src/ProcessedQueue/Back.antt =====
-- The tail of the processed queue.
use charades.Prelude.{
  ℕ, ◌+◌, ◌-◌, ◌<◌, ◌≡◌, ◌≢◌, arith, Ptr, null, List, [], ◌∷◌, ◌++◌, ◌==◌, write, if◌then◌else◌,
  length, at, at-append, at-length, length-append, none, drop_last, at-drop_last, length-drop_last,
}
use charades.Event.{rollback_q, event_null}
use charades.ProcessedQueue.{ProcessedQueue, push_back, pop_back, set_next}
use charades.ProcessedQueue.Links.{IsQueue, IsFresh}
use charades.ProcessedQueue.Front.{Popped}

-- Pushing an event that is not null and not in the queue puts it at the end.
module _ (q : ProcessedQueue) (xs : List Ptr) (e : Ptr) (v : IsQueue q xs) (new : IsFresh e xs)
    (ne : e ≢ null) where
  abbrev longer : List Ptr
  longer = xs ++ e ∷ []

  length-longer : length longer ≡ length xs + 1
  length-longer = length-append xs (e ∷ [])

  push_back-next :
      (i : ℕ) → i < length longer → (push_back q e).mem.next (at longer i) ≡ at longer (i + 1)
  unfolding push_back set_next
  push_back-next i h = ground (
    arith,
    length-longer,
    at-append xs e i,
    at-append xs e (i + 1),
    v.next i,
    v.tail,
    v.distinct i (length xs - 1),
    v.ne_null (length xs - 1),
    new i,
    new (length xs - 1),
  )

  push_back-prev :
      (i : ℕ)
      → i < length longer
      → (push_back q e).mem.prev (at longer i) ≡ (if i == 0 then null else at longer (i - 1))
  unfolding push_back set_next
  push_back-prev i h = ground (
    arith,
    length-longer,
    at-append xs e i,
    at-append xs e (i - 1),
    v.prev i,
    v.tail,
    at-length xs (length xs - 1),
    new i,
  )

  push_back-owned :
      (i : ℕ) → i < length longer → (push_back q e).mem.owner (at longer i) ≡ rollback_q
  unfolding push_back set_next
  push_back-owned i h = ground (arith, length-longer, at-append xs e i, v.owned i)

  -- An event that is not in a queue of distinct, linked events, pushed at the back, is its last event,
  -- behind the others in their order.
  pub push_back-append : IsQueue (push_back q e) longer
  push_back-append = record {
    count = unfold push_back in omega (arith, v.count, length-longer);
    head =
        unfold push_back in ground (arith, at-append xs e 0, v.head, v.ne_null 0, at-length xs 0);
    tail = unfold push_back in ground (arith, length-longer, at-append xs e (length longer - 1));
    next = push_back-next;
    prev = push_back-prev;
    ne_null = λ i h. ground (arith, length-longer, at-append xs e i, v.ne_null i);
    distinct = λ i j h k s.
        ground
          (arith, length-longer, at-append xs e i, at-append xs e j, v.distinct i j, new i, new j);
    owned = push_back-owned;
  }

-- The queue before the last event.
abbrev popped_back : ProcessedQueue → ProcessedQueue
popped_back q =
    let tail = q.mem.prev q.tail in
    let m = set_next q.mem tail null in
    record {
      mem = record m { owner = write m.owner q.tail event_null };
      length = q.length - 1;
      head = if tail == null then null else q.head;
      tail = tail;
    }

-- Popping at the back of a queue that is not empty returns the last event, which has no owner any more.
module _ (q : ProcessedQueue) (xs : List Ptr) (v : IsQueue q xs) (some_left : 0 < length xs) where
  popped_back-next :
      (i : ℕ)
      → i < length (drop_last xs)
      → (popped_back q).mem.next (at (drop_last xs) i) ≡ at (drop_last xs) (i + 1)
  unfolding set_next
  popped_back-next i h = ground (
    arith,
    length-drop_last xs,
    at-drop_last xs i,
    at-drop_last xs (i + 1),
    v.next i,
    v.tail,
    v.prev (length xs - 1),
    v.distinct i (length xs - 1 - 1),
    v.ne_null (length xs - 1 - 1),
  )

  popped_back-IsQueue : IsQueue (popped_back q) (drop_last xs)
  unfolding set_next
  popped_back-IsQueue = record {
    count = omega (arith, v.count, length-drop_last xs);
    head = ground (
      arith,
      length-drop_last xs,
      at-drop_last xs 0,
      v.head,
      v.tail,
      v.prev (length xs - 1),
      v.ne_null (length xs - 1 - 1),
    );
    tail = ground (
      arith,
      length-drop_last xs,
      at-drop_last xs (length (drop_last xs) - 1),
      v.tail,
      v.prev (length xs - 1),
    );
    next = popped_back-next;
    prev = λ i h.
        ground (arith, length-drop_last xs, at-drop_last xs i, at-drop_last xs (i - 1), v.prev i);
    ne_null = λ i h. ground (arith, length-drop_last xs, at-drop_last xs i, v.ne_null i);
    distinct = λ i j h k s.
        ground (arith, length-drop_last xs, at-drop_last xs i, at-drop_last xs j, v.distinct i j);
    owned = λ i h. ground (
      arith,
      length-drop_last xs,
      at-drop_last xs i,
      v.owned i,
      v.tail,
      v.distinct i (length xs - 1),
    );
  }

  -- Popping a queue of linked events at the back returns the last event, with no owner any more, and
  -- leaves the others linked in their order.
  pub pop_back-drop_last : Popped (at xs (length xs - 1)) (drop_last xs) (pop_back q)
  unfolding pop_back
  pop_back-drop_last =
      (popped_back q, ground (arith, v.count, v.tail), popped_back-IsQueue, ground (arith, v.tail))

-- Popping an empty queue fails its assertion.
pub pop_back-nil : (q : ProcessedQueue) → IsQueue q [] → pop_back q ≡ none
unfolding pop_back
pop_back-nil q v = ground (arith, v.count)
