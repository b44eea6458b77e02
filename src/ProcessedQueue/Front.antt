-- ===== src/ProcessedQueue/Front.antt =====
-- The head of the processed queue.
use charades.Prelude.{
  ℕ, ◌+◌, ◌-◌, ◌<◌, ◌≡◌, ◌≢◌, arith, Ptr, null, List, [], ◌∷◌, ◌==◌, write, if◌then◌else◌, length,
  at, at-cons, at-length, Option, some, none,
}
use charades.Event.{rollback_q, event_null}
use charades.ProcessedQueue.{ProcessedQueue, push_front, pop_front, set_prev}
use charades.ProcessedQueue.Links.{IsQueue, IsFresh}

-- Pushing an event that is not null and not in the queue puts it in front.
module _ (q : ProcessedQueue) (xs : List Ptr) (e : Ptr) (v : IsQueue q xs) (new : IsFresh e xs)
    (ne : e ≢ null) where
  push_front-next :
      (i : ℕ)
      → i < length (e ∷ xs)
      → (push_front q e).mem.next (at (e ∷ xs) i) ≡ at (e ∷ xs) (i + 1)
  unfolding push_front set_prev
  push_front-next i h =
      ground (arith, at-cons e xs i, at-cons e xs (i + 1), v.next (i - 1), v.head, new (i - 1))

  push_front-prev :
      (i : ℕ)
      → i < length (e ∷ xs)
      → (push_front q e).mem.prev (at (e ∷ xs) i) ≡ (if i == 0 then null else at (e ∷ xs) (i - 1))
  unfolding push_front set_prev
  push_front-prev i h = ground (
    arith,
    at-cons e xs i,
    at-cons e xs (i - 1),
    v.prev (i - 1),
    v.head,
    v.distinct 0 (i - 1),
    v.ne_null 0,
    at-length xs 0,
    new 0,
    new (i - 1),
  )

  push_front-owned :
      (i : ℕ) → i < length (e ∷ xs) → (push_front q e).mem.owner (at (e ∷ xs) i) ≡ rollback_q
  unfolding push_front set_prev
  push_front-owned i h = ground (arith, at-cons e xs i, v.owned (i - 1))

  -- An event that is not in a queue of distinct, linked events, pushed at the front, is its first
  -- event, and the others follow in their order.
  pub push_front-cons : IsQueue (push_front q e) (e ∷ xs)
  push_front-cons = record {
    count = unfold push_front in omega (arith, v.count);
    head = unfold push_front in ground (arith, at-cons e xs 0);
    tail =
        unfold push_front in
        ground (
          arith,
          at-cons e xs (length xs),
          v.tail,
          v.ne_null (length xs - 1),
          at-length xs (length xs - 1),
        );
    next = push_front-next;
    prev = push_front-prev;
    ne_null = λ i h. ground (arith, at-cons e xs i, v.ne_null (i - 1));
    distinct = λ i j h k s. ground (
      arith,
      at-cons e xs i,
      at-cons e xs j,
      v.distinct (i - 1) (j - 1),
      new (i - 1),
      new (j - 1),
    );
    owned = push_front-owned;
  }

-- What a pop returns that takes the event `e` from the queue and leaves `xs`.
abbrev pub Popped : Ptr → List Ptr → Option (Ptr × ProcessedQueue) → Type 0
Popped e xs r =
    (q : ProcessedQueue) × (r ≡ some (e, q)) × IsQueue q xs × (q.mem.owner e ≡ event_null)

-- The queue behind the first event.
abbrev popped_front : ProcessedQueue → ProcessedQueue
popped_front q =
    let head = q.mem.next q.head in
    let m = set_prev q.mem head null in
    record {
      mem = record m { owner = write m.owner q.head event_null };
      length = q.length - 1;
      head = head;
      tail = if head == null then null else q.tail;
    }

module _ (q : ProcessedQueue) (xs : List Ptr) (e : Ptr) (v : IsQueue q (e ∷ xs)) where
  popped_front-prev :
      (i : ℕ)
      → i < length xs
      → (popped_front q).mem.prev (at xs i) ≡ (if i == 0 then null else at xs (i - 1))
  unfolding set_prev
  popped_front-prev i h = ground (
    arith,
    at-cons e xs (i + 1),
    at-cons e xs i,
    at-cons e xs 1,
    at-cons e xs 0,
    v.head,
    v.next 0,
    v.prev (i + 1),
    v.distinct 1 (i + 1),
    v.ne_null 1,
  )

  popped_front-IsQueue : IsQueue (popped_front q) xs
  unfolding set_prev
  popped_front-IsQueue = record {
    count = omega (arith, v.count);
    head = ground (arith, at-cons e xs 1, at-cons e xs 0, v.head, v.next 0);
    tail = ground (
      arith,
      at-cons e xs 1,
      at-cons e xs 0,
      at-cons e xs (length xs),
      at-length xs (length xs - 1),
      at-length xs 0,
      v.head,
      v.next 0,
      v.tail,
      v.ne_null 1,
    );
    next = λ i h. ground (arith, at-cons e xs (i + 1), at-cons e xs (i + 2), v.next (i + 1));
    prev = popped_front-prev;
    ne_null = λ i h. ground (arith, at-cons e xs (i + 1), v.ne_null (i + 1));
    distinct = λ i j h k s.
        ground (arith, at-cons e xs (i + 1), at-cons e xs (j + 1), v.distinct (i + 1) (j + 1));
    owned = λ i h. ground (
      arith,
      at-cons e xs (i + 1),
      at-cons e xs 0,
      v.head,
      v.owned (i + 1),
      v.distinct 0 (i + 1),
    );
  }

  -- Popping a queue of linked events at the front returns the first event, with no owner any more, and
  -- leaves the others linked in their order.
  pub pop_front-cons : Popped e xs (pop_front q)
  unfolding pop_front
  pop_front-cons = (
    popped_front q,
    ground (arith, v.count, v.head, at-cons e xs 0),
    popped_front-IsQueue,
    ground (arith, v.head, at-cons e xs 0),
  )

-- Popping an empty queue fails its assertion.
pub pop_front-nil : (q : ProcessedQueue) → IsQueue q [] → pop_front q ≡ none
unfolding pop_front
pop_front-nil q v = ground (arith, v.count)
