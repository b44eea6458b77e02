-- ===== src/ProcessedQueue/Erase.antt =====
-- Taking an event out of the middle of the processed queue.
use charades.Prelude.{
  ℕ, ◌+◌, ◌-◌, ◌<◌, ◌≡◌, arith, Ptr, null, List, ◌==◌, write, if◌then◌else◌, length, at, at-length,
  some, remove_at, at-remove_at, length-remove_at,
}
use charades.Event.{rollback_q, event_null}
use charades.ProcessedQueue.{ProcessedQueue, erase, set_prev, set_next}
use charades.ProcessedQueue.Links.{IsQueue}

-- The queue without an event of it.
abbrev erased : ProcessedQueue → Ptr → ProcessedQueue
erased q e =
    let p = q.mem.prev e in
    let n = q.mem.next e in
    let m = record q.mem { owner = write q.mem.owner e event_null } in
    record {
      mem = set_prev (set_next m p n) n p;
      length = q.length - 1;
      head = if p == null then n else q.head;
      tail = if n == null then p else q.tail;
    }

module _ (q : ProcessedQueue) (xs : List Ptr) (k : ℕ) (v : IsQueue q xs) (h : k < length xs) where
  abbrev shorter : List Ptr
  shorter = remove_at k xs

  abbrev rest : ProcessedQueue
  rest = erased q (at xs k)

  at_neighbours :
      (q.mem.next (at xs k) ≡ at xs (k + 1))
      × (q.mem.prev (at xs k) ≡ (if k == 0 then null else at xs (k - 1)))
      × (length shorter ≡ length xs - 1)
  at_neighbours = (v.next k h, v.prev k h, length-remove_at k xs h)

  erased-next : (i : ℕ) → i < length shorter → rest.mem.next (at shorter i) ≡ at shorter (i + 1)
  unfolding set_prev set_next
  erased-next i a = ground (
    arith,
    at_neighbours,
    at-remove_at k xs i,
    at-remove_at k xs (i + 1),
    v.next i,
    v.next (i + 1),
    v.distinct i (k - 1),
    v.distinct (i + 1) (k - 1),
    v.ne_null (k - 1),
  )

  erased-prev :
      (i : ℕ)
      → i < length shorter
      → rest.mem.prev (at shorter i) ≡ (if i == 0 then null else at shorter (i - 1))
  unfolding set_prev set_next
  erased-prev i a = ground (
    arith,
    at_neighbours,
    at-remove_at k xs i,
    at-remove_at k xs (i - 1),
    at-length xs (k + 1),
    v.prev i,
    v.prev (i + 1),
    v.distinct i (k + 1),
    v.distinct (i + 1) (k + 1),
    v.ne_null (k + 1),
  )

  erased-head : rest.head ≡ at shorter 0
  unfolding set_prev set_next
  erased-head = ground (arith, at_neighbours, at-remove_at k xs 0, v.head, v.ne_null (k - 1))

  erased-tail : rest.tail ≡ at shorter (length shorter - 1)
  unfolding set_prev set_next
  erased-tail = ground (
    arith,
    at_neighbours,
    at-remove_at k xs (length shorter - 1),
    at-length xs (k + 1),
    at-length shorter (length shorter - 1),
    v.tail,
    v.ne_null (k + 1),
  )

  erased-owned : (i : ℕ) → i < length shorter → rest.mem.owner (at shorter i) ≡ rollback_q
  unfolding set_prev set_next
  erased-owned i a = ground (
    arith,
    at_neighbours,
    at-remove_at k xs i,
    v.owned i,
    v.owned (i + 1),
    v.distinct i k,
    v.distinct (i + 1) k,
  )

  erased-IsQueue : IsQueue rest shorter
  erased-IsQueue = record {
    count = omega (arith, v.count, at_neighbours);
    head = erased-head;
    tail = erased-tail;
    next = erased-next;
    prev = erased-prev;
    ne_null =
        λ i a. ground (arith, at_neighbours, at-remove_at k xs i, v.ne_null i, v.ne_null (i + 1));
    distinct = λ i j a b s. ground (
      arith,
      at_neighbours,
      at-remove_at k xs i,
      at-remove_at k xs j,
      v.distinct i j,
      v.distinct (i + 1) j,
      v.distinct i (j + 1),
      v.distinct (i + 1) (j + 1),
    );
    owned = erased-owned;
  }

-- Erasing the event at any position of a queue of linked events succeeds, and leaves the others
-- linked in their order and the event with no owner.
pub erase-remove_at :
    (q : ProcessedQueue) (xs : List Ptr) (k : ℕ)
    → IsQueue q xs
    → k < length xs
    → (r : ProcessedQueue) × (erase q (at xs k) ≡ some r)
      × IsQueue r (remove_at k xs)
      × (r.mem.owner (at xs k) ≡ event_null)
unfolding erase set_prev set_next
erase-remove_at q xs k v h = (
  erased q (at xs k),
  ground (arith, v.count, v.owned k h),
  erased-IsQueue q xs k v h,
  ground arith,
)
