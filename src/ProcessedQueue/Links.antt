-- ===== src/ProcessedQueue/Links.antt =====
-- The sequence of events that a processed queue stands for.
use charades.Prelude.{
  ℕ, ◌+◌, ◌-◌, ◌<◌, ◌≡◌, ◌≢◌, refl, arith, Ptr, null, List, [], ◌==◌, if◌then◌else◌, length, at,
}
use charades.Event.{Events, rollback_q}
use charades.ProcessedQueue.{ProcessedQueue, init, max_ts, min_ts}

-- The queue holds the distinct events `xs`, in this order from the head, and owns them.
pub record IsQueue (q : ProcessedQueue) (xs : List Ptr) : Type 0 where
  pub count : q.length ≡ length xs
  pub head : q.head ≡ at xs 0
  pub tail : q.tail ≡ at xs (length xs - 1)
  pub next : (i : ℕ) → i < length xs → q.mem.next (at xs i) ≡ at xs (i + 1)
  pub prev :
      (i : ℕ) → i < length xs → q.mem.prev (at xs i) ≡ (if i == 0 then null else at xs (i - 1))
  pub ne_null : (i : ℕ) → i < length xs → at xs i ≢ null
  pub distinct : (i j : ℕ) → i < length xs → j < length xs → at xs i ≡ at xs j → i ≡ j
  pub owned : (i : ℕ) → i < length xs → q.mem.owner (at xs i) ≡ rollback_q

-- The event is not in the sequence.
abbrev pub IsFresh : Ptr → List Ptr → Type 0
IsFresh e xs = (i : ℕ) → i < length xs → at xs i ≢ e

pub init-IsQueue : (m : Events) → IsQueue (init m) []
unfolding init at
init-IsQueue m = record {
  count = refl;
  head = refl;
  tail = refl;
  next = λ i h. absurd (omega arith);
  prev = λ i h. absurd (omega arith);
  ne_null = λ i h. absurd (omega arith);
  distinct = λ i j h k e. absurd (omega arith);
  owned = λ i h. absurd (omega arith);
}

-- `max` of a queue that is not empty is the timestamp of its first event, and `min` that of its last.
pub ends-ts :
    (q : ProcessedQueue) (xs : List Ptr)
    → IsQueue q xs
    → 0 < length xs
    → (max_ts q ≡ q.mem.ts (at xs 0)) × (min_ts q ≡ q.mem.ts (at xs (length xs - 1)))
unfolding max_ts min_ts
ends-ts q xs v h =
    (ground (arith, v.head, v.ne_null 0), ground (arith, v.tail, v.ne_null (length xs - 1)))
