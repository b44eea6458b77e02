-- ===== src/ProcessedQueue.antt =====
-- collections/processed_queue.h: the events that a chare has executed and may have to roll back, in a
-- list that is linked both ways, the latest at the head.
-- The links are fields of events, so the methods act on the memory of events together with the
-- fields of the queue. `none` is the abort of a failed assertion.
pub mod Links
pub mod Front
pub mod Back
pub mod Erase
mod Tests
use charades.Prelude.{
  ℕ, ◌+◌, ◌-◌, ◌<◌, ◌≡◌, Bool, true, false, not, Ptr, null, write, ltb, ◌==◌, if◌then◌else◌, Option,
  none, some,
}
use charades.Event.{Events, Owner, event_null, chare_q, rollback_q, sent, time_max}

pub record ProcessedQueue : Type 0 where
  pub mem : Events
  pub length : ℕ
  pub head : Ptr
  pub tail : Ptr

unfoldable pub init : Events → ProcessedQueue
init mem = record { mem = mem; length = 0; head = null; tail = null }

-- `p->prev = q` and `p->next = q`, where the source tests that `p` is not null.
unfoldable pub set_prev : Events → Ptr → Ptr → Events
set_prev m p q = if p == null then m else record m { prev = write m.prev p q }

unfoldable pub set_next : Events → Ptr → Ptr → Events
set_next m p q = if p == null then m else record m { next = write m.next p q }

unfoldable pub push_front : ProcessedQueue → Ptr → ProcessedQueue
push_front q e =
    let m = record q.mem {
      owner = write q.mem.owner e rollback_q;
      next = write q.mem.next e q.head;
      prev = write q.mem.prev e null;
    } in
    record {
      mem = set_prev m q.head e;
      length = q.length + 1;
      head = e;
      tail = if q.tail == null then e else q.tail;
    }

unfoldable pub front : ProcessedQueue → Ptr
front q = q.head

unfoldable pub max_ts : ProcessedQueue → ℕ
max_ts q = if q.head == null then 0 else q.mem.ts q.head

unfoldable pub pop_front : ProcessedQueue → Option (Ptr × ProcessedQueue)
pop_front q =
    let e = q.head in
    let head = q.mem.next e in
    let m = set_prev q.mem head null in
    if q.length == 0
    then none
    else some (
      e,
      record {
        mem = record m { owner = write m.owner e event_null };
        length = q.length - 1;
        head = head;
        tail = if head == null then null else q.tail;
      },
    )

unfoldable pub push_back : ProcessedQueue → Ptr → ProcessedQueue
push_back q e =
    let m = record q.mem {
      owner = write q.mem.owner e rollback_q;
      prev = write q.mem.prev e q.tail;
    } in
    let m' = set_next m q.tail e in
    record {
      mem = record m' { next = write m'.next e null };
      length = q.length + 1;
      head = if q.head == null then e else q.head;
      tail = e;
    }

unfoldable pub back : ProcessedQueue → Ptr
back q = q.tail

unfoldable pub min_ts : ProcessedQueue → ℕ
min_ts q = if q.tail == null then time_max else q.mem.ts q.tail

unfoldable pub pop_back : ProcessedQueue → Option (Ptr × ProcessedQueue)
pop_back q =
    let e = q.tail in
    let tail = q.mem.prev e in
    let m = set_next q.mem tail null in
    if q.length == 0
    then none
    else some (
      e,
      record {
        mem = record m { owner = write m.owner e event_null };
        length = q.length - 1;
        head = if tail == null then null else q.head;
        tail = tail;
      },
    )

unfoldable pub is_rollback_q : Owner → Bool
is_rollback_q rollback_q = true
is_rollback_q event_null = false
is_rollback_q chare_q = false
is_rollback_q sent = false

unfoldable pub erase : ProcessedQueue → Ptr → Option ProcessedQueue
unfolding is_rollback_q
erase q e =
    let p = q.mem.prev e in
    let n = q.mem.next e in
    let m = record q.mem { owner = write q.mem.owner e event_null } in
    if q.length == 0
    then none
    else if not (is_rollback_q (q.mem.owner e))
    then none
    else some (record {
      mem = set_prev (set_next m p n) n p;
      length = q.length - 1;
      head = if p == null then n else q.head;
      tail = if n == null then p else q.tail;
    })
