-- ===== src/PeQueue.antt =====
-- collections/pe_queue.C: the queue of a processor, which orders its LP chares (their tokens) by
-- the time of their next events.
-- The fields of the tokens are memory that the queue and the caller share, so `index` and `ts` are
-- functions of the addresses of tokens. `heap` is the array; `write` is an assignment, and what the
-- source leaves uninitialised is a parameter. The loops take fuel: `pull_up` runs at most `index`
-- rounds, and `push_down` fewer than `size`.
pub mod Slots
pub mod Loops
pub mod Sinks
pub mod Valid
pub mod Top
pub mod Insert
pub mod Move
pub mod Remove
pub mod Disorder
mod Tests
use charades.Prelude.{
  ℕ, zero, suc, ◌+◌, ◌-◌, ◌*◌, ◌/◌, ◌≤◌, ◌<◌, ◌≡◌, Bool, Ptr, null, write, ltb, ◌==◌, if◌then◌else◌,
}

pub record PeQueue : Type 0 where
  pub capacity : ℕ
  pub size : ℕ
  pub heap : ℕ → Ptr
  -- the fields of each token
  pub index : Ptr → ℕ
  pub ts : Ptr → ℕ

-- The constructor, over the memory of the tokens and the new array.
unfoldable pub init : (Ptr → ℕ) → (Ptr → ℕ) → (ℕ → Ptr) → PeQueue
init index ts fresh = record { capacity = 32; size = 0; heap = fresh; index = index; ts = ts }

unfoldable pub top : PeQueue → Ptr
top q = if q.size == 0 then null else q.heap 0

unfoldable pub second : PeQueue → Ptr
second q =
    if ltb q.size 2
    then null
    else if q.size == 2
    then q.heap 1
    else if ltb (q.ts (q.heap 1)) (q.ts (q.heap 2))
    then q.heap 1
    else q.heap 2

unfoldable pub has_parent : ℕ → Bool
has_parent i = ltb 0 i

unfoldable pub parent : ℕ → ℕ
parent i = (i - 1) / 2

unfoldable pub left : ℕ → ℕ
left i = i * 2 + 1

unfoldable pub right : ℕ → ℕ
right i = i * 2 + 2

unfoldable pub has_left : PeQueue → ℕ → Bool
unfolding left
has_left q i = ltb (left i) q.size

unfoldable pub has_right : PeQueue → ℕ → Bool
unfolding right
has_right q i = ltb (right i) q.size

unfoldable pub smallest : PeQueue → ℕ → ℕ → ℕ
smallest q i j = if ltb (q.ts (q.heap i)) (q.ts (q.heap j)) then i else j

unfoldable pub largest : PeQueue → ℕ → ℕ → ℕ
largest q i j = if ltb (q.ts (q.heap i)) (q.ts (q.heap j)) then j else i

-- Both slots first, then the index fields, the second slot's last.
unfoldable pub swap : PeQueue → ℕ → ℕ → PeQueue
swap q i j =
    let heap = write (write q.heap i (q.heap j)) j (q.heap i) in
    record q { heap = heap; index = write (write q.index (heap i) i) (heap j) j }

unfoldable pub pull_up_loop : ℕ → PeQueue → ℕ → PeQueue
pull_up_loop zero q i = q
pull_up_loop (suc fuel) q i =
    let new_index = largest q i (parent i) in
    let moved = pull_up_loop fuel (swap q new_index i) new_index in
    let round = if new_index == i then q else moved in if has_parent i then round else q

unfoldable pub pull_up : PeQueue → ℕ → PeQueue
pull_up q i = pull_up_loop (i + 1) q i

-- The slot that `push_down` compares with: the smaller child, or the entry itself.
unfoldable pub descent : PeQueue → ℕ → ℕ
descent q i =
    let new_index = smallest q i (left i) in
    if has_right q i then smallest q new_index (right i) else new_index

unfoldable pub push_down_loop : ℕ → PeQueue → ℕ → PeQueue
push_down_loop zero q i = q
push_down_loop (suc fuel) q i =
    let new_index = descent q i in
    let moved = push_down_loop fuel (swap q new_index i) new_index in
    let round = if new_index == i then q else moved in if has_left q i then round else q

unfoldable pub push_down : PeQueue → ℕ → PeQueue
push_down q i = push_down_loop (q.size + 1) q i

-- A full array is copied to one of twice the capacity; `fresh` is what that held beyond the copy.
unfoldable pub resize : (ℕ → Ptr) → PeQueue → PeQueue
resize fresh q =
    if q.size == q.capacity
    then record q {
      heap = λ i. if ltb i q.capacity then q.heap i else fresh i;
      capacity = q.capacity * 2;
    }
    else q

-- The token goes to the end of the array, with its fields set.
unfoldable pub append : PeQueue → Ptr → ℕ → PeQueue
append q t time = record q {
  heap = write q.heap q.size t;
  index = write q.index t q.size;
  ts = write q.ts t time;
}

unfoldable pub insert : (ℕ → Ptr) → PeQueue → Ptr → ℕ → PeQueue
insert fresh q t time =
    let r = append (resize fresh q) t time in
    let s = pull_up r r.size in record s { size = s.size + 1 }

-- `size--` of the source wraps at 0; the callers remove only tokens that are in the queue.
unfoldable pub remove : PeQueue → Ptr → PeQueue
remove q t =
    let i = q.index t in
    let last = q.size - 1 in
    let r = record q { size = last } in
    let s = if i == last then r else push_down (swap r i last) i in
    record s { heap = write s.heap last null }

unfoldable pub set_ts : PeQueue → Ptr → ℕ → PeQueue
set_ts q t time = record q { ts = write q.ts t time }

unfoldable pub update : PeQueue → Ptr → ℕ → PeQueue
update q t time =
    let r = set_ts q t time in
    if ltb time (q.ts t) then pull_up r (r.index t) else push_down r (r.index t)

-- The timestamp of the token in a slot.
abbrev pub key : PeQueue → ℕ → ℕ
key q i = q.ts (q.heap i)

-- A token is in the queue if its index field points at a slot that holds it.
abbrev pub Holds : PeQueue → Ptr → Type 0
Holds q t = (q.index t < q.size) × (q.heap (q.index t) ≡ t)
