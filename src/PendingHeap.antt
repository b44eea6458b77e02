-- ===== src/PendingHeap.antt =====
-- collections/pending_heap.h: the events that a chare has still to execute, earliest first.
-- The methods change the index and owner fields of events, so they act on the memory of events
-- together with the fields of the queue. `NULL` is written where the source writes it.
-- Both loops take fuel: `percolate_up` runs at most `i + 1` rounds and `sift_down` at most `nelems`.
pub mod Slots
pub mod Loops
pub mod Shuffle
pub mod Valid
pub mod Push
pub mod Pop
pub mod Erase
pub mod Wrap
mod Tests
use charades.Prelude.{
  ℕ, zero, suc, ◌+◌, ◌-◌, ◌*◌, ◌/◌, ◌%◌, ◌<◌, ◌≡◌, Bool, true, false, ◌&&◌, not, Ptr, null, write,
  ltb, leb, ◌==◌, if◌then◌else◌, Option, none, some,
}
use charades.Event.{Events, Owner, event_null, chare_q, Compare, custom_less, u8, time_max}

pub record PendingHeap : Type 0 where
  pub mem : Events
  pub nelems : ℕ
  pub curr_max : ℕ
  pub elems : ℕ → Ptr

abbrev pub heap_increment : ℕ
heap_increment = 128

-- The constructor: `memset` clears the array.
unfoldable pub init : Events → PendingHeap
init mem = record { mem = mem; nelems = 0; curr_max = 2 * heap_increment; elems = λ i. null }

-- The macro `SWAP`.
unfoldable pub swap : PendingHeap → ℕ → ℕ → PendingHeap
swap h x y =
    let elems = write (write h.elems x (h.elems y)) y (h.elems x) in
    record h {
      elems = elems;
      mem = record h.mem { index = write (write h.mem.index (elems x) (u8 x)) (elems y) (u8 y) };
    }

unfoldable pub min_ts : PendingHeap → ℕ
min_ts h = if h.nelems == 0 then time_max else h.mem.ts (h.elems 0)

-- The array of `push`, larger by `heap_increment` when it is full; the new part is cleared.
unfoldable pub grow : PendingHeap → PendingHeap
grow h =
    if leb h.curr_max h.nelems
    then record h {
      curr_max = h.curr_max + heap_increment;
      elems = λ i. if ltb i h.curr_max then h.elems i else null;
    }
    else h

unfoldable pub append : PendingHeap → Ptr → PendingHeap
append h e = record h {
  mem = record h.mem {
    owner = write h.mem.owner e chare_q;
    index = write h.mem.index e (u8 h.nelems);
  };
  elems = write h.elems h.nelems e;
  nelems = h.nelems + 1;
}

-- The last entry moves to the root, and its old slot is cleared.
unfoldable pub cut_root : PendingHeap → PendingHeap
cut_root h =
    let last = h.nelems - 1 in
    let elems = write h.elems 0 (h.elems last) in
    record h {
      nelems = last;
      mem = record h.mem {
        owner = write h.mem.owner (h.elems 0) event_null;
        index = write h.mem.index (elems 0) 0;
      };
      elems = write elems last null;
    }

-- The last entry moves to slot `i`, and its old slot is cleared.
unfoldable pub cut : PendingHeap → ℕ → PendingHeap
cut h i =
    let last = h.nelems - 1 in
    let elems = write h.elems i (h.elems last) in
    record h {
      nelems = last;
      mem = record h.mem { index = write h.mem.index (elems i) (u8 i) };
      elems = write elems last null;
    }

module _ (compare : Compare) where
  -- The slot that a round of `percolate_up` moves the entry to.
  unfoldable pub ascent : PendingHeap → ℕ → ℕ
  ascent h child =
      let parent = (child - 1) / 2 in
      if custom_less compare h.mem (h.elems child) (h.elems parent) then parent else child

  unfoldable pub percolate_up_loop : ℕ → PendingHeap → ℕ → PendingHeap
  percolate_up_loop zero h child = h
  percolate_up_loop (suc fuel) h child =
      let temp_idx = ascent h child in
      let moved = percolate_up_loop fuel (swap h child temp_idx) temp_idx in
      if child == temp_idx then h else moved

  unfoldable pub percolate_up : PendingHeap → ℕ → PendingHeap
  percolate_up h i = if leb h.nelems 1 then h else percolate_up_loop (i + 1) h i

  -- The slot that a round of `sift_down` moves the entry to: each child in turn, if it is in use and
  -- strictly less.
  unfoldable pub descent_left : PendingHeap → ℕ → ℕ
  descent_left h parent =
      let left = 2 * parent + 1 in
      if ltb left h.nelems && custom_less compare h.mem (h.elems left) (h.elems parent)
      then left
      else parent

  unfoldable pub descent : PendingHeap → ℕ → ℕ
  descent h parent =
      let right = 2 * parent + 2 in
      let temp_idx = descent_left h parent in
      if ltb right h.nelems && custom_less compare h.mem (h.elems right) (h.elems temp_idx)
      then right
      else temp_idx

  unfoldable pub sift_down_loop : ℕ → PendingHeap → ℕ → PendingHeap
  sift_down_loop zero h parent = h
  sift_down_loop (suc fuel) h parent =
      let temp_idx = descent h parent in
      let moved = sift_down_loop fuel (swap h parent temp_idx) temp_idx in
      if parent == temp_idx then h else moved

  unfoldable pub sift_down : PendingHeap → ℕ → PendingHeap
  sift_down h i = if leb h.nelems 1 then h else sift_down_loop (h.nelems + 1) h i

  unfoldable pub push : PendingHeap → Ptr → PendingHeap
  push h e = let r = append (grow h) e in percolate_up r (r.nelems - 1)

  unfoldable pub pop : PendingHeap → Ptr × PendingHeap
  pop h = if h.nelems == 0 then (null, h) else (h.elems 0, sift_down (cut_root h) 0)

  -- `none` is the abort of a failed assertion.
  unfoldable pub erase : PendingHeap → Ptr → Option PendingHeap
  erase h victim =
      let i = h.mem.index victim in
      let last = h.nelems - 1 in
      let r = cut h i in
      let sifted =
        if leb (r.mem.ts (r.elems i)) (r.mem.ts victim) then percolate_up r i else sift_down r i in
      if h.nelems == 0
      then none
      else if not (ltb i h.nelems)
      then none
      else if not (h.mem.index (h.elems i) == i)
      then none
      else if i == last
      then some (record h { nelems = last; elems = write h.elems last null })
      else if last == 0
      then some (record h { nelems = last })
      else some sifted

-- The timestamp of the event in a slot.
abbrev pub key : PendingHeap → ℕ → ℕ
key h i = h.mem.ts (h.elems i)
