-- ===== src/PeQueue/Remove.antt =====
-- `PEQueue::remove`, by which a chare that migrates takes its token out of the queue.
use charades.Prelude.{◌-◌, ◌≤◌, ◌<◌, ◌≡◌, ◌↔◌, ◌⊎◌, inl, inr, ◌≢◌, arith, Ptr, null, write, refl}
use charades.HeapOrder.{DownInv, above}
use charades.PeQueue.{PeQueue, swap, push_down, remove, key, Holds}
use charades.PeQueue.Slots.{Indexed, Filled, Rearranged}
use charades.PeQueue.Sinks.{Sunk, push_down-Sunk}
use charades.PeQueue.Valid.{IsValid, HoldsLess}

-- The queue before `push_down`: one token fewer, the last one in the place of `t`.
abbrev pub moved : PeQueue → Ptr → PeQueue
moved q t = swap (record q { size = q.size - 1 }) (q.index t) (q.size - 1)

module _ (q : PeQueue) (t : Ptr) (v : IsValid q) (h : Holds q t) where
  pub moved-Indexed : q.index t < q.size - 1 → Indexed (q.size - 1) (moved q t)
  unfolding swap
  moved-Indexed p k b = ground (arith, v.indexed k, v.indexed (q.size - 1))

  moved-Filled :
      q.index t < q.size - 1 → (u : Ptr) → Filled (q.size - 1) (moved q t) u ↔ (Holds q u × (u ≢ t))
  unfolding swap
  moved-Filled p u = (
    λ (a, b). ground (arith, v.indexed (q.size - 1), v.indexed ((moved q t).index u)),
    λ ((a, b), ne). ground (arith, v.indexed (q.size - 1)),
  )

  -- Where the last token is no earlier than the entry above the free slot, sifting down is enough.
  pub moved-DownInv :
      q.index t < q.size - 1
      → (0 < q.index t → key q (above (q.index t)) ≤ key q (q.size - 1))
      → DownInv (q.size - 1) (key (moved q t)) (q.index t)
  unfolding swap
  moved-DownInv p le = record {
    edges = λ c a b ne. ground (arith, v.ordered c);
    bridged = λ c a b e d. ground (arith, v.ordered c, v.ordered (q.index t));
  }

-- What `remove` leaves, given what it leaves before it clears the last slot.
record Left (q : PeQueue) (t : Ptr) (s : PeQueue) : Type 0 where
  size : s.size ≡ q.size - 1
  capacity : s.capacity ≡ q.capacity
  indexed : Indexed (q.size - 1) s
  held : (u : Ptr) → Filled (q.size - 1) s u ↔ (Holds q u × (u ≢ t))
  ts : (u : Ptr) → s.ts u ≡ q.ts u

Left-write :
    (q : PeQueue) (t : Ptr) (s : PeQueue)
    → Left q t s
    → Left q t (record s { heap = write s.heap (q.size - 1) null })
Left-write q t s l = record {
  size = l.size;
  capacity = l.capacity;
  indexed = λ i h. ground (arith, l.indexed i);
  held = λ u. (λ (a, b). (l.held u).0 (ground arith), λ h. ground (arith, (l.held u).1 h));
  ts = l.ts;
}

module _ (q : PeQueue) (t : Ptr) (v : IsValid q) (h : Holds q t) where
  pub moved-Sunk :
      q.index t < q.size - 1
      → Sunk (q.size - 1) (q.index t) (moved q t) (push_down (moved q t) (q.index t))
  unfolding swap
  moved-Sunk p = push_down-Sunk (moved q t) (q.index t) p (moved-Indexed q t v h p)

  moved-Left : q.index t < q.size - 1 → Left q t (push_down (moved q t) (q.index t))
  unfolding swap
  moved-Left p = record {
    size = r.size;
    capacity = r.capacity;
    indexed = r.indexed;
    held = λ u. (λ a. (filled u).0 (r.there u a), λ b. r.here u ((filled u).1 b));
    ts = r.ts;
  }
    where
      r : Rearranged (q.size - 1) (moved q t) (push_down (moved q t) (q.index t))
      r = (moved-Sunk p).0

      filled : (u : Ptr) → Filled (q.size - 1) (moved q t) u ↔ (Holds q u × (u ≢ t))
      filled = moved-Filled q t v h p

  last-Left : q.index t ≡ q.size - 1 → Left q t (record q { size = q.size - 1 })
  last-Left e = record {
    size = refl;
    capacity = refl;
    indexed = λ i p. v.indexed i (omega arith);
    held = λ u. (λ (a, b). ground arith, λ ((a, b), ne). ground (arith, v.indexed (q.index u)));
    ts = λ u. refl;
  }

  -- The two branches of `remove`, each less the write of the null pointer.
  pub remove-moved :
      q.index t < q.size - 1
      → remove q t ≡ (
          let s = push_down (moved q t) (q.index t) in
          record s { heap = write s.heap (q.size - 1) null })
  unfolding remove
  remove-moved p = ground arith

  pub remove-last :
      q.index t ≡ q.size - 1
      → remove q t ≡ record q { size = q.size - 1; heap = write q.heap (q.size - 1) null }
  unfolding remove
  remove-last e = ground arith

  pub last_or_moved : (q.index t ≡ q.size - 1) ⊎ (q.index t < q.size - 1)
  last_or_moved = omega (arith, h.0)

  remove-Left : Left q t (remove q t)
  remove-Left = elim last_or_moved [
    | inl e ↦ rw (remove-last e) (Left-write q t _ (last-Left e))
    | inr p ↦ rw (remove-moved p) (Left-write q t _ (moved-Left p))
  ]

-- What `remove` of a token in the queue does to a valid queue, whatever the order that it leaves.
abbrev pub Removed : PeQueue → Ptr → PeQueue → Type 0
Removed q t r =
    (r.size ≡ q.size - 1) × Indexed r.size r × HoldsLess t q r × ((u : Ptr) → r.ts u ≡ q.ts u)

-- Removing a token of a valid queue leaves exactly the other tokens, each with its index field at
-- its slot and with its timestamp.
pub remove_drops : (q : PeQueue) (t : Ptr) → IsValid q → Holds q t → Removed q t (remove q t)
remove_drops q t v h =
    let l = remove-Left q t v h in
    (
      l.size,
      λ i p. l.indexed i (omega (arith, l.size)),
      λ u. (
        λ (a, b). (l.held u).0 (omega (arith, l.size), b),
        λ a. let (b, c) = (l.held u).1 a in (omega (arith, l.size), c),
      ),
      l.ts,
    )

pub remove-capacity :
    (q : PeQueue) (t : Ptr) → IsValid q → Holds q t → (remove q t).capacity ≡ q.capacity
remove-capacity q t v h = (remove-Left q t v h).capacity
