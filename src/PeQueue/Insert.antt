-- ===== src/PeQueue/Insert.antt =====
-- `PEQueue::insert`, which is how a chare registers its token.
use charades.Prelude.{ℕ, suc, ◌+◌, ◌<◌, ◌≡◌, ◌↔◌, ◌⊎◌, ◌≢◌, ◌∙◌, arith, Ptr, sym, subst}
use charades.HeapOrder.{above, UpInv}
use charades.PeQueue.{PeQueue, resize, append, pull_up, insert, key, Holds}
use charades.PeQueue.Slots.{Indexed, Filled}
use charades.PeQueue.Loops.{Restored, pull_up-Restored}
use charades.PeQueue.Valid.{IsValid, HoldsAlso, Timed}

-- A resize copies what the queue holds, and leaves a free slot.
record Resized (q r : PeQueue) : Type 0 where
  size : r.size ≡ q.size
  free : r.size < r.capacity
  cells : (i : ℕ) → i < q.size → r.heap i ≡ q.heap i
  ts : (t : Ptr) → r.ts t ≡ q.ts t
  index : (t : Ptr) → r.index t ≡ q.index t

resize-Resized : (fresh : ℕ → Ptr) (q : PeQueue) → IsValid q → Resized q (resize fresh q)
unfolding resize
resize-Resized fresh q v = record {
  size = ground arith;
  free = ground (arith, v.fits, v.room);
  cells = λ i h. ground (arith, v.fits);
  ts = λ t. ground arith;
  index = λ t. ground arith;
}

-- The queue with the token at the end of the array.
module _ (q r : PeQueue) (t : Ptr) (time : ℕ) (v : IsValid q) (out : ¬ Holds q t)
    (s : Resized q r) where
  apart : (i : ℕ) → i < q.size → q.heap i ≢ t
  apart i h e = out (ground (arith, v.indexed i))

  append-Indexed : Indexed (suc q.size) (append r t time)
  unfolding append
  append-Indexed i h = ground (arith, v.indexed i, s.cells i, s.index (q.heap i), apart i)

  append-UpInv : UpInv (suc q.size) (key (append r t time)) q.size
  unfolding append
  append-UpInv = record {
    edges = λ c a b ne. ground (
      arith,
      v.ordered c,
      s.cells c,
      s.cells (above c),
      s.ts (q.heap c),
      s.ts (q.heap (above c)),
      apart c,
      apart (above c),
    );
    bridged = λ c a b e d. absurd (omega arith);
  }

  append-Filled : (u : Ptr) → Filled (suc q.size) (append r t time) u ↔ (Holds q u ⊎ (u ≡ t))
  unfolding append
  append-Filled u = (
    λ h. ground (arith, s.cells (q.index u), s.index u),
    λ h. ground (arith, s.cells (q.index u), s.index u, v.indexed (q.index u)),
  )

  append-size : (append r t time).size ≡ q.size
  unfolding append
  append-size = s.size

  append-Timed : Timed t time q (append r t time)
  unfolding append
  append-Timed = (ground arith, λ u ne. ground (arith, s.ts u))

  append-capacity : (append r t time).size < (append r t time).capacity
  unfolding append
  append-capacity = s.free

  pulled : Restored (suc q.size) (append r t time) (pull_up (append r t time) q.size)
  pulled = pull_up-Restored (append r t time) q.size (omega arith) append-UpInv append-Indexed

-- What `insert` of a token that is not in the queue does to a valid queue.
abbrev pub Inserted : PeQueue → Ptr → ℕ → PeQueue → Type 0
Inserted q t time r = IsValid r × (r.size ≡ q.size + 1) × HoldsAlso t q r × Timed t time q r

inserted :
    (q a p : PeQueue) (t : Ptr) (time : ℕ)
    → a.size ≡ q.size
    → a.size < a.capacity
    → ((u : Ptr) → Filled (suc q.size) a u ↔ (Holds q u ⊎ (u ≡ t)))
    → Timed t time q a
    → Restored (suc q.size) a p
    → Inserted q t time (record p { size = p.size + 1 })
inserted q a p t time size free held timed (heap, same) = (
  record {
    ordered = λ c x y. heap c x (omega (arith, same.size));
    indexed = λ i h. same.indexed i (omega (arith, same.size));
    fits = omega (arith, same.size, same.capacity);
    room = omega (arith, same.capacity);
  },
  omega (arith, same.size),
  λ u. (
    λ (x, y). (held u).0 (same.there u (omega (arith, same.size), y)),
    λ h. let here = same.here u ((held u).1 h) in (omega (arith, same.size, here.0), here.1),
  ),
  (same.ts t ∙ timed.0, λ u ne. same.ts u ∙ timed.1 u ne),
)

-- Inserting a token that is not in the queue keeps the queue valid, whether or not the array has to
-- grow: the queue then holds its old tokens and the new one, which has the given time, and no other
-- token's time changes.
pub insert_adds :
    (fresh : ℕ → Ptr) (q : PeQueue) (t : Ptr) (time : ℕ)
    → IsValid q
    → ¬ Holds q t
    → Inserted q t time (insert fresh q t time)
unfolding insert
insert_adds fresh q t time v out =
    let s = resize-Resized fresh q v in
    let a = append (resize fresh q) t time in
    subst (λ k. let p = pull_up a k in Inserted q t time (record p { size = p.size + 1 }))
      (sym (append-size q (resize fresh q) t time v out s))
      (inserted q a (pull_up a q.size) t time (append-size q (resize fresh q) t time v out s)
        (append-capacity q (resize fresh q) t time v out s)
        (append-Filled q (resize fresh q) t time v out s)
        (append-Timed q (resize fresh q) t time v out s) (pulled q (resize fresh q) t time v out s))
