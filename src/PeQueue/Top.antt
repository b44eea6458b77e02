-- ===== src/PeQueue/Top.antt =====
-- What a scheduler learns from the queue: the earliest token, and the one after it.
use charades.Prelude.{ℕ, zero, suc, ◌≤◌, ◌<◌, ◌⊎◌, ◌≢◌, arith, Ptr}
use charades.HeapOrder.{IsHeap, above, root_least}
use charades.PeQueue.{PeQueue, top, second, key, Holds}
use charades.PeQueue.Valid.{IsValid}

-- In heap order every entry but the root is no earlier than one of the root's children.
second_least :
    (fuel n : ℕ) (key : ℕ → ℕ) (i : ℕ)
    → IsHeap n key
    → i < fuel
    → 0 < i
    → i < n
    → (key 1 ≤ key i) ⊎ ((2 < n) × (key 2 ≤ key i))
second_least zero n key i h f a b = absurd (omega arith)
second_least (suc fuel) n key i h f a b = ground (arith, h i, second_least fuel n key (above i) h)

-- In a valid queue that is not empty, `top` is a token of the queue, and no token of it is earlier.
pub top_earliest :
    (q : PeQueue)
    → IsValid q
    → 0 < q.size
    → Holds q (top q) × ((t : Ptr) → Holds q t → q.ts (top q) ≤ q.ts t)
unfolding top
top_earliest q v h = (
  ground (arith, v.indexed 0),
  λ t (p, e). ground (arith, root_least (key q) (q.index t) v.ordered p),
)

-- In a valid queue of two tokens or more, `second` is another token of the queue than `top`, and no
-- token but `top` is earlier.
pub second_earliest :
    (q : PeQueue)
    → IsValid q
    → 1 < q.size
    → Holds q (second q)
      × (second q ≢ top q)
      × ((t : Ptr) → Holds q t → t ≢ top q → q.ts (second q) ≤ q.ts t)
unfolding top second
second_earliest q v h = (
  ground (arith, v.indexed 1, v.indexed 2),
  λ e. absurd (ground (arith, v.indexed 0, v.indexed 1, v.indexed 2)),
  λ t (p, e) ne.
      ground (arith, second_least (suc (q.index t)) q.size (key q) (q.index t) v.ordered),
)
