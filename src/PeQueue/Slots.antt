-- ===== src/PeQueue/Slots.antt =====
-- What one exchange of `PEQueue::swap` keeps, among the first `n` slots of the array.
use charades.Prelude.{ℕ, ◌≤◌, ◌<◌, ◌≡◌, refl, ◌∙◌, arith, Ptr}
use charades.HeapOrder.{exchanged}
use charades.PeQueue.{PeQueue, swap, key}

-- Each of the first `n` slots holds a token whose index field points back at the slot.
abbrev pub Indexed : ℕ → PeQueue → Type 0
Indexed n q = (i : ℕ) → i < n → q.index (q.heap i) ≡ i

-- The token is in one of the first `n` slots.
abbrev pub Filled : ℕ → PeQueue → Ptr → Type 0
Filled n q t = (q.index t < n) × (q.heap (q.index t) ≡ t)

-- `r` holds the tokens of `q` in the first `n` slots, perhaps elsewhere.
pub record Rearranged (n : ℕ) (q r : PeQueue) : Type 0 where
  pub size : r.size ≡ q.size
  pub capacity : r.capacity ≡ q.capacity
  pub ts : (t : Ptr) → r.ts t ≡ q.ts t
  pub indexed : Indexed n r
  pub here : (t : Ptr) → Filled n q t → Filled n r t
  pub there : (t : Ptr) → Filled n r t → Filled n q t
  pub beyond : (i : ℕ) → n ≤ i → r.heap i ≡ q.heap i

pub Rearranged-refl : (n : ℕ) (q : PeQueue) → Indexed n q → Rearranged n q q
Rearranged-refl n q v = record {
  size = refl;
  capacity = refl;
  ts = λ t. refl;
  indexed = v;
  here = λ t h. h;
  there = λ t h. h;
  beyond = λ i h. refl;
}

pub Rearranged-trans :
    {n : ℕ} {q r s : PeQueue} → Rearranged n q r → Rearranged n r s → Rearranged n q s
Rearranged-trans a b = record {
  size = b.size ∙ a.size;
  capacity = b.capacity ∙ a.capacity;
  ts = λ t. b.ts t ∙ a.ts t;
  indexed = b.indexed;
  here = λ t h. b.here t (a.here t h);
  there = λ t h. a.there t (b.there t h);
  beyond = λ i h. b.beyond i h ∙ a.beyond i h;
}

module _ (n : ℕ) (q : PeQueue) (i j : ℕ) where
  pub key-swap : (k : ℕ) → key (swap q i j) k ≡ exchanged (key q) i j k
  unfolding swap
  key-swap k = ground arith

  module _ (v : Indexed n q) (p : i < n) (p' : j < n) where
    swap-Indexed : Indexed n (swap q i j)
    unfolding swap
    swap-Indexed k h = ground (arith, v k, v i, v j)

    swap-here : (t : Ptr) → Filled n q t → Filled n (swap q i j) t
    unfolding swap
    swap-here t h = ground (arith, v i, v j)

    swap-there : (t : Ptr) → Filled n (swap q i j) t → Filled n q t
    unfolding swap
    swap-there t h = ground (arith, v i, v j)

    pub swap-Rearranged : Rearranged n q (swap q i j)
    unfolding swap
    swap-Rearranged = record {
      size = refl;
      capacity = refl;
      ts = λ t. refl;
      indexed = swap-Indexed;
      here = swap-here;
      there = swap-there;
      beyond = λ k h. ground arith;
    }
