-- ===== src/PeQueue/Valid.antt =====
-- The invariant of the queue, and what it says of the tokens that the queue holds.
use charades.Prelude.{ℕ, ◌≤◌, ◌<◌, ◌≡◌, ◌↔◌, ◌⊎◌, ◌≢◌, arith, Ptr}
use charades.HeapOrder.{IsHeap}
use charades.PeQueue.{PeQueue, init, key, Holds}
use charades.PeQueue.Slots.{Indexed}

pub record IsValid (q : PeQueue) : Type 0 where
  pub ordered : IsHeap q.size (key q)
  pub indexed : Indexed q.size q
  pub fits : q.size ≤ q.capacity
  pub room : 0 < q.capacity

pub init-IsValid : (index ts : Ptr → ℕ) (fresh : ℕ → Ptr) → IsValid (init index ts fresh)
unfolding init
init-IsValid index ts fresh = record {
  ordered = λ c p h. absurd (omega arith);
  indexed = λ i h. absurd (omega arith);
  fits = omega arith;
  room = omega arith;
}

-- `r` holds the tokens of `q` and `t`, and nothing else.
abbrev pub HoldsAlso : Ptr → PeQueue → PeQueue → Type 0
HoldsAlso t q r = (u : Ptr) → Holds r u ↔ (Holds q u ⊎ (u ≡ t))

-- `r` holds the tokens of `q` less `t`, and nothing else.
abbrev pub HoldsLess : Ptr → PeQueue → PeQueue → Type 0
HoldsLess t q r = (u : Ptr) → Holds r u ↔ (Holds q u × (u ≢ t))

-- Only the timestamp of `t` differs, and it is `time`.
abbrev pub Timed : Ptr → ℕ → PeQueue → PeQueue → Type 0
Timed t time q r = (r.ts t ≡ time) × ((u : Ptr) → u ≢ t → r.ts u ≡ q.ts u)
