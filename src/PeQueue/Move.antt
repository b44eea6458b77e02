-- ===== src/PeQueue/Move.antt =====
-- `PEQueue::update`, by which a chare announces the time of its next event.
use charades.Prelude.{ℕ, ◌≤◌, ◌≡◌, ◌↔◌, inl, inr, arith, Ptr, ltb, refl, Bool-cases, ltb→lt, ltb→le}
use charades.HeapOrder.{UpInv, DownInv, above}
use charades.PeQueue.{PeQueue, set_ts, push_down, update, key, Holds}
use charades.PeQueue.Slots.{Indexed}
use charades.PeQueue.Loops.{Restored, pull_up-Restored, push_down-Restored}
use charades.PeQueue.Valid.{IsValid, Timed}

-- What `update` of a token in the queue does to a valid queue.
abbrev pub Updated : PeQueue → Ptr → ℕ → PeQueue → Type 0
Updated q t time r =
    IsValid r × (r.size ≡ q.size) × ((u : Ptr) → Holds r u ↔ Holds q u) × Timed t time q r

module _ (q : PeQueue) (t : Ptr) (time : ℕ) (v : IsValid q) (h : Holds q t) where
  set_ts-UpInv : time ≤ q.ts t → UpInv q.size (key (set_ts q t time)) (q.index t)
  unfolding set_ts
  set_ts-UpInv le = record {
    edges = λ c a b ne. ground (arith, v.ordered c, v.indexed c, v.indexed (above c));
    bridged = λ c a b e d.
        ground
          (arith, v.ordered c, v.ordered (q.index t), v.indexed c, v.indexed (above (q.index t)));
  }

  set_ts-DownInv : q.ts t ≤ time → DownInv q.size (key (set_ts q t time)) (q.index t)
  unfolding set_ts
  set_ts-DownInv le = record {
    edges = λ c a b ne. ground (arith, v.ordered c, v.indexed c, v.indexed (above c));
    bridged = λ c a b e d.
        ground
          (arith, v.ordered c, v.ordered (q.index t), v.indexed c, v.indexed (above (q.index t)));
  }

  updated : (r : PeQueue) → Restored q.size (set_ts q t time) r → Updated q t time r
  unfolding set_ts
  updated r (heap, same) = (
    record {
      ordered = λ c a b. heap c a (omega arith);
      indexed = λ i a. same.indexed i (omega arith);
      fits = omega arith;
      room = omega arith;
    },
    same.size,
    λ u. (
      λ (a, b). same.there u (omega (arith, same.size), b),
      λ (a, b). (omega (arith, same.size, (same.here u (a, b)).0), (same.here u (a, b)).1),
    ),
    (ground (arith, same.ts t), λ u ne. ground (arith, same.ts u)),
  )

  set_ts-index : (set_ts q t time).index t ≡ q.index t
  unfolding set_ts
  set_ts-index = refl

  set_ts-Indexed : Indexed q.size (set_ts q t time)
  unfolding set_ts
  set_ts-Indexed = v.indexed

  push_down-set_ts :
      q.ts t ≤ time → Restored q.size (set_ts q t time) (push_down (set_ts q t time) (q.index t))
  unfolding set_ts
  push_down-set_ts le =
      push_down-Restored (set_ts q t time) (q.index t) h.0 (set_ts-DownInv le) v.indexed

-- Updating a token of a valid queue keeps the queue valid and its tokens the same, gives the token
-- the new time, and changes no other token's time.
pub update_moves :
    (q : PeQueue) (t : Ptr) (time : ℕ) → IsValid q → Holds q t → Updated q t time (update q t time)
unfolding update
update_moves q t time v h = rw (set_ts-index q t time v h) (elim (Bool-cases (ltb time (q.ts t))) [
  | inl e ↦ rw e (
      updated q t time v h _ (
        pull_up-Restored (set_ts q t time) (q.index t) h.0
          (set_ts-UpInv q t time v h (omega (arith, ltb→lt time (q.ts t) e)))
          (set_ts-Indexed q t time v h)))
  | inr e ↦ rw e (updated q t time v h _ (push_down-set_ts q t time v h (ltb→le time (q.ts t) e)))
])
