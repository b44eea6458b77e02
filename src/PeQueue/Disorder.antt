-- ===== src/PeQueue/Disorder.antt =====
-- The heap order after `PEQueue::remove`, which sifts the moved token down and never up.
use charades.Prelude.{◌-◌, ◌≤◌, ◌<◌, ◌≡◌, ◌↔◌, ◌⊎◌, inl, inr, ◌≢◌, arith, Ptr}
use charades.HeapOrder.{IsHeap, above}
use charades.PeQueue.{PeQueue, top, swap, push_down, remove, key, Holds}
use charades.PeQueue.Loops.{Restored, push_down-Restored}
use charades.PeQueue.Sinks.{push_down_still}
use charades.PeQueue.Valid.{IsValid}
use charades.PeQueue.Top.{top_earliest}
use charades.PeQueue.Remove.{
  moved, moved-Indexed, moved-DownInv, moved-Sunk, remove-moved, remove-last, last_or_moved,
  remove_drops, remove-capacity,
}

module _ (q : PeQueue) (t : Ptr) (v : IsValid q) (h : Holds q t) where
  -- The last token, which takes the place of `t`, is no earlier than the entry above that place.
  abbrev pub Late : Type 0
  Late = 0 < q.index t → key q (above (q.index t)) ≤ key q (q.size - 1)

  moved-Restored :
      q.index t < q.size - 1
      → Late
      → Restored (q.size - 1) (moved q t) (push_down (moved q t) (q.index t))
  unfolding swap
  moved-Restored p late =
      push_down-Restored (moved q t) (q.index t) p (moved-DownInv q t v h p late)
        (moved-Indexed q t v h p)

  -- Nothing below the free slot is as early as a token that is earlier than the entry above it.
  moved_still :
      q.index t < q.size - 1
      → 0 < q.index t
      → key q (q.size - 1) < key q (above (q.index t))
      → push_down (moved q t) (q.index t) ≡ moved q t
  unfolding swap
  moved_still p z early =
      push_down_still (moved q t) (q.index t)
        (λ c a b e. ground (arith, v.ordered c, v.ordered (q.index t)))

  ordered_of_late : Late → IsHeap (q.size - 1) (key (remove q t))
  ordered_of_late late = elim (last_or_moved q t v h) [
    | inl e ↦ rw (remove-last q t v h e) λ c a b. ground (arith, v.ordered c)
    | inr p ↦
        let r = (moved-Restored p late).0 in
        rw (remove-moved q t v h p) λ c a b. ground (arith, r c)
  ]

  ordered_not_early :
      q.index t < q.size - 1
      → 0 < q.index t
      → key q (q.size - 1) < key q (above (q.index t))
      → ¬ IsHeap (q.size - 1) (key (remove q t))
  unfolding swap
  ordered_not_early p z early =
      rw (remove-moved q t v h p, moved_still p z early)
        λ heap. absurd (ground (arith, heap (q.index t)))

  late_of_ordered : IsHeap (q.size - 1) (key (remove q t)) → Late
  late_of_ordered heap z = elim (last_or_moved q t v h) [
    | inl e ↦ ground (arith, v.ordered (q.index t))
    | inr p ↦ grind (arith, ordered_not_early p z)
  ]

  moved-heap_root : q.index t < q.size - 1 → 0 < q.index t → (moved q t).heap 0 ≡ q.heap 0
  unfolding swap
  moved-heap_root p z = ground arith

  remove-heap_root : 0 < q.index t → (remove q t).heap 0 ≡ q.heap 0
  remove-heap_root z = elim (last_or_moved q t v h) [
    | inl e ↦ rw (remove-last q t v h e) (ground arith)
    | inr p ↦
        let same = (moved-Sunk q t v h p).1 0 z in
        rw (remove-moved q t v h p) (ground (arith, same, moved-heap_root p z))
  ]

-- Removing a token of a valid queue leaves a valid queue exactly when the token was the root, or the
-- last token of the array was no earlier than the entry above the removed one.
pub remove-IsValid_iff :
    (q : PeQueue) (t : Ptr)
    → IsValid q
    → Holds q t
    → IsValid (remove q t) ↔ ((q.index t ≡ 0) ⊎ (key q (above (q.index t)) ≤ key q (q.size - 1)))
remove-IsValid_iff q t v h =
    let (size, indexed, held, ts) = remove_drops q t v h in
    let cap = remove-capacity q t v h in
    (
      λ w.
          let late = late_of_ordered q t v h (λ c a b. w.ordered c a (omega arith)) in
          omega (arith, late),
      λ late.
          let r = ordered_of_late q t v h (λ z. ground arith) in
          record {
            ordered = λ c a b. r c a (omega arith);
            indexed = indexed;
            fits = omega (arith, v.fits);
            room = omega (arith, v.room);
          },
    )

-- Removing any token but the top one of a valid queue leaves the top as it was, and it is still no
-- later than any other token, even where the order of the rest is lost.
pub remove-top_earliest :
    (q : PeQueue) (t : Ptr)
    → IsValid q
    → Holds q t
    → t ≢ top q
    → (top (remove q t) ≡ top q)
      × ((u : Ptr) → Holds (remove q t) u → (remove q t).ts (top q) ≤ (remove q t).ts u)
unfolding top
remove-top_earliest q t v h ne =
    let (size, indexed, held, ts) = remove_drops q t v h in
    let z : 0 < q.index t = ground arith in
    let least = (top_earliest q v (omega (arith, h.0))).1 in
    (
      ground (arith, remove-heap_root q t v h z),
      λ u k. ground (arith, ts (q.heap 0), ts u, least u, held u),
    )
