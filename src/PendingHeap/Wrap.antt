-- ===== src/PendingHeap/Wrap.antt =====
-- `PendingHeap::erase` in a heap of more than 256 events, where slots no longer fit the index field.
use charades.Prelude.{ℕ, ◌-◌, ◌%◌, ◌≤◌, ◌<◌, ◌≡◌, refl, arith, Ptr, some, leb, Bool-cases, inl, inr}
use charades.Event.{Compare}
use charades.PendingHeap.{PendingHeap, cut, erase}
use charades.PendingHeap.Slots.{Rearranged}
use charades.PendingHeap.Shuffle.{percolate_up-Rearranged, sift_down-Rearranged}
use charades.PendingHeap.Valid.{Holds, IsValid, HoldsLess, Restored-Holds}
use charades.PendingHeap.Erase.{
  cut-Distinct, cut-Indexed, cut-Holds, cut-nelems, settle, erase-settle,
}

settle-Rearranged :
    (compare : Compare) (h : PendingHeap) (v : IsValid h) (victim : Ptr) (i : ℕ)
    → i < h.nelems - 1
    → Rearranged (cut h i).nelems (cut h i) (settle compare (cut h i) victim i)
settle-Rearranged compare h v victim i p =
    elim (Bool-cases (leb ((cut h i).mem.ts ((cut h i).elems i)) ((cut h i).mem.ts victim))) [
      | inl e ↦ rw e (
          percolate_up-Rearranged compare (cut h i) i within (cut-Distinct h v i p)
            (cut-Indexed h v i p))
      | inr e ↦ rw e (
          sift_down-Rearranged compare (cut h i) i within (cut-Distinct h v i p)
            (cut-Indexed h v i p))
    ]
  where
    within : i < (cut h i).nelems
    within = rw (cut-nelems h v i p) p

-- Erasing the event in a slot of a valid heap past the first 256 succeeds, and takes out another
-- event instead: the one in the slot that the wrapped index names. The victim stays.
pub erase_wrong :
    (compare : Compare) (h : PendingHeap) (i : ℕ)
    → IsValid h
    → 256 ≤ i
    → i < h.nelems
    → (r : PendingHeap) × (erase compare h (h.elems i) ≡ some r)
      × Holds r (h.elems i)
      × HoldsLess (h.elems (i % 256)) h r
erase_wrong compare h i v past p = (
  settle compare (cut h j) (h.elems i) j,
  erase-settle compare h (h.elems i) j q (v.indexed i p) (omega (arith, v.indexed j (omega arith))),
  (held (h.elems i)).1 ((i, p, refl), λ e. omega (arith, v.distinct i j p (omega arith) e)),
  held,
)
  where
    j : ℕ
    j = i % 256

    q : j < h.nelems - 1
    q = omega arith

    r : Rearranged (cut h j).nelems (cut h j) (settle compare (cut h j) (h.elems i) j)
    r = settle-Rearranged compare h v (h.elems i) j q

    held : HoldsLess (h.elems j) h (settle compare (cut h j) (h.elems i) j)
    held u = (
      λ w. (cut-Holds h v j q u).0 ((Restored-Holds r u).0 w),
      λ w. (Restored-Holds r u).1 ((cut-Holds h v j q u).1 w),
    )
