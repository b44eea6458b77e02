-- ===== src/PendingHeap/Shuffle.antt =====
-- The loops of the pending heap only rearrange the events, whatever the order that they find.
use charades.Prelude.{ℕ, zero, suc, ◌+◌, ◌<◌, ◌≡◌, ◌⊎◌, inl, inr, arith, Bool-cases, leb, refl}
use charades.HeapOrder.{above}
use charades.Event.{Compare}
use charades.PendingHeap.{
  PendingHeap, swap, ascent, percolate_up_loop, percolate_up, descent, sift_down_loop, sift_down,
}
use charades.PendingHeap.Slots.{
  Distinct, Indexed, Rearranged, Rearranged-refl, Rearranged-trans, swap-Rearranged,
}
use charades.PendingHeap.Loops.{
  ascent_cases, percolate_up_loop-stop, percolate_up_loop-move, descent_place, sift_down_loop-stop,
  sift_down_loop-move, swap-nelems,
}

module _ (compare : Compare) {n : ℕ} where
  percolate_up_loop-Rearranged :
      (fuel : ℕ) (h : PendingHeap) (i : ℕ)
      → i < n
      → Distinct n h
      → Indexed n h
      → Rearranged n h (percolate_up_loop compare fuel h i)
  percolate_up_loop-Rearranged zero h i p d v = unfold percolate_up_loop in Rearranged-refl n h d v
  percolate_up_loop-Rearranged (suc fuel) h i p d v =
      elim (ascent_place i (ascent_cases compare h i)) [
        | inr e ↦ rw (percolate_up_loop-stop compare fuel h i e) (Rearranged-refl n h d v)
        | inl q ↦
            let j = ascent compare h i in
            let s = swap-Rearranged n h i j d v p (omega arith) in
            rw (percolate_up_loop-move compare fuel h i q) (
              Rearranged-trans s (
                percolate_up_loop-Rearranged fuel (swap h i j) j (omega arith) s.distinct
                  s.indexed))
      ]
    where
      ascent_place :
          {A B : Type 0} (i : ℕ) {j : ℕ} → ((j ≡ above i) × A) ⊎ ((j ≡ i) × B) → (j < i) ⊎ (j ≡ i)
      ascent_place zero c = omega arith
      ascent_place (suc i) c = omega arith

  sift_down_loop-Rearranged :
      (fuel : ℕ) (h : PendingHeap) (i : ℕ)
      → h.nelems ≡ n
      → i < n
      → Distinct n h
      → Indexed n h
      → Rearranged n h (sift_down_loop compare fuel h i)
  sift_down_loop-Rearranged zero h i z p d v = unfold sift_down_loop in Rearranged-refl n h d v
  sift_down_loop-Rearranged (suc fuel) h i z p d v = elim (descent_place compare h i) [
    | inl e ↦ rw (sift_down_loop-stop compare fuel h i e) (Rearranged-refl n h d v)
    | inr (a, b, e) ↦
        let j = descent compare h i in
        let s = swap-Rearranged n h i j d v p (omega arith) in
        rw (sift_down_loop-move compare fuel h i a) (
          Rearranged-trans s (
            sift_down_loop-Rearranged fuel (swap h i j) j (rw (swap-nelems compare) z) (omega arith)
              s.distinct s.indexed))
  ]

module _ (compare : Compare) (h : PendingHeap) (i : ℕ) (p : i < h.nelems) (d : Distinct h.nelems h)
    (v : Indexed h.nelems h) where
  pub percolate_up-Rearranged : Rearranged h.nelems h (percolate_up compare h i)
  unfolding percolate_up
  percolate_up-Rearranged = elim (Bool-cases (leb h.nelems 1)) [
    | inl e ↦ rw e (Rearranged-refl h.nelems h d v)
    | inr e ↦ rw e (percolate_up_loop-Rearranged compare (i + 1) h i p d v)
  ]

  pub sift_down-Rearranged : Rearranged h.nelems h (sift_down compare h i)
  unfolding sift_down
  sift_down-Rearranged = elim (Bool-cases (leb h.nelems 1)) [
    | inl e ↦ rw e (Rearranged-refl h.nelems h d v)
    | inr e ↦ rw e (sift_down_loop-Rearranged compare (h.nelems + 1) h i refl p d v)
  ]
