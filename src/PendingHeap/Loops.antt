-- ===== src/PendingHeap/Loops.antt =====
-- The two loops of the pending heap restore the order of timestamps, and only rearrange the events.

use charades.Prelude.{
  ℕ, zero, suc, ◌+◌, ◌*◌, ◌-◌, ◌≤◌, ◌<◌, ◌≡◌, refl, sym, ◌⊎◌, inl, inr, fun_ext, subst, arith,
  Bool-cases, leb, leb→le,
}
use charades.HeapOrder.{above, IsHeap, UpInv, DownInv, exchanged}
use charades.HeapOrder.Sifting.{up_done, up_step, down_done, down_step}
use charades.Event.{Compare}
use charades.Event.Order.{le_of_less, le_of_not_less}
use charades.PendingHeap.{
  PendingHeap, swap, ascent, percolate_up_loop, percolate_up, descent_left, descent, sift_down_loop,
  sift_down, key,
}
use charades.PendingHeap.Slots.{
  Distinct, Indexed, Rearranged, Rearranged-refl, Rearranged-trans, key-swap, swap-Rearranged,
}

-- `r` is `h` rearranged into the order of timestamps.
abbrev pub Restored : ℕ → PendingHeap → PendingHeap → Type 0
Restored n h r = IsHeap n (key r) × Rearranged n h r

after_swap :
    {n : ℕ} {h r : PendingHeap} (i j : ℕ)
    → Distinct n h
    → Indexed n h
    → i < n
    → j < n
    → Restored n (swap h i j) r
    → Restored n h r
after_swap {n} {h} i j d v p p' (heap, s) =
    (heap, Rearranged-trans (swap-Rearranged n h i j d v p p') s)

key_swapped : (n : ℕ) (h : PendingHeap) (i j : ℕ) → exchanged (key h) i j ≡ key (swap h i j)
key_swapped n h i j = fun_ext λ k. sym (key-swap n h i j k)

exchanged_sym : (k : ℕ → ℕ) (i j : ℕ) → exchanged k j i ≡ exchanged k i j
exchanged_sym k i j = fun_ext λ c. ground arith

module _ (compare : Compare) where
  pub ascent_cases :
      (h : PendingHeap) (i : ℕ)
      → ((ascent compare h i ≡ above i) × (key h i ≤ key h (above i)))
        ⊎ ((ascent compare h i ≡ i) × (key h (above i) ≤ key h i))
  unfolding ascent
  ascent_cases h i = ground (
    arith,
    le_of_less compare h.mem (h.elems i) (h.elems (above i)),
    le_of_not_less compare h.mem (h.elems i) (h.elems (above i)),
  )

  module _ (fuel : ℕ) (h : PendingHeap) (i : ℕ) where
    pub percolate_up_loop-stop :
        ascent compare h i ≡ i → percolate_up_loop compare (suc fuel) h i ≡ h
    unfolding percolate_up_loop
    percolate_up_loop-stop e = ground arith

    pub percolate_up_loop-move :
        ascent compare h i < i
        → percolate_up_loop compare (suc fuel) h i
          ≡ percolate_up_loop compare fuel (swap h i (ascent compare h i)) (ascent compare h i)
    unfolding percolate_up_loop
    percolate_up_loop-move p = ground arith

  percolate_up_loop-Restored :
      (fuel : ℕ) {n : ℕ} (h : PendingHeap) (i : ℕ)
      → i < fuel
      → i < n
      → UpInv n (key h) i
      → Distinct n h
      → Indexed n h
      → Restored n h (percolate_up_loop compare fuel h i)
  percolate_up_loop-Restored zero h i f p u d v = absurd (omega arith)
  percolate_up_loop-Restored (suc fuel) {n} h zero f p u d v =
      let e : ascent compare h zero ≡ 0 = omega (arith, ascent_cases h zero) in
      rw (percolate_up_loop-stop fuel h zero e)
        (up_done (key h) zero u (λ q. absurd (omega arith)), Rearranged-refl n h d v)
  percolate_up_loop-Restored (suc fuel) {n} h (suc i) f p u d v = elim (ascent_cases h (suc i)) [
    | inl (e, le) ↦
        let s = swap-Rearranged n h (suc i) (above (suc i)) d v p (omega arith) in
        rw (percolate_up_loop-move fuel h (suc i) (omega arith), e)
          (after_swap (suc i) (above (suc i)) d v p (omega arith) (
            percolate_up_loop-Restored fuel (swap h (suc i) (above (suc i))) (above (suc i))
              (omega arith) (omega arith)
              (subst (λ k. UpInv n k (above (suc i))) (key_swapped n h (suc i) (above (suc i)))
                (up_step (key h) (suc i) u (omega arith) p le))
              s.distinct s.indexed))
    | inr (e, le) ↦
        rw (percolate_up_loop-stop fuel h (suc i) e)
          (up_done (key h) (suc i) u (λ _. le), Rearranged-refl n h d v)
  ]

  -- A heap of one entry is in order as it is.
  pub percolate_up-Restored :
      (h : PendingHeap) (i : ℕ)
      → i < h.nelems
      → UpInv h.nelems (key h) i
      → Distinct h.nelems h
      → Indexed h.nelems h
      → Restored h.nelems h (percolate_up compare h i)
  unfolding percolate_up
  percolate_up-Restored h i p u d v = elim (Bool-cases (leb h.nelems 1)) [
    | inl e ↦
        let small = leb→le h.nelems 1 e in
        rw e (λ c a b. absurd (omega arith), Rearranged-refl h.nelems h d v)
    | inr e ↦ rw e (percolate_up_loop-Restored (i + 1) h i (omega arith) p u d v)
  ]

  module _ (h : PendingHeap) (i : ℕ) where
    descent_left-le :
        (key h (descent_left compare h i) ≤ key h i)
        × (2 * i + 1 < h.nelems → key h (descent_left compare h i) ≤ key h (2 * i + 1))
    unfolding descent_left
    descent_left-le = ground (
      arith,
      le_of_less compare h.mem (h.elems (2 * i + 1)) (h.elems i),
      le_of_not_less compare h.mem (h.elems (2 * i + 1)) (h.elems i),
    )

    descent-le :
        (key h (descent compare h i) ≤ key h (descent_left compare h i))
        × (2 * i + 2 < h.nelems → key h (descent compare h i) ≤ key h (2 * i + 2))
    unfolding descent
    descent-le =
        let j = descent_left compare h i in
        ground (
          arith,
          le_of_less compare h.mem (h.elems (2 * i + 2)) (h.elems j),
          le_of_not_less compare h.mem (h.elems (2 * i + 2)) (h.elems j),
        )

    pub descent_place :
        (descent compare h i ≡ i)
        ⊎ ((i < descent compare h i)
            × (descent compare h i < h.nelems)
            × (above (descent compare h i) ≡ i))
    unfolding descent descent_left
    descent_place = ground arith

    descent_least :
        (c : ℕ) → 0 < c → c < h.nelems → above c ≡ i → key h (descent compare h i) ≤ key h c
    descent_least c p q e = elim (left_or_right c i p e) [
      | inl l ↦ rw l (omega (arith, descent-le.0, descent_left-le.1))
      | inr r ↦ rw r (omega (arith, descent-le.1))
    ]
      where
        left_or_right : (c i : ℕ) → 0 < c → above c ≡ i → (c ≡ 2 * i + 1) ⊎ (c ≡ 2 * i + 2)
        left_or_right c i p e = omega arith

  module _ (fuel : ℕ) (h : PendingHeap) (i : ℕ) where
    pub sift_down_loop-stop : descent compare h i ≡ i → sift_down_loop compare (suc fuel) h i ≡ h
    unfolding sift_down_loop
    sift_down_loop-stop e = ground arith

    pub sift_down_loop-move :
        i < descent compare h i
        → sift_down_loop compare (suc fuel) h i
          ≡ sift_down_loop compare fuel (swap h i (descent compare h i)) (descent compare h i)
    unfolding sift_down_loop
    sift_down_loop-move p = ground arith

  pub swap-nelems : (h : PendingHeap) (i j : ℕ) → (swap h i j).nelems ≡ h.nelems
  unfolding swap
  swap-nelems h i j = refl

  sift_down_loop-DownInv :
      (n : ℕ) (h : PendingHeap) (i : ℕ)
      → h.nelems ≡ n
      → DownInv n (key h) i
      → i < descent compare h i
      → descent compare h i < n
      → above (descent compare h i) ≡ i
      → DownInv n (key (swap h i (descent compare h i))) (descent compare h i)
  sift_down_loop-DownInv n h i z u p q e =
      subst (λ k. DownInv n k (descent compare h i)) (key_swapped n h i (descent compare h i))
        (down_step (key h) i (descent compare h i) u (omega arith) q e
          (omega (arith, (descent-le h i).0, (descent_left-le h i).0))
          (λ c a b e'. descent_least h i c a (omega arith) e'))

  sift_down_loop-Restored :
      (fuel : ℕ) {n : ℕ} (h : PendingHeap) (i : ℕ)
      → h.nelems ≡ n
      → n - i < fuel
      → i < n
      → DownInv n (key h) i
      → Distinct n h
      → Indexed n h
      → Restored n h (sift_down_loop compare fuel h i)
  sift_down_loop-Restored zero h i z f p u d v = absurd (omega arith)
  sift_down_loop-Restored (suc fuel) {n} h i z f p u d v = elim (descent_place h i) [
    | inl e ↦ rw (sift_down_loop-stop fuel h i e) (
      down_done (key h) i u (λ c a b e'. ground (arith, descent_least h i c)),
      Rearranged-refl n h d v,
    )
    | inr (a, b, e) ↦
        let s = swap-Rearranged n h i (descent compare h i) d v p (omega arith) in
        rw (sift_down_loop-move fuel h i a) (
          after_swap i (descent compare h i) d v p (omega arith) (
            sift_down_loop-Restored fuel (swap h i (descent compare h i)) (descent compare h i)
              (rw swap-nelems z) (omega arith) (omega arith)
              (sift_down_loop-DownInv n h i z u a (omega arith) e) s.distinct s.indexed))
  ]

  pub sift_down-Restored :
      (h : PendingHeap) (i : ℕ)
      → (0 < h.nelems → i < h.nelems)
      → DownInv h.nelems (key h) i
      → Distinct h.nelems h
      → Indexed h.nelems h
      → Restored h.nelems h (sift_down compare h i)
  unfolding sift_down
  sift_down-Restored h i p u d v = elim (Bool-cases (leb h.nelems 1)) [
    | inl e ↦
        let small = leb→le h.nelems 1 e in
        rw e (λ c a b. absurd (omega arith), Rearranged-refl h.nelems h d v)
    | inr e ↦
        rw e (sift_down_loop-Restored (h.nelems + 1) h i refl (omega arith) (ground arith) u d v)
  ]
