-- ===== src/PeQueue/Loops.antt =====
-- The two loops of the queue restore the heap order, and only rearrange the tokens.
use charades.Prelude.{
  ℕ, zero, suc, ◌+◌, ◌*◌, ◌-◌, ◌≤◌, ◌<◌, ◌≡◌, ◌≢◌, refl, ◌⊎◌, inl, inr, fun_ext, subst, arith,
  Bool-cases, true, false,
}
use charades.HeapOrder.{above, IsHeap, UpInv, DownInv, exchanged}
use charades.HeapOrder.Sifting.{up_done, up_step, down_done, down_step}
use charades.PeQueue.{
  PeQueue, has_parent, parent, left, right, has_left, has_right, largest, smallest, descent, swap,
  pull_up_loop, pull_up, push_down_loop, push_down, key,
}
use charades.PeQueue.Slots.{
  Indexed, Rearranged, Rearranged-refl, Rearranged-trans, key-swap, swap-Rearranged,
}

-- `r` is `q` rearranged into heap order.
abbrev pub Restored : ℕ → PeQueue → PeQueue → Type 0
Restored n q r = IsHeap n (key r) × Rearranged n q r

-- What a loop does after an exchange, it does for the queue before it.
after_swap :
    {n : ℕ} {q r : PeQueue} (i j : ℕ)
    → Indexed n q
    → i < n
    → j < n
    → Restored n (swap q i j) r
    → Restored n q r
after_swap {n} {q} i j v p p' (h, s) = (h, Rearranged-trans (swap-Rearranged n q i j v p p') s)

key_swapped : (n : ℕ) (q : PeQueue) (i j : ℕ) → exchanged (key q) j i ≡ key (swap q i j)
key_swapped n q i j = fun_ext λ k. ground (arith, key-swap n q i j k)

-- `largest(i, parent(i))` is the parent if that is later, and `i` if it is not.
largest_cases :
    (q : PeQueue) (i : ℕ)
    → ((largest q i (parent i) ≡ above i) × (key q i ≤ key q (above i)))
      ⊎ ((largest q i (parent i) ≡ i) × (key q (above i) ≤ key q i))
unfolding largest parent
largest_cases q i = ground arith

module _ (fuel : ℕ) (q : PeQueue) (i : ℕ) where
  pull_up_loop-top : i ≡ 0 → pull_up_loop (suc fuel) q i ≡ q
  unfolding pull_up_loop has_parent
  pull_up_loop-top e = ground arith

  pull_up_loop-stop : largest q i (parent i) ≡ i → pull_up_loop (suc fuel) q i ≡ q
  unfolding pull_up_loop
  pull_up_loop-stop e = ground arith

  pull_up_loop-move :
      0 < i
      → largest q i (parent i) ≡ above i
      → pull_up_loop (suc fuel) q i ≡ pull_up_loop fuel (swap q (above i) i) (above i)
  unfolding pull_up_loop has_parent
  pull_up_loop-move p e = ground arith

pub pull_up_loop-Restored :
    (fuel : ℕ) {n : ℕ} (q : PeQueue) (i : ℕ)
    → i < fuel
    → i < n
    → UpInv n (key q) i
    → Indexed n q
    → Restored n q (pull_up_loop fuel q i)
pull_up_loop-Restored zero q i f p u v = absurd (omega arith)
pull_up_loop-Restored (suc fuel) {n} q zero f p u v =
    rw (pull_up_loop-top fuel q zero refl)
      (up_done (key q) zero u (λ h. absurd (omega arith)), Rearranged-refl n q v)
pull_up_loop-Restored (suc fuel) {n} q (suc i) f p u v = elim (largest_cases q (suc i)) [
  | inl (e, le) ↦ rw (pull_up_loop-move fuel q (suc i) (omega arith) e) (
      after_swap (above (suc i)) (suc i) v (omega arith) p (
        pull_up_loop-Restored fuel (swap q (above (suc i)) (suc i)) (above (suc i)) (omega arith)
          (omega arith)
          (subst (λ k. UpInv n k (above (suc i))) (key_swapped n q (above (suc i)) (suc i))
            (up_step (key q) (suc i) u (omega arith) p le))
          (swap-Rearranged n q (above (suc i)) (suc i) v (omega arith) p).indexed))
  | inr (e, le) ↦
      rw (pull_up_loop-stop fuel q (suc i) e)
        (up_done (key q) (suc i) u (λ _. le), Rearranged-refl n q v)
]

pub pull_up-Restored :
    {n : ℕ} (q : PeQueue) (i : ℕ)
    → i < n
    → UpInv n (key q) i
    → Indexed n q
    → Restored n q (pull_up q i)
unfolding pull_up
pull_up-Restored q i p u v = pull_up_loop-Restored (i + 1) q i (omega arith) p u v

left_or_right : (c i : ℕ) → 0 < c → above c ≡ i → (c ≡ i * 2 + 1) ⊎ (c ≡ i * 2 + 2)
left_or_right c i p e = omega arith

-- `push_down` compares with an earliest child, or with the entry where no child is earlier.
module _ (q : PeQueue) (i : ℕ) where
  pub descent_place :
      has_left q i ≡ true
      → (descent q i ≡ i) ⊎ ((0 < descent q i) × (descent q i < q.size) × (above (descent q i) ≡ i))
  unfolding left right has_left has_right smallest descent
  descent_place h = ground arith

  pub descent-le : key q (descent q i) ≤ key q i
  unfolding left right has_right smallest descent
  descent-le = ground arith

  descent-le-left : key q (descent q i) ≤ key q (i * 2 + 1)
  unfolding left right has_right smallest descent
  descent-le-left = ground arith

  descent-le-right : i * 2 + 2 < q.size → key q (descent q i) ≤ key q (i * 2 + 2)
  unfolding left right has_right smallest descent
  descent-le-right h = ground arith

  descent_least : (c : ℕ) → 0 < c → c < q.size → above c ≡ i → key q (descent q i) ≤ key q c
  descent_least c p h e = elim (left_or_right c i p e) [
    | inl l ↦ rw l descent-le-left
    | inr r ↦ rw r (descent-le-right (omega arith))
  ]

module _ (fuel : ℕ) (q : PeQueue) (i : ℕ) where
  pub push_down_loop-leaf : has_left q i ≡ false → push_down_loop (suc fuel) q i ≡ q
  unfolding push_down_loop
  push_down_loop-leaf e = ground arith

  pub push_down_loop-stop : descent q i ≡ i → push_down_loop (suc fuel) q i ≡ q
  unfolding push_down_loop
  push_down_loop-stop e = ground arith

  pub push_down_loop-move :
      has_left q i ≡ true
      → i < descent q i
      → push_down_loop (suc fuel) q i ≡ push_down_loop fuel (swap q (descent q i) i) (descent q i)
  unfolding push_down_loop
  push_down_loop-move h p = ground arith

leaf : (q : PeQueue) (i c : ℕ) → has_left q i ≡ false → 0 < c → c < q.size → above c ≢ i
unfolding has_left left
leaf q i c h p b e = absurd (ground arith)

pub swap-size : (q : PeQueue) (i j : ℕ) → (swap q i j).size ≡ q.size
unfolding swap
swap-size q i j = refl

module _ (n : ℕ) (q : PeQueue) (i : ℕ) (size : q.size ≡ n) (u : DownInv n (key q) i)
    (v : Indexed n q) where
  push_down_loop-DownInv :
      0 < descent q i
      → descent q i < n
      → above (descent q i) ≡ i
      → DownInv n (key (swap q (descent q i) i)) (descent q i)
  push_down_loop-DownInv p h e =
      subst (λ k. DownInv n k (descent q i)) (key_swapped n q (descent q i) i)
        (down_step (key q) i (descent q i) u p h e (descent-le q i)
          (λ c p h e. descent_least q i c p (omega arith) e))

pub push_down_loop-Restored :
    (fuel : ℕ) {n : ℕ} (q : PeQueue) (i : ℕ)
    → q.size ≡ n
    → n - i < fuel
    → i < n
    → DownInv n (key q) i
    → Indexed n q
    → Restored n q (push_down_loop fuel q i)
push_down_loop-Restored zero q i z f p u v = absurd (omega arith)
push_down_loop-Restored (suc fuel) {n} q i z f p u v = elim (Bool-cases (has_left q i)) [
  | inr none_left ↦ rw (push_down_loop-leaf fuel q i none_left) (
    down_done (key q) i u (λ c a b e. absurd (leaf q i c none_left a (omega arith) e)),
    Rearranged-refl n q v,
  )
  | inl has ↦ elim (descent_place q i has) [
    | inl e ↦ rw (push_down_loop-stop fuel q i e) (
      down_done (key q) i u (λ c a b e'. ground (arith, descent_least q i c)),
      Rearranged-refl n q v,
    )
    | inr (a, b, e) ↦ rw (push_down_loop-move fuel q i has (omega arith)) (
        after_swap (descent q i) i v (omega arith) p (
          push_down_loop-Restored fuel (swap q (descent q i) i) (descent q i) (rw swap-size z)
            (omega arith) (omega arith) (push_down_loop-DownInv n q i z u v a (omega arith) e)
            (swap-Rearranged n q (descent q i) i v (omega arith) p).indexed))
  ]
]

pub push_down-Restored :
    (q : PeQueue) (i : ℕ)
    → i < q.size
    → DownInv q.size (key q) i
    → Indexed q.size q
    → Restored q.size q (push_down q i)
unfolding push_down
push_down-Restored q i p u v = push_down_loop-Restored (q.size + 1) q i refl (omega arith) p u v
