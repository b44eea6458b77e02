-- ===== src/PeQueue/Sinks.antt =====
-- `push_down` where the order of the entries is not known, and where it does nothing.
use charades.Prelude.{◌∙◌, ℕ, zero, suc, ◌+◌, ◌<◌, ◌≡◌, refl, inl, inr, arith, Bool-cases}
use native.Mathlib.Numerals.{add-one}
use charades.HeapOrder.{above}
use charades.PeQueue.{PeQueue, has_left, descent, swap, push_down_loop, push_down, key}
use charades.PeQueue.Slots.{Indexed, Rearranged, Rearranged-refl, Rearranged-trans, swap-Rearranged}
use charades.PeQueue.Loops.{
  descent_place, descent-le, push_down_loop-leaf, push_down_loop-stop, push_down_loop-move,
  swap-size,
}

-- Whatever the order of the entries, `push_down` only rearranges them, and it leaves the entries
-- before the slot where it starts in their places.
abbrev pub Sunk : ℕ → ℕ → PeQueue → PeQueue → Type 0
Sunk n i q r = Rearranged n q r × ((k : ℕ) → k < i → r.heap k ≡ q.heap k)

swap_before : (q : PeQueue) (i j k : ℕ) → k < i → k < j → (swap q j i).heap k ≡ q.heap k
unfolding swap
swap_before q i j k a b = ground arith

push_down_loop-Sunk :
    (fuel : ℕ) {n : ℕ} (q : PeQueue) (i : ℕ)
    → q.size ≡ n
    → i < n
    → Indexed n q
    → Sunk n i q (push_down_loop fuel q i)
push_down_loop-Sunk zero {n} q i z p v =
    unfold push_down_loop in (Rearranged-refl n q v, λ k h. refl)
push_down_loop-Sunk (suc fuel) {n} q i z p v = elim (Bool-cases (has_left q i)) [
  | inr none_left ↦ rw (push_down_loop-leaf fuel q i none_left) (Rearranged-refl n q v, λ k h. refl)
  | inl has ↦ elim (descent_place q i has) [
    | inl e ↦ rw (push_down_loop-stop fuel q i e) (Rearranged-refl n q v, λ k h. refl)
    | inr (a, b, e) ↦
        let s = swap-Rearranged n q (descent q i) i v (omega arith) p in
        let (r, same) =
          push_down_loop-Sunk fuel (swap q (descent q i) i) (descent q i) (rw swap-size z)
            (omega arith) s.indexed in
        rw (push_down_loop-move fuel q i has (omega arith)) (
          Rearranged-trans s r,
          λ k h. same k (omega arith) ∙ swap_before q i (descent q i) k h (omega arith),
        )
  ]
]

pub push_down-Sunk :
    (q : PeQueue) (i : ℕ) → i < q.size → Indexed q.size q → Sunk q.size i q (push_down q i)
unfolding push_down
push_down-Sunk q i p v = push_down_loop-Sunk (q.size + 1) q i refl p v

-- Where no entry below is as early, `push_down` does nothing.
pub push_down_still :
    (q : PeQueue) (i : ℕ)
    → ((c : ℕ) → 0 < c → c < q.size → above c ≡ i → key q i < key q c)
    → push_down q i ≡ q
unfolding push_down
push_down_still q i least = elim (Bool-cases (has_left q i)) [
  | inr none_left ↦ rw add-one (push_down_loop-leaf q.size q i none_left)
  | inl has ↦ elim (descent_place q i has) [
    | inl e ↦ rw add-one (push_down_loop-stop q.size q i e)
    | inr (a, b, e) ↦ absurd (omega (arith, least (descent q i) a b e, descent-le q i))
  ]
]
