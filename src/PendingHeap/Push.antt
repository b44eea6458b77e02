-- ===== src/PendingHeap/Push.antt =====
-- `PendingHeap::push`.
use charades.Prelude.{
  ℕ, Bool-cases, ◌+◌, ◌-◌, ◌≤◌, ◌<◌, ◌≡◌, refl, ◌⊎◌, inl, inr, ◌≢◌, ◌∙◌, arith, Ptr, ◌==◌, sym,
}
use charades.HeapOrder.{UpInv, above}
use charades.Event.{Compare, chare_q}
use charades.PendingHeap.{PendingHeap, grow, append, percolate_up, push, key}
use charades.PendingHeap.Slots.{Distinct, Indexed, Rearranged-ts}
use charades.PendingHeap.Loops.{Restored, percolate_up-Restored}
use charades.PendingHeap.Valid.{
  Holds, IsValid, SameTimes, HoldsAlso, Restored-IsValid, Restored-Holds,
}

-- The array after `grow` has a free slot, and the same entries.
record Grown (h r : PendingHeap) : Type 0 where
  nelems : r.nelems ≡ h.nelems
  free : r.nelems < r.curr_max
  entries : (i : ℕ) → i < h.nelems → r.elems i ≡ h.elems i
  mem : r.mem ≡ h.mem

grow-Grown : (h : PendingHeap) → IsValid h → Grown h (grow h)
unfolding grow
grow-Grown h v = record {
  nelems = ground arith;
  free = ground (arith, v.fits);
  entries = λ i a. ground (arith, v.fits);
  mem = ground arith;
}

module _ (h r : PendingHeap) (e : Ptr) (v : IsValid h) (out : ¬ Holds h e) (g : Grown h r) where
  apart : (i : ℕ) → i < h.nelems → h.elems i ≢ e
  apart i a b = out (i, a, b)

  append-nelems : (append r e).nelems ≡ h.nelems + 1
  unfolding append
  append-nelems = omega (arith, g.nelems)

  append-fits : (append r e).nelems ≤ (append r e).curr_max
  unfolding append
  append-fits = omega (arith, g.free)

  append-SameTimes : SameTimes h (append r e)
  unfolding append
  append-SameTimes u = rw g.mem

  append-Distinct : Distinct (append r e).nelems (append r e)
  unfolding append
  append-Distinct i j a b s =
      ground (arith, v.distinct i j, g.nelems, g.entries i, g.entries j, apart i, apart j)

  append-Indexed : Indexed (append r e).nelems (append r e)
  unfolding append
  append-Indexed i a = rw g.mem (ground (arith, v.indexed i, g.nelems, g.entries i, apart i))

  append-UpInv : UpInv (append r e).nelems (key (append r e)) ((append r e).nelems - 1)
  unfolding append
  append-UpInv = rw g.mem (record {
    edges = λ c a b ne. ground (arith, v.ordered c, g.nelems, g.entries c, g.entries (above c));
    bridged = λ c a b s d. absurd (omega (arith, g.nelems));
  })

  append-owned : (u : Ptr) → Holds (append r e) u → (append r e).mem.owner u ≡ chare_q
  unfolding append
  append-owned u (i, a, b) = elim (Bool-cases (r.nelems == i)) [
    | inl last ↦ ground arith
    | inr old ↦
        let below : i < h.nelems = ground (arith, g.nelems) in
        rw g.mem (ground (arith, g.entries i, v.owned (h.elems i) (i, below, refl)))
  ]

  append-Holds : HoldsAlso e h (append r e)
  unfolding append
  append-Holds u = (append_there, append_here)
    where
      append_there : Holds (append r e) u → Holds h u ⊎ (u ≡ e)
      append_there (i, a, b) = elim (Bool-cases (r.nelems == i)) [
        | inl last ↦ inr (rw last at (sym b))
        | inr old ↦ inl (i, ground (arith, g.nelems), ground (arith, g.nelems, g.entries i))
      ]

      append_here : Holds h u ⊎ (u ≡ e) → Holds (append r e) u
      append_here (inl (i, a, b)) =
          (i, ground (arith, g.nelems), ground (arith, g.nelems, g.entries i))
      append_here (inr s) = (r.nelems, omega arith, ground arith)

-- What a push of an event that is not in a valid heap does to the heap.
abbrev pub Pushed : PendingHeap → Ptr → PendingHeap → Type 0
Pushed h e r = IsValid r × (r.nelems ≡ h.nelems + 1) × HoldsAlso e h r × SameTimes h r

pushed :
    (h a r : PendingHeap) (e : Ptr)
    → a.nelems ≡ h.nelems + 1
    → a.nelems ≤ a.curr_max
    → ((u : Ptr) → Holds a u → a.mem.owner u ≡ chare_q)
    → HoldsAlso e h a
    → SameTimes h a
    → Restored a.nelems a r
    → Pushed h e r
pushed h a r e n fits owned held times restored = (
  Restored-IsValid restored owned fits,
  restored.1.nelems ∙ n,
  λ u. (
    λ w. (held u).0 ((Restored-Holds restored.1 u).0 w),
    λ w. (Restored-Holds restored.1 u).1 ((held u).1 w),
  ),
  λ u. Rearranged-ts restored.1 u ∙ times u,
)

-- Pushing an event that is not in a valid heap keeps the heap valid, also where the array has to
-- grow: the heap then holds its old events and the new one, and no timestamp changes.
pub push_adds :
    (compare : Compare) (h : PendingHeap) (e : Ptr)
    → IsValid h
    → ¬ Holds h e
    → Pushed h e (push compare h e)
unfolding push
push_adds compare h e v out =
    let g = grow-Grown h v in
    let r = grow h in
    let n = append-nelems h r e v out g in
    pushed h (append r e) (percolate_up compare (append r e) ((append r e).nelems - 1)) e n
      (append-fits h r e v out g) (append-owned h r e v out g) (append-Holds h r e v out g)
      (append-SameTimes h r e v out g)
      (percolate_up-Restored compare (append r e) ((append r e).nelems - 1) (omega arith)
        (append-UpInv h r e v out g) (append-Distinct h r e v out g) (append-Indexed h r e v out g))
