-- ===== src/Lp/Frames.antt =====
-- What the operations of the pending heap leave of the memory of events: they change index fields, and push the
-- owner of the event.
use charades.Prelude.{
  ℕ, zero, suc, ◌+◌, ◌-◌, ◌≡◌, refl, ap, ◌∙◌, Bool, true, false, Bool-cases, Ptr, write, leb, ◌==◌,
  inl, inr, if◌then◌else◌, some, arith,
}
use charades.Event.{Events, chare_q, Compare}
use charades.PendingHeap.{
  PendingHeap, swap, ascent, descent, percolate_up_loop, percolate_up, sift_down_loop, sift_down,
  grow, append, push, cut, erase,
}

-- The memories differ in index fields only.
abbrev pub SameButIndex : Events → Events → Type 0
SameButIndex m m' = m' ≡ record m { index = m'.index }

same_trans : (a b c : Events) → SameButIndex a b → SameButIndex b c → SameButIndex a c
same_trans a b c p q = q ∙ ap (λ (m : Events). record m { index = c.index }) p

module _ (compare : Compare) where
  swap-Same : (h : PendingHeap) (i j : ℕ) → SameButIndex h.mem (swap h i j).mem
  unfolding swap
  swap-Same h i j = refl

  up-Same :
      (n : ℕ) (h : PendingHeap) (i : ℕ) → SameButIndex h.mem (percolate_up_loop compare n h i).mem
  unfolding percolate_up_loop
  up-Same zero h i = refl
  up-Same (suc n) h i =
      let t = ascent compare h i in
      let s = swap h i t in
      let r = percolate_up_loop compare n s t in
      let j = same_trans h.mem s.mem r.mem (swap-Same h i t) (up-Same n s t) in
      elim (Bool-cases (i == t)) [ inl e ↦ ground arith | inr e ↦ ground (arith, j) ]

  down-Same :
      (n : ℕ) (h : PendingHeap) (i : ℕ) → SameButIndex h.mem (sift_down_loop compare n h i).mem
  unfolding sift_down_loop
  down-Same zero h i = refl
  down-Same (suc n) h i =
      let t = descent compare h i in
      let s = swap h i t in
      let r = sift_down_loop compare n s t in
      let j = same_trans h.mem s.mem r.mem (swap-Same h i t) (down-Same n s t) in
      elim (Bool-cases (i == t)) [ inl e ↦ ground arith | inr e ↦ ground (arith, j) ]

  percolate-Same : (h : PendingHeap) (i : ℕ) → SameButIndex h.mem (percolate_up compare h i).mem
  unfolding percolate_up
  percolate-Same h i = elim (Bool-cases (leb h.nelems 1)) [
    | inl e ↦ ground arith
    | inr e ↦ ground (arith, up-Same (i + 1) h i)
  ]

  sift-Same : (h : PendingHeap) (i : ℕ) → SameButIndex h.mem (sift_down compare h i).mem
  unfolding sift_down
  sift-Same h i = elim (Bool-cases (leb h.nelems 1)) [
    | inl e ↦ ground arith
    | inr e ↦ ground (arith, down-Same (h.nelems + 1) h i)
  ]

  append-mem :
      (h : PendingHeap) (e : Ptr)
      → (append (grow h) e).mem ≡ record h.mem {
        owner = write h.mem.owner e chare_q;
        index = (append (grow h) e).mem.index;
      }
  unfolding append grow
  append-mem h e = elim (Bool-cases (leb h.curr_max h.nelems)) [
    | inl b ↦ ground arith
    | inr b ↦ ground arith
  ]

  pub push-mem :
      (h : PendingHeap) (e : Ptr)
      → (push compare h e).mem
        ≡ record h.mem { owner = write h.mem.owner e chare_q; index = (push compare h e).mem.index }
  unfolding push
  push-mem h e =
      let a = append (grow h) e in
      percolate-Same a (a.nelems - 1)
      ∙ ap (λ (m : Events). record m { index = (percolate_up compare a (a.nelems - 1)).mem.index })
          (append-mem h e)

  settled-Same :
      (h : PendingHeap) (i : ℕ) (b : Bool)
      → SameButIndex h.mem
          (if b then percolate_up compare (cut h i) i else sift_down compare (cut h i) i).mem
  unfolding cut
  settled-Same h i true =
      same_trans h.mem (cut h i).mem (percolate_up compare (cut h i) i).mem refl
        (percolate-Same (cut h i) i)
  settled-Same h i false =
      same_trans h.mem (cut h i).mem (sift_down compare (cut h i) i).mem refl
        (sift-Same (cut h i) i)

  pub erase-mem :
      (h r : PendingHeap) (e : Ptr) → erase compare h e ≡ some r → SameButIndex h.mem r.mem
  unfolding erase
  erase-mem h r e p =
      let i = h.mem.index e in
      let b = leb ((cut h i).mem.ts ((cut h i).elems i)) ((cut h i).mem.ts e) in
      ground (arith, settled-Same h i b)
