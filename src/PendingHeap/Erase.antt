-- ===== src/PendingHeap/Erase.antt =====
-- `PendingHeap::erase`, by which a chare cancels an event that it has not executed.
use charades.Prelude.{
  ℕ, ◌-◌, ◌≤◌, ◌<◌, ◌≡◌, refl, ◌⊎◌, inl, inr, ◌≢◌, ◌∙◌, arith, Ptr, null, write, leb, ◌==◌,
  if◌then◌else◌, subst, Bool-cases, some, leb→le, leb→lt,
}
use charades.HeapOrder.{DownInv, UpInv}
use charades.Event.{Compare, chare_q}
use charades.PendingHeap.{PendingHeap, cut, percolate_up, sift_down, erase, key}
use charades.PendingHeap.Slots.{Distinct, Indexed, Rearranged-ts}
use charades.PendingHeap.Loops.{Restored, percolate_up-Restored, sift_down-Restored}
use charades.PendingHeap.Valid.{
  Holds, IsValid, SameTimes, HoldsLess, Restored-IsValid, Restored-Holds,
}

-- The heap with the last entry moved to slot `i`.
module _ (h : PendingHeap) (v : IsValid h) (i : ℕ) (p : i < h.nelems - 1) where
  pub cut-Distinct : Distinct (cut h i).nelems (cut h i)
  unfolding cut
  cut-Distinct k l a b e =
      ground (arith, v.distinct k l, v.distinct k (h.nelems - 1), v.distinct l (h.nelems - 1))

  pub cut-Indexed : Indexed (cut h i).nelems (cut h i)
  unfolding cut
  cut-Indexed k a = ground (arith, v.indexed k, v.distinct k (h.nelems - 1))

  pub cut-Holds : HoldsLess (h.elems i) h (cut h i)
  unfolding cut
  cut-Holds u = (cut_there, cut_here)
    where
      cut_there : Holds (cut h i) u → Holds h u × (u ≢ h.elems i)
      cut_there (k, a, b) = (
        (if i == k then h.nelems - 1 else k, ground arith, ground arith),
        λ e. absurd (ground (arith, v.distinct i k, v.distinct i (h.nelems - 1))),
      )

      cut_here : Holds h u × (u ≢ h.elems i) → Holds (cut h i) u
      cut_here ((k, a, b), ne) = (if k == h.nelems - 1 then i else k, ground arith, ground arith)

  cut-owned : (e : Ptr) → Holds (cut h i) e → (cut h i).mem.owner e ≡ chare_q
  unfolding cut
  cut-owned e w = v.owned e ((cut-Holds e).0 w).0

  cut-UpInv : key h (h.nelems - 1) ≤ key h i → UpInv (cut h i).nelems (key (cut h i)) i
  unfolding cut
  cut-UpInv le = record {
    edges = λ c a b ne. ground (arith, v.ordered c, v.ordered i);
    bridged = λ c a b e d. ground (arith, v.ordered c, v.ordered i);
  }

  cut-DownInv : key h i ≤ key h (h.nelems - 1) → DownInv (cut h i).nelems (key (cut h i)) i
  unfolding cut
  cut-DownInv le = record {
    edges = λ c a b ne. ground (arith, v.ordered c, v.ordered i);
    bridged = λ c a b e d. ground (arith, v.ordered c, v.ordered i);
  }

  cut-key : (cut h i).mem.ts ((cut h i).elems i) ≡ key h (h.nelems - 1)
  unfolding cut
  cut-key = ground arith

  pub cut-nelems : (cut h i).nelems ≡ h.nelems - 1
  unfolding cut
  cut-nelems = refl

  cut-fits : (cut h i).nelems ≤ (cut h i).curr_max
  unfolding cut
  cut-fits = omega (arith, v.fits)

  pub cut-SameTimes : SameTimes h (cut h i)
  unfolding cut
  cut-SameTimes u = refl

-- What an erasure of an event in a valid heap does.
abbrev pub Erased : PendingHeap → Ptr → PendingHeap → Type 0
Erased h e r = IsValid r × (r.nelems ≡ h.nelems - 1) × HoldsLess e h r × SameTimes h r

-- The heap without its last entry.
abbrev shrunk : PendingHeap → PendingHeap
shrunk h = record h { nelems = h.nelems - 1; elems = write h.elems (h.nelems - 1) null }

shrunk-Erased :
    (h : PendingHeap) → IsValid h → 0 < h.nelems → Erased h (h.elems (h.nelems - 1)) (shrunk h)
shrunk-Erased h v p = (
  record {
    ordered = λ c a b. ground (arith, v.ordered c);
    distinct = λ i j a b e. ground (arith, v.distinct i j);
    indexed = λ i a. ground (arith, v.indexed i);
    owned = λ e (i, a, b). ground (arith, v.owned (h.elems i) (i, ground arith, refl));
    fits = omega (arith, v.fits);
  },
  refl,
  λ u. (
    λ (i, a, b).
        ((i, omega arith, ground arith), λ e. absurd (ground (arith, v.distinct i (h.nelems - 1)))),
    λ ((i, a, b), ne). (i, ground arith, ground arith),
  ),
  λ u. refl,
)

-- The loop that `erase` runs after the move.
abbrev pub settle : Compare → PendingHeap → Ptr → ℕ → PendingHeap
settle compare r victim i =
    if leb (r.mem.ts (r.elems i)) (r.mem.ts victim)
    then percolate_up compare r i
    else sift_down compare r i

module _ (compare : Compare) (h : PendingHeap) (victim : Ptr) where
  erase-shrunk :
      0 < h.nelems
      → h.mem.index victim ≡ h.nelems - 1
      → h.mem.index (h.elems (h.nelems - 1)) ≡ h.nelems - 1
      → erase compare h victim ≡ some (shrunk h)
  unfolding erase
  erase-shrunk p e s = ground arith

  pub erase-settle :
      (i : ℕ)
      → i < h.nelems - 1
      → h.mem.index victim ≡ i
      → h.mem.index (h.elems i) ≡ i
      → erase compare h victim ≡ some (settle compare (cut h i) victim i)
  unfolding erase
  erase-settle i p e s = ground arith

settle-Erased :
    (compare : Compare) (h : PendingHeap) (v : IsValid h) (i : ℕ)
    → i < h.nelems - 1
    → Erased h (h.elems i) (settle compare (cut h i) (h.elems i) i)
settle-Erased compare h v i p = (
  Restored-IsValid r (cut-owned h v i p) (cut-fits h v i p),
  r.1.nelems ∙ cut-nelems h v i p,
  λ u. (
    λ w. (cut-Holds h v i p u).0 ((Restored-Holds r.1 u).0 w),
    λ w. (Restored-Holds r.1 u).1 ((cut-Holds h v i p u).1 w),
  ),
  λ u. Rearranged-ts r.1 u ∙ cut-SameTimes h v i p u,
)
  where
    same : (cut h i).mem.ts (h.elems i) ≡ key h i
    same = cut-SameTimes h v i p (h.elems i)

    last : (cut h i).mem.ts ((cut h i).elems i) ≡ key h (h.nelems - 1)
    last = cut-key h v i p

    within : i < (cut h i).nelems
    within = rw (cut-nelems h v i p) p

    r : Restored (cut h i).nelems (cut h i) (settle compare (cut h i) (h.elems i) i)
    r =
        elim (Bool-cases
          (leb ((cut h i).mem.ts ((cut h i).elems i)) ((cut h i).mem.ts (h.elems i)))) [
            | inl e ↦
                let le =
                  leb→le ((cut h i).mem.ts ((cut h i).elems i)) ((cut h i).mem.ts (h.elems i)) e in
                rw e (
                  percolate_up-Restored compare (cut h i) i within
                    (cut-UpInv h v i p (omega (arith, same, last))) (cut-Distinct h v i p)
                    (cut-Indexed h v i p))
            | inr e ↦
                let lt =
                  leb→lt ((cut h i).mem.ts ((cut h i).elems i)) ((cut h i).mem.ts (h.elems i)) e in
                rw e (
                  sift_down-Restored compare (cut h i) i (λ q. within)
                    (cut-DownInv h v i p (omega (arith, same, last))) (cut-Distinct h v i p)
                    (cut-Indexed h v i p))
          ]

-- Erasing an event of a valid heap of at most 256 events succeeds, and leaves a valid heap of
-- exactly the other events; no timestamp changes.
pub erase_removes :
    (compare : Compare) (h : PendingHeap) (e : Ptr)
    → IsValid h
    → Holds h e
    → h.nelems ≤ 256
    → (r : PendingHeap) × (erase compare h e ≡ some r) × Erased h e r
erase_removes compare h e v (i, a, b) few = elim (last_or_not a) [
  | inl s ↦
      let q : h.elems (h.nelems - 1) ≡ e = ground arith in
      (
        shrunk h,
        erase-shrunk compare h e (omega arith) (ground (arith, at_slot)) (ground (arith, at_slot)),
        subst (λ x. Erased h x (shrunk h)) q (shrunk-Erased h v (omega arith)),
      )
  | inr p ↦ (
    settle compare (cut h i) e i,
    erase-settle compare h e i p (rw (← b) at_slot) at_slot,
    rw b at (settle-Erased compare h v i p),
  )
]
  where
    last_or_not : i < h.nelems → (i ≡ h.nelems - 1) ⊎ (i < h.nelems - 1)
    last_or_not a = omega arith

    at_slot : h.mem.index (h.elems i) ≡ i
    at_slot = omega (arith, v.indexed i a)
