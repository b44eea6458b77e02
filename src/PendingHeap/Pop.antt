-- ===== src/PendingHeap/Pop.antt =====
-- `PendingHeap::pop`, by which a chare takes its next event.
use charades.Prelude.{◌-◌, ◌≤◌, ◌<◌, ◌≡◌, refl, ◌≢◌, ◌∙◌, arith, Ptr, null, ◌==◌, if◌then◌else◌, ap}
use charades.HeapOrder.{DownInv, root_least}
use charades.Event.{Events, Compare, event_null, chare_q, time_max}
use charades.PendingHeap.{PendingHeap, cut_root, sift_down, pop, key, min_ts}
use charades.PendingHeap.Slots.{Distinct, Indexed, Rearranged-ts}
use charades.PendingHeap.Loops.{Restored, sift_down-Restored}
use charades.PendingHeap.Valid.{
  Holds, IsValid, SameTimes, HoldsLess, Restored-IsValid, Restored-Holds,
}

module _ (h : PendingHeap) (v : IsValid h) (some_left : 0 < h.nelems) where
  cut_root-Distinct : Distinct (cut_root h).nelems (cut_root h)
  unfolding cut_root
  cut_root-Distinct i j a b e =
      ground (arith, v.distinct i j, v.distinct i (h.nelems - 1), v.distinct j (h.nelems - 1))

  cut_root-Indexed : Indexed (cut_root h).nelems (cut_root h)
  unfolding cut_root
  cut_root-Indexed i a = ground (arith, v.indexed i, v.distinct i (h.nelems - 1))

  cut_root-DownInv : DownInv (cut_root h).nelems (key (cut_root h)) 0
  unfolding cut_root
  cut_root-DownInv = record {
    edges = λ c a b ne. ground (arith, v.ordered c);
    bridged = λ c a b e d. absurd (omega arith);
  }

  cut_root-owned : (e : Ptr) → Holds (cut_root h) e → (cut_root h).mem.owner e ≡ chare_q
  unfolding cut_root
  cut_root-owned e (i, a, b) = ground (
    arith,
    v.distinct 0 i,
    v.distinct 0 (h.nelems - 1),
    v.owned (h.elems i) (i, ground arith, refl),
    v.owned (h.elems (h.nelems - 1)) (h.nelems - 1, ground arith, refl),
  )

  cut_root-Holds : HoldsLess (h.elems 0) h (cut_root h)
  unfolding cut_root
  cut_root-Holds u = (cut_there, cut_here)
    where
      cut_there : Holds (cut_root h) u → Holds h u × (u ≢ h.elems 0)
      cut_there (i, a, b) = (
        (if i == 0 then h.nelems - 1 else i, ground arith, ground arith),
        λ e. absurd (ground (arith, v.distinct 0 i, v.distinct 0 (h.nelems - 1))),
      )

      cut_here : Holds h u × (u ≢ h.elems 0) → Holds (cut_root h) u
      cut_here ((i, a, b), ne) = (if i == h.nelems - 1 then 0 else i, ground arith, ground arith)

-- What a pop of a valid heap that is not empty returns.
pub record Popped (h : PendingHeap) (r : Ptr × PendingHeap) : Type 0 where
  pub valid : IsValid r.1
  pub fewer : r.1.nelems ≡ h.nelems - 1
  pub held : Holds h r.0
  pub earliest : (e : Ptr) → Holds h e → h.mem.ts r.0 ≤ h.mem.ts e
  pub rest : HoldsLess r.0 h r.1
  pub released : r.1.mem.owner r.0 ≡ event_null
  pub times : SameTimes h r.1

cut_root-fits : (h : PendingHeap) → IsValid h → (cut_root h).nelems ≤ (cut_root h).curr_max
unfolding cut_root
cut_root-fits h v = omega (arith, v.fits)

cut_root-released : (h : PendingHeap) → (cut_root h).mem.owner (h.elems 0) ≡ event_null
unfolding cut_root
cut_root-released h = ground arith

cut_root-SameTimes : (h : PendingHeap) → SameTimes h (cut_root h)
unfolding cut_root
cut_root-SameTimes h e = refl

cut_root-nelems : (h : PendingHeap) → (cut_root h).nelems ≡ h.nelems - 1
unfolding cut_root
cut_root-nelems h = refl

pub pop-some :
    (compare : Compare) (h : PendingHeap)
    → 0 < h.nelems
    → pop compare h ≡ (h.elems 0, sift_down compare (cut_root h) 0)
unfolding pop
pop-some compare h p = ground arith

-- Popping a valid heap that is not empty returns an event of the heap with the least timestamp, with
-- no owner, and leaves a valid heap of exactly the other events; no timestamp changes.
pub pop_earliest :
    (compare : Compare) (h : PendingHeap) → IsValid h → 0 < h.nelems → Popped h (pop compare h)
pop_earliest compare h v p =
    let r : Restored (cut_root h).nelems (cut_root h) (sift_down compare (cut_root h) 0) =
      sift_down-Restored compare (cut_root h) 0 (λ q. q) (cut_root-DownInv h v p)
        (cut_root-Distinct h v p) (cut_root-Indexed h v p) in
    rw (pop-some compare h p) (record {
      valid = Restored-IsValid r (cut_root-owned h v p) (cut_root-fits h v);
      fewer = r.1.nelems ∙ cut_root-nelems h;
      held = (0, p, refl);
      earliest = λ e (i, a, b). rw (← b) (root_least (key h) i v.ordered a);
      rest = λ u. (
        λ w. (cut_root-Holds h v p u).0 ((Restored-Holds r.1 u).0 w),
        λ w. (Restored-Holds r.1 u).1 ((cut_root-Holds h v p u).1 w),
      );
      released = ap (λ (m : Events). m.owner (h.elems 0)) r.1.mem ∙ cut_root-released h;
      times = λ u. Rearranged-ts r.1 u ∙ cut_root-SameTimes h u;
    })

-- On an empty heap `pop` returns the null pointer and changes nothing, and `min` is the greatest
-- time; on any other valid heap `min` is the timestamp of the event that `pop` returns.
pub min_ts-pop :
    (compare : Compare) (h : PendingHeap)
    → (h.nelems ≡ 0 → (pop compare h ≡ (null, h)) × (min_ts h ≡ time_max))
      × (0 < h.nelems → min_ts h ≡ h.mem.ts (pop compare h).0)
unfolding pop min_ts
min_ts-pop compare h = (λ e. (ground arith, ground arith), λ p. ground arith)
