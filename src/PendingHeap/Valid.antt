-- ===== src/PendingHeap/Valid.antt =====
-- The invariant of the pending heap.
use charades.Prelude.{◌≤◌, ◌≡◌, ◌↔◌, ◌⊎◌, ◌≢◌, ◌∙◌, ap, arith, Ptr}
use charades.HeapOrder.{IsHeap}
use charades.Event.{Events, chare_q}
use charades.PendingHeap.{PendingHeap, init, key}
use charades.PendingHeap.Slots.{Distinct, Indexed, Within, Rearranged}
use charades.PendingHeap.Loops.{Restored}

abbrev pub Holds : PendingHeap → Ptr → Type 0
Holds h e = Within h.nelems h e

pub record IsValid (h : PendingHeap) : Type 0 where
  pub ordered : IsHeap h.nelems (key h)
  pub distinct : Distinct h.nelems h
  pub indexed : Indexed h.nelems h
  pub owned : (e : Ptr) → Holds h e → h.mem.owner e ≡ chare_q
  pub fits : h.nelems ≤ h.curr_max

pub init-IsValid : (mem : Events) → IsValid (init mem)
unfolding init
init-IsValid mem = record {
  ordered = λ c a b. absurd (omega arith);
  distinct = λ i j a b e. absurd (omega arith);
  indexed = λ i a. absurd (omega arith);
  owned = λ e (i, a, b). absurd (omega arith);
  fits = omega arith;
}

-- No event has another timestamp.
abbrev pub SameTimes : PendingHeap → PendingHeap → Type 0
SameTimes h r = (e : Ptr) → r.mem.ts e ≡ h.mem.ts e

-- `r` holds the events of `h` and `e`, and nothing else.
abbrev pub HoldsAlso : Ptr → PendingHeap → PendingHeap → Type 0
HoldsAlso e h r = (u : Ptr) → Holds r u ↔ (Holds h u ⊎ (u ≡ e))

-- `r` holds the events of `h` less `e`, and nothing else.
abbrev pub HoldsLess : Ptr → PendingHeap → PendingHeap → Type 0
HoldsLess e h r = (u : Ptr) → Holds r u ↔ (Holds h u × (u ≢ e))

-- What a loop restores is valid, and holds the same events.
pub Restored-IsValid :
    {h r : PendingHeap}
    → Restored h.nelems h r
    → ((e : Ptr) → Holds h e → h.mem.owner e ≡ chare_q)
    → h.nelems ≤ h.curr_max
    → IsValid r
Restored-IsValid (heap, s) owned fits = record {
  ordered = λ c a b. heap c a (omega (arith, s.nelems));
  distinct = λ i j a b e. s.distinct i j (omega (arith, s.nelems)) (omega (arith, s.nelems)) e;
  indexed = λ i a. s.indexed i (omega (arith, s.nelems));
  owned = λ e (i, a, b).
      ap (λ (m : Events). m.owner e) s.mem ∙ owned e (s.there e (i, omega (arith, s.nelems), b));
  fits = omega (arith, s.nelems, s.curr_max);
}

pub Restored-Holds :
    {h r : PendingHeap} → Rearranged h.nelems h r → (e : Ptr) → Holds r e ↔ Holds h e
Restored-Holds s e = (
  λ (i, a, b). s.there e (i, omega (arith, s.nelems), b),
  λ w. let (i, a, b) = s.here e w in (i, omega (arith, s.nelems), b),
)
