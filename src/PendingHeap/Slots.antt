-- ===== src/PendingHeap/Slots.antt =====
-- What an exchange of two slots of the pending heap keeps.
use charades.Prelude.{ℕ, ◌<◌, ◌≡◌, refl, ◌∙◌, ap, arith, Ptr, ◌==◌, if◌then◌else◌}
use charades.HeapOrder.{exchanged}
use charades.Event.{Events, u8}
use charades.PendingHeap.{PendingHeap, swap, key}

-- No event is in two of the first `n` slots.
abbrev pub Distinct : ℕ → PendingHeap → Type 0
Distinct n h = (i j : ℕ) → i < n → j < n → h.elems i ≡ h.elems j → i ≡ j

-- The index field of an event in one of the first `n` slots is the slot, cut to a byte.
abbrev pub Indexed : ℕ → PendingHeap → Type 0
Indexed n h = (i : ℕ) → i < n → h.mem.index (h.elems i) ≡ u8 i

-- The event is in one of the first `n` slots.
abbrev pub Within : ℕ → PendingHeap → Ptr → Type 0
Within n h e = (i : ℕ) × (i < n) × (h.elems i ≡ e)

-- `r` holds the events of `h` in the first `n` slots, perhaps elsewhere, and differs in nothing else
-- but their index fields.
pub record Rearranged (n : ℕ) (h r : PendingHeap) : Type 0 where
  pub nelems : r.nelems ≡ h.nelems
  pub curr_max : r.curr_max ≡ h.curr_max
  pub mem : r.mem ≡ record h.mem { index = r.mem.index }
  pub distinct : Distinct n r
  pub indexed : Indexed n r
  pub here : (e : Ptr) → Within n h e → Within n r e
  pub there : (e : Ptr) → Within n r e → Within n h e

pub Rearranged-refl : (n : ℕ) (h : PendingHeap) → Distinct n h → Indexed n h → Rearranged n h h
Rearranged-refl n h d v = record {
  nelems = refl;
  curr_max = refl;
  mem = refl;
  distinct = d;
  indexed = v;
  here = λ e w. w;
  there = λ e w. w;
}

pub Rearranged-trans :
    {n : ℕ} {h r s : PendingHeap} → Rearranged n h r → Rearranged n r s → Rearranged n h s
Rearranged-trans {s} a b = record {
  nelems = b.nelems ∙ a.nelems;
  curr_max = b.curr_max ∙ a.curr_max;
  mem = b.mem ∙ ap (λ (m : Events). record m { index = s.mem.index }) a.mem;
  distinct = b.distinct;
  indexed = b.indexed;
  here = λ e w. b.here e (a.here e w);
  there = λ e w. a.there e (b.there e w);
}

-- Rearranging changes no timestamp.
pub Rearranged-ts :
    {n : ℕ} {h r : PendingHeap} → Rearranged n h r → (e : Ptr) → r.mem.ts e ≡ h.mem.ts e
Rearranged-ts s e = ap (λ (m : Events). m.ts e) s.mem

-- The slot where an exchange of `i` and `j` puts the entry of slot `k`.
abbrev other : ℕ → ℕ → ℕ → ℕ
other i j k = if i == k then j else if j == k then i else k

module _ (n : ℕ) (h : PendingHeap) (i j : ℕ) where
  pub key-swap : (k : ℕ) → key (swap h i j) k ≡ exchanged (key h) i j k
  unfolding swap
  key-swap k = ground arith

  module _ (d : Distinct n h) (v : Indexed n h) (p : i < n) (p' : j < n) where
    swap-Distinct : Distinct n (swap h i j)
    unfolding swap
    swap-Distinct k l a b e = ground (arith, d k l, d i l, d j l, d k i, d k j, d i j)

    swap-Indexed : Indexed n (swap h i j)
    unfolding swap
    swap-Indexed k a = ground (arith, v k, d i k, d j k, d i j)

    swap-here : (e : Ptr) → Within n h e → Within n (swap h i j) e
    unfolding swap
    swap-here e (k, a, b) = (other i j k, ground arith, ground arith)

    swap-there : (e : Ptr) → Within n (swap h i j) e → Within n h e
    unfolding swap
    swap-there e (k, a, b) = (other i j k, ground arith, ground arith)

    pub swap-Rearranged : Rearranged n h (swap h i j)
    unfolding swap
    swap-Rearranged = record {
      nelems = refl;
      curr_max = refl;
      mem = refl;
      distinct = swap-Distinct;
      indexed = swap-Indexed;
      here = swap-here;
      there = swap-there;
    }
