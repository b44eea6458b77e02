-- ===== src/Event/Order.antt =====
-- What the two comparators of events promise.
use charades.Prelude.{◌≤◌, ◌≡◌, ◌⊎◌, ◌≢◌, arith, Bool, Ptr, true, false}
use charades.Event.{Events, Compare, standard_less, custom_less}

module _ (compare : Compare) (m : Events) (e1 e2 : Ptr) where
  pub le_of_less : custom_less compare m e1 e2 ≡ true → m.ts e1 ≤ m.ts e2
  unfolding custom_less
  le_of_less h = ground arith

  pub le_of_not_less : custom_less compare m e1 e2 ≡ false → m.ts e2 ≤ m.ts e1
  unfolding custom_less
  le_of_not_less h = ground arith

-- The key by which the source identifies events.
abbrev pub SameKey : Events → Ptr → Ptr → Type 0
SameKey m e1 e2 =
    (m.ts e1 ≡ m.ts e2) × (m.src_lp e1 ≡ m.src_lp e2) × (m.event_id e1 ≡ m.event_id e2)

abbrev pub IsTotalOrder : (Ptr → Ptr → Bool) → (Ptr → Ptr → Type 0) → Type 0
IsTotalOrder less Same =
    ((a b : Ptr) → (less a b ≡ true) ⊎ (less b a ≡ true) ⊎ Same a b)
    × ((a b : Ptr) → less a b ≡ true → less b a ≡ false)
    × ((a b : Ptr) → Same a b → less a b ≡ false)
    × ((a b c : Ptr) → less a b ≡ true → less b c ≡ true → less a c ≡ true)

-- `StandardEventComparator` is a strict total order on events with different keys.
pub standard_less-IsTotalOrder : (m : Events) → IsTotalOrder (standard_less m) (SameKey m)
unfolding standard_less
standard_less-IsTotalOrder m =
    (λ a b. ground arith, λ a b h. ground arith, λ a b h. ground arith, λ a b c h k. ground arith)

-- `CustomEventComparator` is no such order between simultaneous events of several LPs: of three
-- events at one time, it takes neither of the first two, nor of the last two, for the earlier one,
-- and yet puts the first before the last, where these two are for one LP whose `compare` does.
pub custom_less_intransitive :
    (compare : Compare) (m : Events) (a b c : Ptr)
    → m.ts a ≡ m.ts b
    → m.ts b ≡ m.ts c
    → m.dest_lp a ≡ m.dest_lp c
    → m.dest_lp a ≢ m.dest_lp b
    → compare (m.lp a) m a c ≡ true
    → (custom_less compare m a b ≡ false)
      × (custom_less compare m b a ≡ false)
      × (custom_less compare m b c ≡ false)
      × (custom_less compare m c b ≡ false)
      × (custom_less compare m a c ≡ true)
unfolding custom_less
custom_less_intransitive compare m a b c e f g ne h =
    (ground arith, ground arith, ground arith, ground arith, ground arith)
