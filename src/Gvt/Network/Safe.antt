-- ===== src/Gvt/Network/Safe.antt =====
-- The least of the minima of a round, for schedulers that do as expected.
use charades.Prelude.{ℕ, zero, suc, ◌<◌, ◌≤◌, ◌≡◌, refl, ◌⊎◌, inl, inr, arith, Bool, true, min}
use charades.Event.{time_max}
use charades.Gvt.Phased.{minimum}
use charades.Gvt.Network.{Pe, Network, Steps}
use charades.Gvt.Network.Totals.{All, All-map}
use charades.Gvt.Network.Invariant.{IsCovered, low}
use charades.Gvt.Network.Start.{IsStart, start-IsRound, Steps-IsRound}
use charades.Gvt.Network.Cut.{later}

-- The reduction of the minima.
abbrev pub least : ℕ → (ℕ → ℕ) → ℕ
least zero t = time_max
least (suc n) t = min (least n t) (t n)

pub least_le : (n : ℕ) (t : ℕ → ℕ) (i : ℕ) → i < n → least n t ≤ t i
least_le zero t i h = absurd (omega arith)
least_le (suc n) t i h = elim (lt_or_eq i n h) [
  | inl lt ↦ ground (arith, least_le n t i lt)
  | inr e ↦ rw e (omega arith)
]
  where
    lt_or_eq : (i n : ℕ) → i < suc n → (i < n) ⊎ (i ≡ n)
    lt_or_eq i n h = omega arith

-- The global virtual time is safe if the schedulers do as expected: if the least time of a scheduler goes
-- back no further than to the time of a message that its processor receives, and no processor sends
-- anything earlier than that time. Then, with one processor or more, from any state in which none is in the
-- round, all send in its phase, and the messages in flight are those of the phase that are counted as sent
-- and not as received, by whatever such steps, in which no count reaches 2^32, all processors came to
-- contribute their minimum, the least of these is no later than the time of any message in flight and the
-- least time of any scheduler.
pub gvt_safe :
    (n p : ℕ) (lb : Bool) (s s' : Network) (t : ℕ → ℕ)
    → IsStart n p 0 s
    → Steps n lb true s s'
    → 0 < n
    → ((i : ℕ) → i < n → (s'.pes i).given ≡ minimum (t i))
    → All (λ m. least n t ≤ m.ts) s'.flying × ((i : ℕ) → i < n → least n t ≤ (s'.pes i).local)
gvt_safe n p lb s s' t v xs h g =
    let w = Steps-IsRound true n p 0 lb s s' xs (start-IsRound true n p 0 s v) in
    let bound : (u : ℕ) → IsCovered true n s' u → least n t ≤ u =
      λ u (i, lt, a, le). reaches (s'.pes i) u (t i) (least n t) (g i lt) le (least_le n t i lt) in
    (
      All-map (λ m. IsCovered true n s' m.ts) (λ m. least n t ≤ m.ts) s'.flying
          (λ m c. bound m.ts c)
          (later p (λ m. IsCovered true n s' m.ts) s'.flying (w.final 0 h (inl (t 0, g 0 h))).1
            w.flying),
      λ i lt. bound (s'.pes i).local (w.local refl i lt (t i, g i lt)),
    )
  where
    reaches : (e : Pe) (u t k : ℕ) → e.given ≡ minimum t → low true e ≤ u → k ≤ t → k ≤ u
    reaches e u t k g le m = ground arith
