-- ===== src/Gvt/Network/Cut.antt =====
-- The messages and the counts of a round, for schedulers that do anything.
use charades.Prelude.{ℕ, ◌<◌, ◌≤◌, ◌≡◌, ◌⊎◌, inl, inr, arith, Bool, true, false, List, [], ◌∷◌}
use charades.Gvt.Network.{Msg, Network, Steps, total}
use charades.Gvt.Network.Totals.{count, All, All-map}
use charades.Gvt.Network.Invariant.{IsDone, IsCovered, other}
use charades.Gvt.Network.Start.{IsStart, start-IsRound, Steps-IsRound}

-- With no message of phase `p` in flight, those in flight are covered.
pub later :
    (p : ℕ) (P : Msg → Type 0) (ms : List Msg)
    → count p ms ≡ 0
    → All (λ m. (m.phase ≡ p) ⊎ ((m.phase ≡ other p) × P m)) ms
    → All P ms
later p P [] c a = tt
later p P (m ∷ ms) c a = elim a.0 [
  | inl e ↦ absurd (ground arith)
  | inr (e, x) ↦ (x, later p P ms (omega arith) a.1)
]

-- A message of the other phase, no earlier than the least time that some processor has sent in the round.
abbrev pub IsSeen : ℕ → ℕ → Network → Msg → Type 0
IsSeen n p s m =
    (m.phase ≡ other p)
    × ((j : ℕ) × (j < n) × ((s.pes j).gvt.active ≡ true) × ((s.pes j).gvt.min_sent ≤ m.ts))

-- The sums of a round cut off its messages, whatever the schedulers do. From any state in which no
-- processor is in the round, all send in its phase, and the messages in flight are those of the phase that
-- are counted as sent and not as received, by any steps in which no count reaches 2^32: once one processor
-- contributes its minimum, all processors have begun the round, as many messages of the phase are received
-- as sent, and every message in flight is of the other phase and no earlier than the least time that some
-- processor has sent since it began.
pub gvt_cut :
    (n p : ℕ) (lb : Bool) (s s' : Network) (i : ℕ)
    → IsStart n p 0 s
    → Steps n lb false s s'
    → i < n
    → IsDone (s'.pes i)
    → ((j : ℕ) → j < n → (s'.pes j).gvt.active ≡ true)
      × (total n (λ j. (s'.pes j).gvt.sent p) ≡ total n (λ j. (s'.pes j).gvt.received p))
      × All (IsSeen n p s') s'.flying
gvt_cut n p lb s s' i v xs h d =
    let w = Steps-IsRound false n p 0 lb s s' xs (start-IsRound false n p 0 s v) in
    let (a, c, _) = w.final i h (inl d) in
    let b = w.balance in
    (
      a,
      omega arith,
      later p (IsSeen n p s') s'.flying c (
          All-map (λ m. (m.phase ≡ p) ⊎ ((m.phase ≡ other p) × IsCovered false n s' m.ts))
            (λ m. (m.phase ≡ p) ⊎ ((m.phase ≡ other p) × IsSeen n p s' m)) s'.flying
            (λ m f. elim f [ inl e ↦ inl e | inr (e, k) ↦ inr (e, (e, k)) ]) w.flying),
    )

-- A lost message stops the computation for good. From any state in which no processor is in the round, all
-- send in its phase and all messages in flight are of it, and more messages of the phase are counted as
-- sent than are received or in flight, by any steps in which no count reaches 2^32, no processor comes to
-- contribute its minimum.
pub lost_stuck :
    (n p lost : ℕ) (lb : Bool) (s s' : Network) (i : ℕ)
    → IsStart n p lost s
    → 0 < lost
    → Steps n lb false s s'
    → i < n
    → ¬ IsDone (s'.pes i)
lost_stuck n p lost lb s s' i v l xs h d =
    let w = Steps-IsRound false n p lost lb s s' xs (start-IsRound false n p lost s v) in
    let (a, c, z) = w.final i h (inl d) in absurd (omega arith)
