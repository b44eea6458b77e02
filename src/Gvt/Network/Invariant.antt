-- ===== src/Gvt/Network/Invariant.antt =====
-- What holds in a round that counts the messages of phase `p`.
use charades.Prelude.{ℕ, ◌+◌, ◌%◌, ◌<◌, ◌≤◌, ◌≡◌, ◌⊎◌, Bool, true, false}
use charades.Gvt.Phased.{nothing, counts, minimum}
use charades.Gvt.Network.{no_mail, counted, Pe, Network, total}
use charades.Gvt.Network.Totals.{count, All}

abbrev pub other : ℕ → ℕ
other p = (p + 1) % 2

-- The state of a processor, before and after it has begun the round.
pub record IsPe (p : ℕ) (e : Pe) : Type 0 where
  pub idle :
      e.gvt.active ≡ false → (e.gvt.producing_phase ≡ p) × (e.given ≡ nothing) × (e.mail ≡ no_mail)
  pub busy : e.gvt.active ≡ true → (e.gvt.active_phase ≡ p) × (e.gvt.producing_phase ≡ other p)
  pub given_counts :
      (a b : ℕ)
      → e.given ≡ counts a b
      → (e.gvt.active ≡ true) × (a ≡ e.gvt.sent p) × (b ≤ e.gvt.received p)
  pub mailed : (x y : ℕ) → e.mail ≡ counted x y → (e.gvt.active ≡ true) × (e.given ≡ nothing)

-- The processor gave its minimum, or is about to.
abbrev pub IsDone : Pe → Type 0
IsDone e = (t : ℕ) × (e.given ≡ minimum t)

abbrev pub IsFinal : Pe → Type 0
IsFinal e = IsDone e ⊎ ((x : ℕ) × (e.mail ≡ counted x x))

-- The least time that a processor answers for, if the schedulers do as expected: its contribution, or the
-- least time that it sent. Otherwise it answers only for what it sent.
abbrev pub low : Bool → Pe → ℕ
low true e = elim e.given [ minimum t ↦ t | _ ↦ e.gvt.min_sent ]
low false e = e.gvt.min_sent

-- A processor in the round answers for a time.
abbrev pub IsCovered : Bool → ℕ → Network → ℕ → Type 0
IsCovered expected n s t =
    (i : ℕ) × (i < n) × ((s.pes i).gvt.active ≡ true) × (low expected (s.pes i) ≤ t)

-- Every processor is in the round, no message of the phase is in flight, and none is lost.
abbrev pub IsSettled : ℕ → ℕ → ℕ → Network → Type 0
IsSettled n p lost s =
    ((i : ℕ) → i < n → (s.pes i).gvt.active ≡ true) × (count p s.flying ≡ 0) × (lost ≡ 0)

-- `lost` is the number of messages of the phase that were received, but are counted no more.
pub record IsRound (expected : Bool) (n p lost : ℕ) (s : Network) : Type 0 where
  pub phase : p < 2
  pub pes : (i : ℕ) → i < n → IsPe p (s.pes i)
  pub balance :
      total n (λ i. (s.pes i).gvt.sent p)
      ≡ total n (λ i. (s.pes i).gvt.received p) + count p s.flying + lost
  pub flying :
      All (λ m. (m.phase ≡ p) ⊎ ((m.phase ≡ other p) × IsCovered expected n s m.ts)) s.flying
  pub final : (i : ℕ) → i < n → IsFinal (s.pes i) → IsSettled n p lost s
  pub local :
      expected ≡ true → (i : ℕ) → i < n → IsDone (s.pes i) → IsCovered expected n s (s.pes i).local
