-- ===== src/Gvt/Network/Start.antt =====
-- The states before a round, and what holds in every state that the steps of a round lead to.
use charades.Prelude.{ℕ, ◌+◌, ◌<◌, ◌≡◌, ◌⊎◌, inl, inr, arith, Bool, false}
use charades.Gvt.Phased.{nothing}
use charades.Gvt.Network.{
  no_mail, Pe, Network, total, Step, Steps, work, send, receive, begin, reduce, check, stay, onward,
}
use charades.Gvt.Network.Totals.{count, All, All-map}
use charades.Gvt.Network.Invariant.{IsFinal, IsCovered, IsRound, other}
use charades.Gvt.Network.Round.{work-IsRound, begin-IsRound}
use charades.Gvt.Network.Messages.{send-IsRound, receive-IsRound}
use charades.Gvt.Network.Reductions.{check-IsRound, reduce-IsRound}

pub Step-IsRound :
    (expected : Bool) (n p lost : ℕ) (lb : Bool) (s s' : Network)
    → Step n lb expected s s'
    → IsRound expected n p lost s
    → IsRound expected n p lost s'
Step-IsRound expected n p lost lb _ _ (work s i t h le) v =
    work-IsRound expected n p lost s i h v t le
Step-IsRound expected n p lost lb _ _ (send s i t h le w) v =
    send-IsRound expected n p lost s i h v t le w
Step-IsRound expected n p lost lb _ _ (receive s i t x m y h f w le) v =
    receive-IsRound expected n p lost s i h v t x m y f w le
Step-IsRound expected n p lost lb _ _ (begin s i h a) v =
    begin-IsRound expected n p lost s i h v lb a
Step-IsRound expected n p lost lb _ _ (reduce s a b g x y) v =
    reduce-IsRound expected n p lost s a b v g
Step-IsRound expected n p lost lb _ _ (check s i x y g c h m k) v =
    check-IsRound expected n p lost s i h v x y g c m k

pub Steps-IsRound :
    (expected : Bool) (n p lost : ℕ) (lb : Bool) (s s' : Network)
    → Steps n lb expected s s'
    → IsRound expected n p lost s
    → IsRound expected n p lost s'
Steps-IsRound expected n p lost lb _ _ (stay s) v = v
Steps-IsRound expected n p lost lb _ _ (onward s t u x xs) v =
    Steps-IsRound expected n p lost lb t u xs (Step-IsRound expected n p lost lb s t x v)

-- Before a round: no processor is in it, all send in phase `p`, and all messages in flight are of that phase.
-- They are those that are counted as sent and not as received, but for `lost` others.
pub record IsStart (n p lost : ℕ) (s : Network) : Type 0 where
  pub phase : p < 2
  pub idle :
      (i : ℕ)
      → i < n
      → ((s.pes i).gvt.active ≡ false)
        × ((s.pes i).gvt.producing_phase ≡ p)
        × ((s.pes i).given ≡ nothing)
        × ((s.pes i).mail ≡ no_mail)
  pub balance :
      total n (λ i. (s.pes i).gvt.sent p)
      ≡ total n (λ i. (s.pes i).gvt.received p) + count p s.flying + lost
  pub flying : All (λ m. m.phase ≡ p) s.flying

pub start-IsRound :
    (expected : Bool) (n p lost : ℕ) (s : Network)
    → IsStart n p lost s
    → IsRound expected n p lost s
start-IsRound expected n p lost s v = record {
  phase = v.phase;
  pes = λ i h.
      let (a, q, g, m) = v.idle i h in
      record {
        idle = λ b. (q, g, m);
        busy = λ b. absurd (ground arith);
        given_counts = λ x y c. absurd (ground arith);
        mailed = λ x y c. absurd (ground arith);
      };
  balance = v.balance;
  flying =
      All-map (λ m. m.phase ≡ p)
        (λ m. (m.phase ≡ p) ⊎ ((m.phase ≡ other p) × IsCovered expected n s m.ts)) s.flying
        (λ m e. inl e) v.flying;
  final = λ i h f. absurd (idle_IsFinal (s.pes i) (v.idle i h).2 (v.idle i h).3 f);
  local = λ q i h f. absurd (idle_IsFinal (s.pes i) (v.idle i h).2 (v.idle i h).3 (inl f));
}
  where
    idle_IsFinal : (e : Pe) → e.given ≡ nothing → e.mail ≡ no_mail → ¬ IsFinal e
    idle_IsFinal e g m (inl (t, z)) = ground arith
    idle_IsFinal e g m (inr (x, z)) = ground arith
