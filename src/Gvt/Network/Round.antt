-- ===== src/Gvt/Network/Round.antt =====
-- Every step of a round keeps what holds in it.
use charades.Prelude.{
  ℕ, ◌+◌, ◌<◌, ◌≤◌, ◌≡◌, refl, sym, ◌⊎◌, inl, inr, arith, Bool, true, false, List, subst, min,
}
use charades.Gvt.Phased.{PhaseGvt, begin_round, gvt_begin}
use charades.Gvt.Network.{Msg, no_mail, Pe, Network, put}
use charades.Gvt.Network.Totals.{count, All, All-map}
use charades.Gvt.Network.Invariant.{IsFinal, IsCovered, IsRound, other, low}
use charades.Gvt.Network.Local.{work-IsPe, begin-IsPe}
use charades.Gvt.Network.Put.{Kept, IsCovered-put, put-IsRound}

pub IsCovered-up :
    (expected : Bool) (n : ℕ) (s : Network) (t u : ℕ)
    → IsCovered expected n s t
    → t ≤ u
    → IsCovered expected n s u
IsCovered-up expected n s t u (j, h, a, l) le = (j, h, a, omega arith)

pub IsCovered-min :
    (expected : Bool) (n : ℕ) (s : Network) (t u : ℕ)
    → IsCovered expected n s t
    → IsCovered expected n s u
    → IsCovered expected n s (min t u)
IsCovered-min expected n s t u a b = elim (le_cases t u) [
  | inl e ↦ subst (IsCovered expected n s) (sym e) a
  | inr e ↦ subst (IsCovered expected n s) (sym e) b
]
  where
    le_cases : (t u : ℕ) → (min t u ≡ t) ⊎ (min t u ≡ u)
    le_cases t u = omega arith

relocated-low :
    (expected : Bool) (e : Pe) (t : ℕ) → low expected (record e { local = t }) ≤ low expected e
relocated-low true e t = omega arith
relocated-low false e t = omega arith

module _ (expected : Bool) (n p lost : ℕ) (s : Network) (i : ℕ) (h : i < n)
    (v : IsRound expected n p lost s) where
  -- The messages that stay in flight stay covered.
  pub still :
      (e : Pe) (fl : List Msg)
      → Kept expected n p lost s i e fl
      → (ms : List Msg)
      → All (λ m. (m.phase ≡ p) ⊎ ((m.phase ≡ other p) × IsCovered expected n s m.ts)) ms
      → All
          (λ m. (m.phase ≡ p) ⊎ ((m.phase ≡ other p) × IsCovered expected n (put s i e fl) m.ts))
          ms
  still e fl k ms a =
      All-map (λ m. (m.phase ≡ p) ⊎ ((m.phase ≡ other p) × IsCovered expected n s m.ts))
        (λ m. (m.phase ≡ p) ⊎ ((m.phase ≡ other p) × IsCovered expected n (put s i e fl) m.ts)) ms
        (λ m c. elim c [
          | inl q ↦ inl q
          | inr (q, d) ↦ inr (q, IsCovered-put expected n p lost s i e fl k m.ts d)
        ])
        a

  pub work-IsRound :
      (t : ℕ)
      → (expected ≡ true → (s.pes i).local ≤ t)
      → IsRound expected n p lost (put s i (record (s.pes i) { local = t }) s.flying)
  work-IsRound t le =
      let e : Pe = record (s.pes i) { local = t } in
      let k : Kept expected n p lost s i e s.flying = record {
        bound = h;
        pe = work-IsPe p (s.pes i) v.phase (v.pes i h) t;
        active = λ a. a;
        lower = λ a. relocated-low expected (s.pes i) t;
        balance = refl;
        final = v.final i h;
        settled = λ c d. c;
      } in
      put-IsRound expected n p lost s i e s.flying k v (still e s.flying k s.flying v.flying)
        (λ q d.
          IsCovered-up expected n (put s i e s.flying) (s.pes i).local t
            (IsCovered-put expected n p lost s i e s.flying k (s.pes i).local (v.local q i h d))
            (le q))

  pub begin-sent :
      (lb : Bool) (g : PhaseGvt) (c : ℕ)
      → (gvt_begin lb g).0.sent p + g.received p + c ≡ g.sent p + (gvt_begin lb g).0.received p + c
  unfolding gvt_begin begin_round
  begin-sent lb g c = ground arith

  begin_IsFinal :
      (lb : Bool) (e : Pe)
      → e.gvt.active ≡ false
      → e.mail ≡ no_mail
      → ¬ IsFinal (record e { gvt = (gvt_begin lb e.gvt).0; given = (gvt_begin lb e.gvt).1 })
  unfolding gvt_begin
  begin_IsFinal lb e a m (inl (t, g)) = ground arith
  begin_IsFinal lb e a m (inr (x, g)) = ground arith

  pub begin-IsRound :
      (lb : Bool)
      → (s.pes i).gvt.active ≡ false
      → IsRound expected n p lost (
          put s i
            (record (s.pes i) {
              gvt = (gvt_begin lb (s.pes i).gvt).0;
              given = (gvt_begin lb (s.pes i).gvt).1;
            })
            s.flying)
  begin-IsRound lb a =
      let e : Pe = record (s.pes i) {
        gvt = (gvt_begin lb (s.pes i).gvt).0;
        given = (gvt_begin lb (s.pes i).gvt).1;
      } in
      let k : Kept expected n p lost s i e s.flying = record {
        bound = h;
        pe = begin-IsPe p (s.pes i) v.phase (v.pes i h) lb a;
        active = λ b. absurd cc;
        lower = λ b. absurd cc;
        balance = begin-sent lb (s.pes i).gvt (count p s.flying);
        final = λ f. absurd (begin_IsFinal lb (s.pes i) a ((v.pes i h).idle a).2 f);
        settled = λ c d. c;
      } in
      put-IsRound expected n p lost s i e s.flying k v (still e s.flying k s.flying v.flying)
        (λ q d. absurd (begin_IsFinal lb (s.pes i) a ((v.pes i h).idle a).2 (inl d)))
