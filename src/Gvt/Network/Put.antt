-- ===== src/Gvt/Network/Put.antt =====
-- A step of one processor keeps what holds in a round, if it keeps a few things at that processor.
use charades.Prelude.{
  ℕ, ◌+◌, ◌<◌, ◌≤◌, ◌≡◌, ◌≢◌, sym, ap, ◌⊎◌, inl, inr, arith, Bool, true, List, subst,
}
use charades.Gvt.Network.{Msg, Pe, Network, total, put}
use charades.Gvt.Network.Totals.{count, All, total_change}
use charades.Gvt.Network.Invariant.{
  IsPe, IsDone, IsFinal, IsCovered, IsSettled, IsRound, other, low,
}

eq_or_ne : (i j : ℕ) → (j ≡ i) ⊎ (j ≢ i)
eq_or_ne i j = omega arith

module _ (expected : Bool) (n p lost : ℕ) (s : Network) (i : ℕ) (e : Pe) (fl : List Msg) where
  pub put-here : (put s i e fl).pes i ≡ e
  put-here = ground arith

  pub put-there : (j : ℕ) → j ≢ i → (put s i e fl).pes j ≡ s.pes j
  put-there j h = ground arith

  -- A property of all processors, at the new one and at the others.
  pub put_all {ℓ} :
      (P : ℕ → Pe → Type ℓ)
      → ((j : ℕ) → j < n → P j (s.pes j))
      → P i e
      → (j : ℕ) → j < n
      → P j ((put s i e fl).pes j)
  put_all P a b j h = elim (eq_or_ne i j) [
    | inl c ↦ subst (λ k. P k ((put s i e fl).pes k)) (sym c) (subst (P i) (sym put-here) b)
    | inr c ↦ subst (P j) (sym (put-there j c)) (a j h)
  ]

  -- What a step must keep at the processor.
  pub record Kept : Type 0 where
    pub bound : i < n
    pub pe : IsPe p e
    pub active : (s.pes i).gvt.active ≡ true → e.gvt.active ≡ true
    pub lower : (s.pes i).gvt.active ≡ true → low expected e ≤ low expected (s.pes i)
    pub balance :
        e.gvt.sent p + (s.pes i).gvt.received p + count p s.flying
        ≡ (s.pes i).gvt.sent p + e.gvt.received p + count p fl
    pub final : IsFinal e → IsSettled n p lost s
    pub settled : count p s.flying ≡ 0 → IsSettled n p lost s → count p fl ≡ 0

  module _ (k : Kept) where
    pub IsCovered-put : (t : ℕ) → IsCovered expected n s t → IsCovered expected n (put s i e fl) t
    IsCovered-put t (j, lt, act, le) = elim (eq_or_ne i j) [
      | inl c ↦
          let act' : (s.pes i).gvt.active ≡ true = subst (λ k. (s.pes k).gvt.active ≡ true) c act in
          let le' : low expected (s.pes i) ≤ t = subst (λ k. low expected (s.pes k) ≤ t) c le in
          let l = k.lower act' in
          (
            i,
            k.bound,
            subst (λ x. x.gvt.active ≡ true) (sym put-here) (k.active act'),
            subst (λ x. low expected x ≤ t) (sym put-here) (omega arith),
          )
      | inr c ↦ (
        j,
        lt,
        subst (λ x. x.gvt.active ≡ true) (sym (put-there j c)) act,
        subst (λ x. low expected x ≤ t) (sym (put-there j c)) le,
      )
    ]

    IsSettled-put : IsSettled n p lost s → IsSettled n p lost (put s i e fl)
    IsSettled-put (act, c, z) = (
      put_all (λ j x. x.gvt.active ≡ true) act (k.active (act i k.bound)),
      k.settled c (act, c, z),
      z,
    )

    balance-put :
        total n (λ j. (s.pes j).gvt.sent p)
          ≡ total n (λ j. (s.pes j).gvt.received p) + count p s.flying + lost
        → total n (λ j. ((put s i e fl).pes j).gvt.sent p)
          ≡ total n (λ j. ((put s i e fl).pes j).gvt.received p) + count p fl + lost
    balance-put b =
        let x =
          total_change n (λ j. ((put s i e fl).pes j).gvt.sent p) (λ j. (s.pes j).gvt.sent p) i
            k.bound (λ j c. ap (λ y. y.gvt.sent p) (put-there j c)) in
        let y =
          total_change n (λ j. ((put s i e fl).pes j).gvt.received p)
            (λ j. (s.pes j).gvt.received p) i k.bound
            (λ j c. ap (λ z. z.gvt.received p) (put-there j c)) in
        let u = ap (λ z. z.gvt.sent p) put-here in
        let w = ap (λ z. z.gvt.received p) put-here in let q = k.balance in omega arith

    pub put-IsRound :
        IsRound expected n p lost s
        → All
            (λ m. (m.phase ≡ p) ⊎ ((m.phase ≡ other p) × IsCovered expected n (put s i e fl) m.ts))
            fl
        → (expected ≡ true → IsDone e → IsCovered expected n (put s i e fl) e.local)
        → IsRound expected n p lost (put s i e fl)
    put-IsRound v a d = record {
      phase = v.phase;
      pes = put_all (λ j x. IsPe p x) v.pes k.pe;
      balance = balance-put v.balance;
      flying = a;
      final =
          put_all (λ j x. IsFinal x → IsSettled n p lost (put s i e fl))
            (λ j h f. IsSettled-put (v.final j h f)) (λ f. IsSettled-put (k.final f));
      local = λ q.
          put_all (λ j x. IsDone x → IsCovered expected n (put s i e fl) x.local)
            (λ j h f. IsCovered-put (s.pes j).local (v.local q j h f)) (d q);
    }
