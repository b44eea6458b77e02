-- ===== src/Gvt/Network/Reductions.antt =====
-- The reductions keep what holds in a round: where the sums agree, no message of the phase is in flight.
use charades.Prelude.{
  ℕ, ◌<◌, ◌≤◌, ◌≡◌, sym, ◌∙◌, ap, ◌⊎◌, inl, inr, arith, Bool, true, false, subst, min, some,
}
use charades.Gvt.Phased.{PhaseGvt, Contribution, nothing, counts, minimum, check_counts}
use charades.Gvt.Network.{Mail, no_mail, counted, Pe, Network, total, put}
use charades.Gvt.Network.Totals.{count, All-map, total_same, total_mono}
use charades.Gvt.Network.Invariant.{IsCovered, IsRound, other, low}
use charades.Gvt.Network.Local.{check-IsPe, reduce-IsPe}
use charades.Gvt.Network.Round.{still}
use charades.Gvt.Network.Put.{Kept, put-here, put-IsRound}

-- check_counts at a processor that has the sums.
pub check-same :
    (local x y : ℕ) (g g' : PhaseGvt) (c : Contribution)
    → check_counts local x y g ≡ some (g', c)
    → (g'.active ≡ g.active)
      × (g'.sent ≡ g.sent)
      × (g'.received ≡ g.received)
      × (g'.min_sent ≡ g.min_sent)
unfolding check_counts
check-same local x y g g' c h = ground arith

pub check-minimum :
    (local x y t : ℕ) (g g' : PhaseGvt)
    → check_counts local x y g ≡ some (g', minimum t)
    → (x ≡ y) × (t ≡ min local g.min_sent)
unfolding check_counts
check-minimum local x y t g g' h = ground arith

check-low :
    (expected : Bool) (e : Pe) (x y : ℕ) (g : PhaseGvt) (c : Contribution)
    → e.given ≡ nothing
    → check_counts e.local x y e.gvt ≡ some (g, c)
    → low expected (record e { gvt = g; given = c; mail = no_mail }) ≤ low expected e
unfolding check_counts
check-low true e x y g c n h = ground arith
check-low false e x y g c n h = ground arith

module _ (expected : Bool) (n p lost : ℕ) (s : Network) (i : ℕ) (h : i < n)
    (v : IsRound expected n p lost s) where
  pub check-IsRound :
      (x y : ℕ) (g : PhaseGvt) (c : Contribution)
      → (s.pes i).mail ≡ counted x y
      → check_counts (s.pes i).local x y (s.pes i).gvt ≡ some (g, c)
      → IsRound expected n p lost
          (put s i (record (s.pes i) { gvt = g; given = c; mail = no_mail }) s.flying)
  check-IsRound x y g c m k =
      let e : Pe = record (s.pes i) { gvt = g; given = c; mail = no_mail } in
      let (act, snt, rec, _) = check-same (s.pes i).local x y (s.pes i).gvt g c k in
      let (on, none_given) = (v.pes i h).mailed x y m in
      let kept : Kept expected n p lost s i e s.flying = record {
        bound = h;
        pe = check-IsPe p (s.pes i) v.phase (v.pes i h) x y g c m k;
        active = λ a. act ∙ a;
        lower = λ a. check-low expected (s.pes i) x y g c none_given k;
        balance = ground arith;
        final = λ f. elim f [
          | inl (t, z) ↦ v.final i h (
              inr (
                x,
                m
                    ∙ ap (counted x) (
                        sym
                          (check-minimum (s.pes i).local x y t (s.pes i).gvt g
                            (k ∙ ap (λ u. some (g, u)) z)).0),
              ))
          | inr (u, z) ↦ absurd (ground arith)
        ];
        settled = λ z d. z;
      } in
      put-IsRound expected n p lost s i e s.flying kept v
        (still expected n p lost s i h v e s.flying kept s.flying v.flying)
        (λ q (t, z). (
          i,
          h,
          subst (λ u. u.gvt.active ≡ true) (sym (put-here expected n p lost s i e s.flying))
              (act ∙ on),
          subst (λ u. low expected u ≤ (s.pes i).local)
              (sym (put-here expected n p lost s i e s.flying))
              (done_low expected e t (s.pes i).local (s.pes i).gvt.min_sent q z
                (check-minimum (s.pes i).local x y t (s.pes i).gvt g
                  (k ∙ ap (λ u. some (g, u)) z)).1),
        ))
    where
      done_low :
          (expected : Bool) (e : Pe) (t l a : ℕ)
          → expected ≡ true
          → e.given ≡ minimum t
          → t ≡ min l a
          → low expected e ≤ l
      done_low true e t l a q z w = ground arith
      done_low false e t l a q z w = absurd cc

module _ (expected : Bool) (n p lost : ℕ) (s : Network) (a b : ℕ → ℕ)
    (v : IsRound expected n p lost s) where
  abbrev reduced : Network
  reduced = record {
    pes = λ i. record (s.pes i) { given = nothing; mail = counted (total n a) (total n b) };
    flying = s.flying;
  }

  counted-settled :
      ((i : ℕ) → i < n → (s.pes i).given ≡ counts (a i) (b i))
      → total n a ≡ total n b
      → (count p s.flying ≡ 0) × (lost ≡ 0)
  counted-settled g e =
      let x =
        total_same n a (λ i. (s.pes i).gvt.sent p)
          (λ i h. ((v.pes i h).given_counts (a i) (b i) (g i h)).1) in
      let y =
        total_mono n b (λ i. (s.pes i).gvt.received p)
          (λ i h. ((v.pes i h).given_counts (a i) (b i) (g i h)).2) in
      let z = v.balance in (omega arith, omega arith)

  reduced-IsCovered :
      ((i : ℕ) → i < n → (s.pes i).given ≡ counts (a i) (b i))
      → (t : ℕ) → IsCovered expected n s t
      → IsCovered expected n reduced t
  reduced-IsCovered g t (i, h, act, le) = (
    i,
    h,
    act,
    same expected (s.pes i) (counted (total n a) (total n b)) t (a i) (b i) (g i h) le,
  )
    where
      same :
          (expected : Bool) (e : Pe) (m : Mail) (t x y : ℕ)
          → e.given ≡ counts x y
          → low expected e ≤ t
          → low expected (record e { given = nothing; mail = m }) ≤ t
      same true e m t x y g le = ground arith
      same false e m t x y g le = le

  pub reduce-IsRound :
      ((i : ℕ) → i < n → (s.pes i).given ≡ counts (a i) (b i)) → IsRound expected n p lost reduced
  reduce-IsRound g = record {
    phase = v.phase;
    pes = λ i h.
        reduce-IsPe p (s.pes i) v.phase (v.pes i h) (a i) (b i) (total n a) (total n b) (g i h);
    balance = v.balance;
    flying =
        All-map (λ m. (m.phase ≡ p) ⊎ ((m.phase ≡ other p) × IsCovered expected n s m.ts))
          (λ m. (m.phase ≡ p) ⊎ ((m.phase ≡ other p) × IsCovered expected n reduced m.ts)) s.flying
          (λ m c. elim c [ inl q ↦ inl q | inr (q, d) ↦ inr (q, reduced-IsCovered g m.ts d) ])
          v.flying;
    final = λ i h f.
        let (c, z) : (count p s.flying ≡ 0) × (lost ≡ 0) = elim f [
          | inl (t, z) ↦ absurd (ground arith)
          | inr (x, z) ↦ counted-settled g (ground arith)
        ] in
        (λ j k. ((v.pes j k).given_counts (a j) (b j) (g j k)).0, c, z);
    local = λ q i h (t, z). absurd (ground arith);
  }
