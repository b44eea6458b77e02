-- ===== src/Gvt/Network/Messages.antt =====
-- Sending and receiving keep what holds in a round.
use charades.Prelude.{
  ℕ, ◌+◌, ◌^◌, ◌<◌, ◌≤◌, ◌≡◌, refl, sym, ◌∙◌, ap, ◌⊎◌, inl, inr, arith, Bool, true, false,
  Bool-cases, List, ◌++◌, ◌∷◌, ◌==◌, if◌then◌else◌, subst, min,
}
use charades.Gvt.Phased.{PhaseGvt, Contribution, nothing, counts, minimum, consume, produce}
use charades.Gvt.Network.{Msg, Pe, Network, put}
use charades.Gvt.Network.Totals.{count, count-append, All, All-remove}
use charades.Gvt.Network.Invariant.{IsDone, IsCovered, IsRound, other, low}
use charades.Gvt.Network.Local.{other_ne, produce-IsPe, consume-IsPe}
use charades.Gvt.Network.Round.{still, IsCovered-up, IsCovered-min}
use charades.Gvt.Network.Put.{Kept, put-here, IsCovered-put, put-IsRound}

low_le :
    (expected : Bool) (e : Pe) (t : ℕ)
    → (expected ≡ true → ¬ IsDone e)
    → e.gvt.min_sent ≤ t
    → low expected e ≤ t
low_le false e t d le = le
low_le true e t d le = elim (given_cases e.given) [
  | inl (u, g) ↦ absurd (d refl (u, g))
  | inr g ↦ g e.gvt.min_sent t le
]
  where
    given_cases :
        (c : Contribution)
        → ((u : ℕ) × (c ≡ minimum u)) ⊎ ((a t : ℕ) → a ≤ t → elim c [ minimum u ↦ u | _ ↦ a ] ≤ t)
    given_cases nothing = inr (λ a t l. l)
    given_cases (counts x y) = inr (λ a t l. l)
    given_cases (minimum u) = inl (u, refl)

pub IsDone-cases : (e : Pe) → IsDone e ⊎ (¬ IsDone e)
IsDone-cases e = cases e.given
  where
    cases : (c : Contribution) → ((t : ℕ) × (c ≡ minimum t)) ⊎ (¬ ((t : ℕ) × (c ≡ minimum t)))
    cases nothing = inr (λ d. ground arith)
    cases (counts x y) = inr (λ d. ground arith)
    cases (minimum u) = inl (u, refl)

produce-low :
    (expected : Bool) (e : Pe) (t : ℕ)
    → low expected (record e { gvt = produce t e.gvt }) ≤ low expected e
unfolding produce
produce-low true e t = ground arith
produce-low false e t = ground arith

pub produce-min_sent : (g : PhaseGvt) (t : ℕ) → (produce t g).min_sent ≤ t
unfolding produce
produce-min_sent g t = ground arith

produce-active : (g : PhaseGvt) (t : ℕ) → (produce t g).active ≡ g.active
unfolding produce
produce-active g t = refl

pub produce-count :
    (p t c : ℕ) (g : PhaseGvt)
    → g.sent g.producing_phase + 1 < 2 ^ 32
    → (produce t g).sent p + g.received p + c
      ≡ g.sent p + (produce t g).received p + ((if g.producing_phase == p then 1 else 0) + c)
unfolding produce
produce-count p t c g w = ground arith

pub consume-count :
    (p q c : ℕ) (g : PhaseGvt)
    → g.received q + 1 < 2 ^ 32
    → (consume q g).sent p + g.received p + ((if q == p then 1 else 0) + c)
      ≡ g.sent p + (consume q g).received p + c
unfolding consume
consume-count p q c g w = ground arith

pub consume-same :
    (q : ℕ) (g : PhaseGvt)
    → ((consume q g).active ≡ g.active) × ((consume q g).min_sent ≡ g.min_sent)
unfolding consume
consume-same q g = (refl, refl)

consume-low :
    (expected : Bool) (q : ℕ) (e : Pe) (t : ℕ)
    → low expected (record e { gvt = consume q e.gvt; local = t }) ≤ low expected e
unfolding consume
consume-low true q e t = omega arith
consume-low false q e t = omega arith

-- A message of a phase that has none in flight.
gone :
    {p : ℕ} {k : ℕ} (m : Msg) (c : ℕ)
    → m.phase ≡ p
    → k ≡ 0
    → k ≡ (if m.phase == p then 1 else 0) + c
    → ⊥
gone m c x y z = ground arith

module _ (expected : Bool) (n p lost : ℕ) (s : Network) (i : ℕ) (h : i < n)
    (v : IsRound expected n p lost s) where
  pub send-IsRound :
      (t : ℕ)
      → (expected ≡ true → (s.pes i).local ≤ t)
      → (s.pes i).gvt.sent (s.pes i).gvt.producing_phase + 1 < 2 ^ 32
      → IsRound expected n p lost (
          put s i
            (record (s.pes i) { gvt = produce t (s.pes i).gvt })
            (record { phase = (s.pes i).gvt.producing_phase; ts = t } ∷ s.flying))
  send-IsRound t le w =
      let e : Pe = record (s.pes i) { gvt = produce t (s.pes i).gvt } in
      let m : Msg = record { phase = (s.pes i).gvt.producing_phase; ts = t } in
      let k : Kept expected n p lost s i e (m ∷ s.flying) = record {
        bound = h;
        pe = produce-IsPe p (s.pes i) v.phase (v.pes i h) t w;
        active = λ a. produce-active (s.pes i).gvt t ∙ a;
        lower = λ a. produce-low expected (s.pes i) t;
        balance = produce-count p t (count p s.flying) (s.pes i).gvt w;
        final = v.final i h;
        settled = λ c d. ground (arith, (v.pes i h).busy (d.0 i h), other_ne p v.phase);
      } in
      let covered : (s.pes i).gvt.active ≡ true
          → IsCovered expected n (put s i e (m ∷ s.flying)) t =
        λ a.
          let own : (expected ≡ true → ¬ IsDone e)
              → IsCovered expected n (put s i e (m ∷ s.flying)) t =
            λ d. (
              i,
              h,
              subst (λ x. x.gvt.active ≡ true)
                  (sym (put-here expected n p lost s i e (m ∷ s.flying)))
                  (produce-active (s.pes i).gvt t ∙ a),
              subst (λ x. low expected x ≤ t)
                  (sym (put-here expected n p lost s i e (m ∷ s.flying)))
                  (low_le expected e t d (produce-min_sent (s.pes i).gvt t)),
            ) in
          elim (Bool-cases expected) [
            | inl q ↦ elim (IsDone-cases (s.pes i)) [
              | inl d ↦
                  IsCovered-up expected n (put s i e (m ∷ s.flying)) (s.pes i).local t
                    (IsCovered-put expected n p lost s i e (m ∷ s.flying) k (s.pes i).local
                      (v.local q i h d))
                    (le q)
              | inr d ↦ own (λ r. d)
            ]
            | inr q ↦ own (λ r. absurd cc)
          ] in
      put-IsRound expected n p lost s i e (m ∷ s.flying) k v
        (
          (elim (Bool-cases (s.pes i).gvt.active) [
            | inl a ↦ inr (((v.pes i h).busy a).1, covered a)
            | inr a ↦ inl ((v.pes i h).idle a).0
          ]),
          still expected n p lost s i h v e (m ∷ s.flying) k s.flying v.flying,
        )
        (λ q d.
          IsCovered-put expected n p lost s i e (m ∷ s.flying) k (s.pes i).local (v.local q i h d))

  pub receive-IsRound :
      (t : ℕ) (before : List Msg) (m : Msg) (after : List Msg)
      → s.flying ≡ before ++ m ∷ after
      → (s.pes i).gvt.received m.phase + 1 < 2 ^ 32
      → (expected ≡ true → min m.ts (s.pes i).local ≤ t)
      → IsRound expected n p lost (
          put s i
            (record (s.pes i) { gvt = consume m.phase (s.pes i).gvt; local = t })
            (before ++ after))
  receive-IsRound t before m after f w le =
      let e : Pe = record (s.pes i) { gvt = consume m.phase (s.pes i).gvt; local = t } in
      let c = ap (count p) f ∙ count-append p before m after in
      let k : Kept expected n p lost s i e (before ++ after) = record {
        bound = h;
        pe = consume-IsPe p (s.pes i) v.phase (v.pes i h) m.phase t w;
        active = λ a. (consume-same m.phase (s.pes i).gvt).0 ∙ a;
        lower = λ a. consume-low expected m.phase (s.pes i) t;
        balance =
            ap (λ x. e.gvt.sent p + (s.pes i).gvt.received p + x) c
            ∙ consume-count p m.phase (count p (before ++ after)) (s.pes i).gvt w;
        final = v.final i h;
        settled = λ z d. omega arith;
      } in
      let q : Msg → Type 0 =
        λ m. (m.phase ≡ p) ⊎ ((m.phase ≡ other p) × IsCovered expected n s m.ts) in
      let (head, rest) = All-remove q before m after (subst (All q) f v.flying) in
      put-IsRound expected n p lost s i e (before ++ after) k v
        (still expected n p lost s i h v e (before ++ after) k (before ++ after) rest)
        (λ z d.
          IsCovered-up expected n (put s i e (before ++ after)) (min m.ts (s.pes i).local) t
            (IsCovered-min expected n (put s i e (before ++ after)) m.ts (s.pes i).local
              (elim head [
                | inl x ↦ absurd (gone m (count p (before ++ after)) x ((v.final i h (inl d)).1) c)
                | inr (x, y) ↦ IsCovered-put expected n p lost s i e (before ++ after) k m.ts y
              ])
              (IsCovered-put expected n p lost s i e (before ++ after) k (s.pes i).local
                (v.local z i h d)))
            (le z))
