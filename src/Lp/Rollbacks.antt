-- ===== src/Lp/Rollbacks.antt =====
-- rollback_me rolls back the processed events that are not older than a time, from the front of the queue.
use charades.Prelude.{
  sym, ℕ, zero, suc, ◌+◌, ◌<◌, ◌≤◌, ◌≡◌, ◌≢◌, refl, ap, subst, ◌∙◌, Bool-cases, Ptr, ◌⊎◌, inl, inr,
  some, List, [], ◌∷◌, length, arith, leb, ◌++◌, at,
}
use charades.Event.{Events}
use charades.PendingHeap.Valid.{Holds}
use charades.Setup.{optimistic}
use charades.Lp.{Chare, Model, Place, events, processed_events}
use charades.ProcessedQueue.Front.{pop_front-cons}
use charades.Lp.Rolling.{rollback_loop}
use charades.Lp.Listed.{IsNew, IsNew-left, IsNew-right, IsNew-cases, IsNew-at}
use charades.Lp.Rollable.{
  caused_by, AreRollable, mem_is, owner_is, events-popped, others, roll_back_lem,
  rolled-AreRollable,
}

module _ {S D : Type 0} (model : Model S D) (place : Place) (f : ℕ) (kids : Ptr → List Ptr) where
  -- The state of the LPs after the reverse handlers of a part of the queue, from its front.
  abbrev pub reverse_all : Chare S D → S → List Ptr → S
  reverse_all c s [] = s
  reverse_all c s (x ∷ xs) =
      reverse_all c (model.reverse s (c.mem.lp x) (c.mem.ts x) (c.messages x)).0 xs

  -- Every event of a list is pending, or was cancelled as one of the caused events `ks`.
  abbrev pub ArePending : Chare S D → List Ptr → List Ptr → Type 0
  ArePending c ks [] = Unit {0}
  ArePending c ks (x ∷ xs) = (Holds (events c) x ⊎ (¬ IsNew x ks)) × ArePending c ks xs

  pending-more :
      (c : Chare S D) (ks ls xs : List Ptr) → ArePending c ls xs → ArePending c (ks ++ ls) xs
  pending-more c ks ls [] p = tt
  pending-more c ks ls (x ∷ xs) (inl h, ps) = (inl h, pending-more c ks ls xs ps)
  pending-more c ks ls (x ∷ xs) (inr n, ps) =
      (inr (λ m. n (IsNew-right x ks ls m)), pending-more c ks ls xs ps)

  abbrev pub AllFrom : Events → ℕ → List Ptr → Type 0
  AllFrom m ts [] = Unit {0}
  AllFrom m ts (x ∷ xs) = (ts ≤ m.ts x) × AllFrom m ts xs

  -- What the loop of rollback_me makes of the processed events `xs`.
  pub record Rewound (ts : ℕ) (c : Chare S D) (xs gone kept : List Ptr) (c' : Chare S D)
      : Type 0 where
    pub parts : xs ≡ gone ++ kept
    pub rest : AreRollable model place f kids c' kept
    pub late : AllFrom c.mem ts gone
    pub early : (length kept ≡ 0) ⊎ (c.mem.ts (at kept 0) < ts)
    pub times : (x : Ptr) → c'.mem.ts x ≡ c.mem.ts x
    pub lps : c'.lps ≡ reverse_all c c.lps gone
    pub rolled : c'.rolled_back_events ≡ c.rolled_back_events + length gone
    pub gvt : c'.last_gvt ≡ c.last_gvt
    pub holds :
        (x : Ptr)
        → IsNew x (caused_by model place f kids gone)
        → Holds (events c) x
        → Holds (events c') x
    pub held : (x : Ptr) → Holds (events c') x → Holds (events c) x ⊎ (¬ IsNew x gone)
    pub owner : (x : Ptr) → IsNew x gone → c'.mem.owner x ≡ c.mem.owner x
    pub pending : ArePending c' (caused_by model place f kids gone) gone

  reverse-same :
      (c c' : Chare S D) (s : S) (e : Ptr)
      → ((x : Ptr) → c'.mem.ts x ≡ c.mem.ts x)
      → ((x : Ptr) → c'.mem.lp x ≡ c.mem.lp x)
      → ((x : Ptr) → x ≢ e → c'.messages x ≡ c.messages x)
      → (xs : List Ptr) → IsNew e xs
      → reverse_all c' s xs ≡ reverse_all c s xs
  reverse-same c c' s e t l m [] n = refl
  reverse-same c c' s e t l m (x ∷ xs) (n, ns) =
      reverse-same c c' (model.reverse s (c'.mem.lp x) (c'.mem.ts x) (c'.messages x)).0 e t l m xs
        ns
      ∙ ground (arith, t x, l x, m x n)

  pub from-times :
      (m m' : Events) (ts : ℕ)
      → ((x : Ptr) → m'.ts x ≡ m.ts x)
      → (xs : List Ptr) → AllFrom m' ts xs
      → AllFrom m ts xs
  from-times m m' ts t [] b = tt
  from-times m m' ts t (x ∷ xs) (k, b) = (omega (arith, t x), from-times m m' ts t xs b)

  pub rollback_loop-Rewound :
      (opt : place.protocol ≡ optimistic) (n ts : ℕ) (c : Chare S D) (xs : List Ptr)
      → AreRollable model place f kids c xs
      → length xs < n
      → (c' : Chare S D) × (rollback_loop model place (suc f) n ts c ≡ some c')
        × (gone : List Ptr) × (kept : List Ptr) × Rewound ts c xs gone kept c'
  unfolding rollback_loop at
  rollback_loop-Rewound opt zero ts c xs v b = absurd (omega arith)
  rollback_loop-Rewound opt (suc n) ts c [] v b = (
    c,
    ground (arith, v.queue.count),
    [],
    [],
    record {
      parts = refl;
      rest = v;
      late = tt;
      early = inl refl;
      times = λ x. refl;
      lps = refl;
      rolled = omega arith;
      gvt = refl;
      holds = λ x n h. h;
      held = λ x h. inl h;
      owner = λ x n. refl;
      pending = tt;
    },
  )
  rollback_loop-Rewound opt (suc n) ts c (e ∷ xs) v b = elim (Bool-cases (leb ts (c.mem.ts e))) [
    | inl t ↦
        (let (q, p, vq, _) = pop_front-cons (processed_events c) xs e v.queue in
          let (c1, e1, r) = roll_back_lem model place f kids opt c e xs v q p vq in
          let m = mem_is model place f kids opt c e xs v q p vq in
          let (c', e2, gone, kept, k) =
            rollback_loop-Rewound opt n ts c1 xs
              (rolled-AreRollable model place f kids opt c e xs v q p vq c1 _ r) (omega arith) in
          (
            c',
            ground (arith, t, v.queue.head, v.queue.count, p, e1, e2),
            e ∷ gone,
            kept,
            record {
              parts = ap (λ ys. e ∷ ys) k.parts;
              rest = k.rest;
              late = (
                ground arith,
                from-times c.mem c1.mem ts (λ x. r.ts x ∙ ap (λ (m : Events). m.ts x) m) gone
                    k.late,
              );
              early =
                  ground
                    (arith, k.early, r.ts (at kept 0), ap (λ (m : Events). m.ts (at kept 0)) m);
              times = λ x. k.times x ∙ r.ts x ∙ ap (λ (m : Events). m.ts x) m;
              lps =
                  k.lps
                  ∙ reverse-same c c1 c1.lps e (λ x. r.ts x ∙ ap (λ (m : Events). m.ts x) m)
                      (λ x. r.lp x ∙ ap (λ (m : Events). m.lp x) m)
                      (λ x ne. ap (λ g. g x) r.messages ∙ ground arith) gone
                      (IsNew-left e gone kept (
                        subst (λ ys. IsNew e ys) k.parts
                          (IsNew-at e xs (others model place f kids opt c e xs v q p vq))))
                  ∙ ap (λ s. reverse_all c s gone)
                      (r.lps
                        ∙ ground
                            (arith, ap (λ (m : Events). m.ts e) m, ap (λ (m : Events). m.lp e) m));
              rolled = omega (arith, k.rolled, r.rolled);
              gvt = k.gvt ∙ r.gvt;
              holds = λ x n h.
                  k.holds x (IsNew-right x (kids e) (caused_by model place f kids gone) n)
                    (r.holds x (IsNew-left x (kids e) (caused_by model place f kids gone) n) h);
              held = λ x h. elim (k.held x h) [
                | inl w ↦ elim (r.held x w) [
                  | inl w' ↦ inl (events-popped model place f kids opt c e xs v q p vq x w')
                  | inr s ↦ inr (λ n. n.0 (sym s))
                ]
                | inr n ↦ inr (λ n'. n n'.1)
              ];
              owner = λ x (n, ns).
                  k.owner x ns
                  ∙ ground (arith, r.owner x, owner_is model place f kids opt c e xs v q p vq x, n);
              pending = (
                elim (IsNew-cases e (caused_by model place f kids gone)) [
                  | inl n ↦ inl (k.holds e n r.pending)
                  | inr n ↦
                      inr (λ n'. n (IsNew-right e (kids e) (caused_by model place f kids gone) n'))
                ],
                pending-more c' (kids e) (caused_by model place f kids gone) gone k.pending,
              );
            },
          ))
    | inr t ↦ (
      c,
      ground (arith, t, v.queue.head),
      [],
      e ∷ xs,
      record {
        parts = refl;
        rest = v;
        late = tt;
        early = inr (ground arith);
        times = λ x. refl;
        lps = refl;
        rolled = omega arith;
        gvt = refl;
        holds = λ x n h. h;
        held = λ x h. inl h;
        owner = λ x n. refl;
        pending = tt;
      },
    )
  ]
