-- ===== src/Lp/Stored.antt =====
-- Freeing an event succeeds, with the events that it sent to other chares, and keeps the tree in order.
use charades.Prelude.{
  ℕ, zero, suc, ◌+◌, ◌<◌, ◌≤◌, ◌≡◌, ◌≢◌, refl, sym, subst, ◌∙◌, Bool, false, Bool-cases, Ptr, null,
  write, ◌⊎◌, inl, inr, if◌then◌else◌, some, List, [], ◌∷◌, length, arith,
}
use charades.Event.{Events}
use charades.AvlTree.{Pool}
use charades.EventBuffer.{free_event}
use charades.Lp.Freeing.{is_sent, Store, leave_tree, give_back, free_caused, free_optimistic}
use charades.Lp.Hashed.{IsHashed, IsHashed-same, leave_tree-IsHashed}

-- A chain of events by `cause_next`.
abbrev pub IsChain : Events → Ptr → List Ptr → Type 0
IsChain m x [] = x ≡ null
IsChain m x (k ∷ ks) = (x ≡ k) × (k ≢ null) × IsChain m (m.cause_next k) ks

-- The events of a chain that were sent to other chares have caused none, and are not in the tree.
abbrev pub AreLeaves : Events → (Ptr → Bool) → List Ptr → Type 0
AreLeaves m in_tree [] = Unit {0}
AreLeaves m in_tree (k ∷ ks) =
    ((is_sent (m.owner k) ≡ false) ⊎ ((m.caused_by_me k ≡ null) × (in_tree k ≡ false)))
    × AreLeaves m in_tree ks

-- How many events of a list were sent to other chares.
abbrev pub count_sent : Events → List Ptr → ℕ
count_sent m [] = 0
count_sent m (k ∷ ks) = (if is_sent (m.owner k) then 1 else 0) + count_sent m ks

module _ (m : Events) where
  pub leaves-fewer :
      (f g : Ptr → Bool)
      → ((x : Ptr) → f x ≡ false → g x ≡ false)
      → (ks : List Ptr) → AreLeaves m f ks
      → AreLeaves m g ks
  leaves-fewer f g h [] l = tt
  leaves-fewer f g h (k ∷ ks) (inl t, ls) = (inl t, leaves-fewer f g h ks ls)
  leaves-fewer f g h (k ∷ ks) (inr (c, t), ls) = (inr (c, h k t), leaves-fewer f g h ks ls)

  give_back_returns :
      (s : Store) (e : Ptr)
      → s.buffer.stack_pointer < s.buffer.max_events
      → (s' : Store) × (give_back m s e ≡ some s')
        × (s'.tree ≡ s.tree)
        × (s'.pool ≡ s.pool)
        × (s'.buffer.stack_pointer ≡ s.buffer.stack_pointer + 1)
        × (s'.buffer.max_events ≡ s.buffer.max_events)
  unfolding give_back free_event
  give_back_returns s e h = (
    record s {
      buffer = record s.buffer {
        stack_pointer = s.buffer.stack_pointer + 1;
        buffer = write s.buffer.buffer s.buffer.stack_pointer e;
      };
    },
    ground arith,
    refl,
    refl,
    refl,
    refl,
  )

  pub free_leaf :
      (fuel : ℕ) (s : Store) (e : Ptr)
      → m.caused_by_me e ≡ null
      → s.pool.in_tree e ≡ false
      → free_optimistic m (suc fuel) s e ≡ give_back m s e
  unfolding free_optimistic leave_tree free_caused
  free_leaf zero s e h k = ground arith
  free_leaf (suc fuel) s e h k = ground arith

  free_caused_returns :
      (fuel n : ℕ) (s : Store) (x : Ptr) (ks : List Ptr)
      → IsChain m x ks
      → AreLeaves m s.pool.in_tree ks
      → length ks < suc n
      → s.buffer.stack_pointer + count_sent m ks ≤ s.buffer.max_events
      → (s' : Store) × (free_caused m (λ s x. free_optimistic m (suc fuel) s x) n s x ≡ some s')
        × (s'.tree ≡ s.tree)
        × (s'.pool ≡ s.pool)
        × (s'.buffer.stack_pointer ≡ s.buffer.stack_pointer + count_sent m ks)
        × (s'.buffer.max_events ≡ s.buffer.max_events)
  unfolding free_caused
  free_caused_returns fuel zero s x [] c l b r = (s, ground arith, refl, refl, omega arith, refl)
  free_caused_returns fuel (suc n) s x [] c l b r = (s, ground arith, refl, refl, omega arith, refl)
  free_caused_returns fuel zero s x (k ∷ ks) c l b r = absurd (omega arith)
  free_caused_returns fuel (suc n) s x (k ∷ ks) (c, ne, cs) (l, ls) b r =
      elim (Bool-cases (is_sent (m.owner k))) [
        | inl t ↦
            (let (s1, e1, t1, p1, b1, x1) = give_back_returns s k (ground arith) in
              let (s2, e2, t2, p2, b2, x2) =
                free_caused_returns fuel n s1 (m.cause_next k) ks cs
                  (subst (λ (p : Pool). AreLeaves m p.in_tree ks) (sym p1) ls) (omega arith)
                  (ground arith) in
              (
                s2,
                ground (arith, e1, e2, free_leaf fuel s k),
                t2 ∙ t1,
                p2 ∙ p1,
                ground arith,
                x2 ∙ x1,
              ))
        | inr t ↦
            (let (s2, e2, t2, p2, b2, x2) =
                free_caused_returns fuel n s (m.cause_next k) ks cs ls (omega arith)
                  (ground arith) in
              (s2, ground (arith, e2), t2, p2, ground arith, x2))
      ]

  -- An event whose chain ends, and whose sent events are leaves, is freed with these.
  pub free_optimistic_returns :
      (fuel : ℕ) (s : Store) (e : Ptr) (ks : List Ptr)
      → IsHashed m s
      → IsChain m (m.caused_by_me e) ks
      → AreLeaves m s.pool.in_tree ks
      → length ks + 1 < fuel
      → s.buffer.stack_pointer + count_sent m ks < s.buffer.max_events
      → (s' : Store) × (free_optimistic m fuel s e ≡ some s')
        × IsHashed m s'
        × ((x : Ptr) → s.pool.in_tree x ≡ false → s'.pool.in_tree x ≡ false)
        × (s'.buffer.stack_pointer ≡ s.buffer.stack_pointer + count_sent m ks + 1)
        × (s'.buffer.max_events ≡ s.buffer.max_events)
  unfolding free_optimistic
  free_optimistic_returns zero s e ks v c l b r = absurd (omega arith)
  free_optimistic_returns (suc zero) s e ks v c l b r = absurd (omega arith)
  free_optimistic_returns (suc (suc fuel)) s e ks v c l b r =
      let (s1, e1, v1, b1, f1) = leave_tree-IsHashed m s e v in
      let (s2, e2, t2, p2, n2, x2) =
        free_caused_returns fuel (suc fuel) s1 (m.caused_by_me e) ks c
          (leaves-fewer s.pool.in_tree s1.pool.in_tree f1 ks l) (omega arith) (ground arith) in
      let (s3, e3, t3, p3, n3, x3) = give_back_returns s2 e (ground arith) in
      (
        s3,
        ground (arith, e1, e2, e3),
        IsHashed-same m s1 s3 (t3 ∙ t2) (p3 ∙ p2) v1,
        λ x f. ground (arith, f1 x f, p2, p3),
        ground arith,
        ground arith,
      )
