-- ===== src/Lp/Fossils.antt =====
-- fossil_me commits the processed events that are older than the GVT, from the back of the queue.
use charades.Prelude.{
  ℕ, zero, suc, ◌+◌, ◌<◌, ◌≤◌, ◌≡◌, refl, sym, ap, ◌∙◌, Bool-cases, Ptr, null, ltb, ◌⊎◌, inl, inr,
  some, List, [], ◌∷◌, length, arith, ◌==◌, ◌++◌, length-append, at, ◌-◌, ◌%◌, ◌^◌, ◌&&◌, not,
  at-length, length-drop_last, drop_last,
}
use charades.Event.{Events}
use charades.ProcessedQueue.{back}
use charades.Setup.{optimistic}
use charades.Lp.{Chare, Model, Place, processed_events}
use charades.ProcessedQueue.Links.{IsQueue}
use charades.Lp.Rolling.{fossil_loop, fossil_me}
use charades.ProcessedQueue.Back.{pop_back-drop_last}
use charades.Lp.Freeable.{AreFreeable, committed, round, drop_last-last}

append_nil : (xs : List Ptr) → xs ++ [] ≡ xs
append_nil [] = refl
append_nil (x ∷ xs) = ap (λ ys. x ∷ ys) (append_nil xs)

append_assoc : (xs ys zs : List Ptr) → (xs ++ ys) ++ zs ≡ xs ++ (ys ++ zs)
append_assoc [] ys zs = refl
append_assoc (x ∷ xs) ys zs = ap (λ ws. x ∷ ws) (append_assoc xs ys zs)

module _ {S D : Type 0} (model : Model S D) (place : Place) (fuel : ℕ) (kids : Ptr → List Ptr) where
  -- The state of the LPs after the commits of a part of the queue, from its back.
  abbrev pub commit_all : Chare S D → S → List Ptr → S
  commit_all c s [] = s
  commit_all c s (x ∷ xs) =
      model.commit (commit_all c s xs) (c.mem.lp x) (c.mem.ts x) (c.messages x)

  -- The time of the event that is committed last.
  abbrev pub last_time : Events → ℕ → List Ptr → ℕ
  last_time m t [] = t
  last_time m t (x ∷ xs) = m.ts x % 2 ^ 32

  abbrev pub AllBefore : Events → ℕ → List Ptr → Type 0
  AllBefore m gvt [] = Unit {0}
  AllBefore m gvt (x ∷ xs) = (m.ts x < gvt) × AllBefore m gvt xs

  -- What fossil_me makes of the processed events `xs`: it keeps a front part, which ends with an event that
  -- is not older than the GVT, and commits the rest, from the back.
  pub record Committed (gvt : ℕ) (c : Chare S D) (xs kept gone : List Ptr) (c' : Chare S D)
      : Type 0 where
    pub parts : xs ≡ kept ++ gone
    pub queue : IsQueue (processed_events c') kept
    pub old : AllBefore c.mem gvt gone
    pub young : (length kept ≡ 0) ⊎ (gvt ≤ c.mem.ts (at kept (length kept - 1)))
    pub count : c'.committed_events ≡ c.committed_events + length gone
    pub lps : c'.lps ≡ commit_all c c.lps gone
    pub time : c'.committed_time ≡ last_time c.mem c.committed_time gone

  before-append :
      (m : Events) (gvt : ℕ) (xs : List Ptr) (x : Ptr)
      → AllBefore m gvt xs
      → m.ts x < gvt
      → AllBefore m gvt (xs ++ x ∷ [])
  before-append m gvt [] x b h = (h, tt)
  before-append m gvt (y ∷ ys) x (k, b) h = (k, before-append m gvt ys x b h)

  before-times :
      (m m' : Events) (gvt : ℕ)
      → ((x : Ptr) → m'.ts x ≡ m.ts x)
      → (xs : List Ptr) → AllBefore m' gvt xs
      → AllBefore m gvt xs
  before-times m m' gvt t [] b = tt
  before-times m m' gvt t (x ∷ xs) (k, b) = (omega (arith, t x), before-times m m' gvt t xs b)

  commit-append :
      (c : Chare S D) (s : S) (xs : List Ptr) (x : Ptr)
      → commit_all c s (xs ++ x ∷ [])
        ≡ commit_all c (model.commit s (c.mem.lp x) (c.mem.ts x) (c.messages x)) xs
  commit-append c s [] x = refl
  commit-append c s (y ∷ ys) x =
      ap (λ s. model.commit s (c.mem.lp y) (c.mem.ts y) (c.messages y)) (commit-append c s ys x)

  commit-same :
      (c c' : Chare S D) (s : S)
      → ((x : Ptr) → c'.mem.ts x ≡ c.mem.ts x)
      → ((x : Ptr) → c'.mem.lp x ≡ c.mem.lp x)
      → c'.messages ≡ c.messages
      → (xs : List Ptr) → commit_all c' s xs ≡ commit_all c s xs
  commit-same c c' s t l m [] = refl
  commit-same c c' s t l m (x ∷ xs) =
      ground (arith, t x, l x, ap (λ f. f x) m, commit-same c c' s t l m xs)

  time-append :
      (m m' : Events)
      → ((x : Ptr) → m'.ts x ≡ m.ts x)
      → (t : ℕ) (xs : List Ptr) (x : Ptr)
      → last_time m' (m'.ts x % 2 ^ 32) xs ≡ last_time m t (xs ++ x ∷ [])
  time-append m m' h t [] x = ap (λ n. n % 2 ^ 32) (h x)
  time-append m m' h t (y ∷ ys) x = ap (λ n. n % 2 ^ 32) (h y)

  fossil_loop-Committed :
      (opt : place.protocol ≡ optimistic) (n gvt : ℕ) (c : Chare S D) (xs : List Ptr)
      → AreFreeable model place fuel kids c xs
      → length xs < n
      → (c' : Chare S D) × (fossil_loop model place fuel n gvt c ≡ some c')
        × (kept : List Ptr) × (gone : List Ptr) × Committed gvt c xs kept gone c'
  unfolding fossil_loop back
  fossil_loop-Committed opt zero gvt c xs v b = absurd (omega arith)
  fossil_loop-Committed opt (suc n) gvt c xs v b =
      let i = length xs - 1 in
      elim (Bool-cases (not (c.queue.tail == null) && ltb (c.mem.ts c.queue.tail) gvt)) [
        | inl t ↦
            (let h : 0 < length xs = ground (arith, v.queue.tail, at-length xs (length xs - 1)) in
              let (q, p, vq, _) = pop_back-drop_last (processed_events c) xs v.queue h in
              let (c1, r) = round model place fuel kids opt c xs v h q p vq in
              let (c', e, kept, gone, k) =
                fossil_loop-Committed opt n gvt (committed model place fuel kids c (at xs i) c1)
                  (drop_last xs) r.ready (omega (arith, length-drop_last xs)) in
              (
                c',
                ground (arith, t, p, r.freed, e),
                kept,
                gone ++ at xs i ∷ [],
                record {
                  parts =
                      drop_last-last xs h
                      ∙ ap (λ ys. ys ++ at xs i ∷ []) k.parts
                      ∙ append_assoc kept gone (at xs i ∷ []);
                  queue = k.queue;
                  old =
                      before-append c.mem gvt gone (at xs i)
                        (before-times c.mem c1.mem gvt r.times gone k.old)
                        (ground (arith, v.queue.tail));
                  young = ground (arith, k.young, r.times (at kept (length kept - 1)));
                  count = omega (arith, k.count, r.count, length-append gone (at xs i ∷ []));
                  lps =
                      k.lps
                      ∙ commit-same c (committed model place fuel kids c (at xs i) c1) c1.lps
                          r.times r.lps_of r.messages gone
                      ∙ ap (λ s. commit_all c s gone) r.lps
                      ∙ sym (commit-append c c.lps gone (at xs i));
                  time = k.time ∙ time-append c.mem c1.mem r.times c.committed_time gone (at xs i);
                },
              ))
        | inr t ↦ (
          c,
          ground (arith, t),
          xs,
          [],
          record {
            parts = sym (append_nil xs);
            queue = v.queue;
            old = tt;
            young = ground (arith, v.queue.tail, v.queue.ne_null i);
            count = omega arith;
            lps = refl;
            time = refl;
          },
        )
      ]

  -- In an optimistic run, where the events of the processed queue can be freed and the fuel is above the
  -- number of events that any of them caused: fossil_me returns. It keeps a front part of the queue, empty or
  -- ending with an event no older than the GVT, and commits the events behind, all older than the GVT, each
  -- once and from the back; it counts them, and records the time of the last, cut to 32 bits.
  pub fossil_me-Committed :
      (opt : place.protocol ≡ optimistic) (gvt : ℕ) (c : Chare S D) (xs : List Ptr)
      → AreFreeable model place fuel kids c xs
      → (c' : Chare S D) × (fossil_me model place fuel gvt c ≡ some c')
        × (kept : List Ptr) × (gone : List Ptr) × Committed gvt c xs kept gone c'
  unfolding fossil_me
  fossil_me-Committed opt gvt c xs v =
      fossil_loop-Committed opt (c.queue.length + 1) gvt c xs v (omega (arith, v.queue.count))
