-- ===== src/Lp/Stragglers.antt =====
-- recv_local_event for an event that is not later than the current time.
mod Tests
use charades.Prelude.{
  ℕ, suc, ◌+◌, ◌<◌, ◌≤◌, ◌≡◌, ◌≢◌, refl, ap, subst, ◌∙◌, Bool-cases, Ptr, ◌==◌, ◌⊎◌, inl, inr, some,
  List, [], ◌∷◌, ◌++◌, length, at, arith,
}
use charades.HeapOrder.{root_least}
use charades.Event.{Events, event_null, time_max}
use charades.PendingHeap.{push, min_ts, key}
use charades.PendingHeap.Valid.{IsValid, Holds}
use charades.PendingHeap.Push.{push_adds}
use charades.ProcessedQueue.Links.{IsQueue}
use charades.Setup.{optimistic}
use charades.Lp.{Chare, Model, Place, events, set_events, processed_events}
use charades.Lp.Receiving.{recv_local_event}
use charades.Lp.Listed.{IsNew, IsNew-left, IsNew-at}
use charades.Lp.Rollable.{caused_by, AreRollable}
use charades.Lp.Rollbacks.{AllFrom, ArePending, from-times}
use charades.Lp.Restored.{IsReversible, IsHistory, pending-same}
use charades.Lp.Arriving.{arriving, hint, IsHistory-same, Before, before, apart, pushed-IsQueue}

module _ {S D : Type 0} (model : Model S D) (place : Place) (f : ℕ) (kids : Ptr → List Ptr) where
  -- What recv_local_event makes of the processed events `xs`, for the event `e`.
  pub record Received (c : Chare S D) (s0 : S) (e : Ptr) (xs gone kept : List Ptr) (c' : Chare S D)
      : Type 0 where
    pub parts : xs ≡ gone ++ kept
    pub queue : IsQueue (processed_events c') kept
    pub heap : IsValid (events c')
    pub arrived : Holds (events c') e
    pub late : AllFrom model place f kids c.mem (c.mem.ts e) gone
    pub early : (length kept ≡ 0) ⊎ (c.mem.ts (at kept 0) < c.mem.ts e)
    pub pending : ArePending model place f kids c' (caused_by model place f kids gone) gone
    pub history : IsHistory model place f kids c s0 kept c'.lps
    pub rolled : c'.rolled_back_events ≡ c.rolled_back_events + length gone

  module _ (law : IsReversible model) (opt : place.protocol ≡ optimistic) (c : Chare S D) (s0 : S)
      (e : Ptr) (xs : List Ptr) (v : AreRollable model place f kids c xs)
      (h : IsHistory model place f kids c s0 xs c.lps) (free : c.mem.owner e ≡ event_null)
      (late : c.mem.ts e ≤ c.current_time) where
    -- In an optimistic run of a model whose handlers are reversible, where the processed events can be rolled
    -- back and led from the state s0 to the present one, and an event with no owner arrives that is not later
    -- than the current time: recv_local_event returns, and the event is pending. A front part of the processed
    -- events, none earlier than the event, is rolled back: each is pending again, or was cancelled as one that
    -- these had caused. The events kept are none, or headed by an event before the one that arrived, and the
    -- state of the LPs is the one that they have led to from s0. The heap is valid, and the events rolled back are
    -- counted.
    pub recv_local_event-Received :
        (c' : Chare S D) × (recv_local_event model place (suc f) c e ≡ some c')
        × (gone : List Ptr) × (kept : List Ptr) × Received c s0 e xs gone kept c'
    recv_local_event-Received =
        let (b, gone, kept, w) = before model place f kids law opt c s0 e xs v h free late in
        let (n, n', out) = apart model place f kids law opt c s0 e xs v h free late b gone kept w in
        let a =
          arriving model place f kids c e
            (hint model place f kids law opt c s0 e xs v h free late) in
        let (vp, np, hp, tp) = push_adds model.compare (events b) e w.restored.heap out in
        let c' = set_events b (push model.compare (events b) e) in
        (
          c',
          w.result,
          gone,
          kept,
          record {
            parts = w.restored.parts;
            queue = pushed-IsQueue model place f kids law opt c s0 e xs v h free late b gone kept w;
            heap = vp;
            arrived = (hp e).1 (inr refl);
            late =
                from-times model place f kids c.mem a.mem (c.mem.ts e) (λ x. refl) gone
                  w.restored.late;
            early = w.restored.early;
            pending =
                pending-same model place f kids b c' (λ x hd. (hp x).1 (inl hd))
                  (caused_by model place f kids gone) gone w.restored.pending;
            history =
                IsHistory-same model place f kids a c e (λ x ne. ground arith) (λ x. refl)
                  (λ x. refl) s0 kept n' b.lps w.restored.history;
            rolled = w.restored.rolled;
          },
        )

    -- An event that is rolled back is processed, and not earlier.
    from-late :
        (m : Events) (ts : ℕ) (ys : List Ptr) (x : Ptr)
        → AllFrom model place f kids m ts ys
        → (¬ IsNew x ys)
        → ts ≤ m.ts x
    from-late m ts [] x a n = absurd (n tt)
    from-late m ts (y ∷ ys) x (k, a) n = elim (Bool-cases (y == x)) [
      | inl t ↦ ground arith
      | inr t ↦ from-late m ts ys x a (λ ns. n (ground arith, ns))
    ]

    module _ (first : (x : Ptr) → Holds (events c) x → c.mem.ts e < c.mem.ts x)
        (no_tie : (i : ℕ) → i < length xs → c.mem.ts (at xs i) ≢ c.mem.ts e)
        (in_time : c.mem.ts e < time_max) where
      later :
          (b : Chare S D) (gone kept : List Ptr)
          → Before model place f kids law opt c s0 e xs v h free late b gone kept
          → (x : Ptr) → Holds (events b) x
          → c.mem.ts e < b.mem.ts x
      later b gone kept w x hd = elim (w.restored.held x hd) [
        | inl h' ↦ omega (arith, first x h', w.restored.times x)
        | inr n ↦
            (let k =
                from-late
                  (arriving model place f kids c e
                    (hint model place f kids law opt c s0 e xs v h free late)).mem
                  (c.mem.ts e) gone x w.restored.late n in
              let ne : c.mem.ts x ≢ c.mem.ts e = λ s. n (
                IsNew-left x gone kept (
                  subst (λ ys. IsNew x ys) w.restored.parts
                    (IsNew-at x xs (λ i k q. no_tie i k (ap c.mem.ts q ∙ s))))) in
              ground (arith, k, ne, w.restored.times x))
      ]

      -- The scheduler loses sight of an event. In an optimistic run of a model whose handlers are reversible, where the
      -- processed events can be rolled back and led from the state s0 to the present one, and an event with no owner
      -- arrives that is before time_max, not later than the current time, earlier than every pending event, and at the
      -- time of no processed one: recv_local_event returns, and the event is the earliest pending one, but the time that
      -- the scheduler has for the chare is later.
      pub recv_local_event_late :
          (c' : Chare S D) × (recv_local_event model place (suc f) c e ≡ some c')
          × (min_ts (events c') ≡ c.mem.ts e)
          × (c.mem.ts e < c'.next_ts)
      unfolding min_ts
      recv_local_event_late =
          let (b, gone, kept, w) = before model place f kids law opt c s0 e xs v h free late in
          let (n, n', out) =
            apart model place f kids law opt c s0 e xs v h free late b gone kept w in
          let p = push model.compare (events b) e in
          let (vp, np, hp, tp) = push_adds model.compare (events b) e w.restored.heap out in
          let (i, k, s) = (hp e).1 (inr refl) in
          let root = root_least (key p) i vp.ordered k in
          let all = later b gone kept w in
          (
            set_events b p,
            w.result,
            elim ((hp (p.elems 0)).0 (0, omega (arith, k), refl)) [
              | inl hd ↦
                  ground
                    (arith, all (p.elems 0) hd, tp (p.elems 0), tp e, w.restored.times e, root, s)
              | inr q ↦ ground (arith, q, tp e, w.restored.times e)
            ],
            elim (Bool-cases (b.heap.nelems == 0)) [
              | inl t ↦ ground (arith, w.restored.next, t, in_time)
              | inr t ↦
                  ground (arith, w.restored.next, t, all (b.heap.elems 0) (0, ground arith, refl))
            ],
          )
