-- ===== src/Lp/Restored.antt =====
-- rollback_me restores the state that the events it keeps have led to.
use charades.Prelude.{
  ℕ, suc, ◌+◌, ◌<◌, ◌≡◌, refl, sym, ap, subst, Ptr, null, ◌==◌, ◌⊎◌, inl, inr, if◌then◌else◌, some,
  List, [], ◌∷◌, ◌++◌, length, at, arith,
}
use charades.PendingHeap
use charades.PendingHeap.Valid.{IsValid, Holds}
use charades.ProcessedQueue.{front}
use charades.ProcessedQueue.Links.{IsQueue}
use charades.Setup.{optimistic}
use charades.Lp.{Chare, Model, Place, events, processed_events}
use charades.Lp.Cancelling.{set_current_event, update_next}
use charades.Lp.Rolling.{resume, rollback_me_ts}
use charades.Lp.Listed.{IsNew}
use charades.Lp.Rollable.{caused_by, AreRollable}
use charades.Lp.Rollbacks.{reverse_all, AllFrom, ArePending, rollback_loop-Rewound}

-- The handlers of the model are reversible.
abbrev pub IsReversible : {S D : Type 0} → Model S D → Type 0
IsReversible {S} {D} model =
    (s : S) (lp : Ptr) (now : ℕ) (d : D)
    → model.reverse (model.forward s lp now d).0 lp now (model.forward s lp now d).1 ≡ (s, d)

module _ {S D : Type 0} (model : Model S D) (place : Place) (f : ℕ) (kids : Ptr → List Ptr) where
  -- The events of a queue led from the state `s0` of the LPs to the state `s`, the last of the queue first.
  abbrev pub IsHistory : Chare S D → S → List Ptr → S → Type 0
  IsHistory c s0 [] s = s ≡ s0
  IsHistory c s0 (x ∷ xs) s =
      (s1 : S) × (d : D) × IsHistory c s0 xs s1
      × (s ≡ (model.forward s1 (c.mem.lp x) (c.mem.ts x) d).0)
      × (c.messages x ≡ (model.forward s1 (c.mem.lp x) (c.mem.ts x) d).1)

  -- What rollback_me makes of the processed events `xs`.
  pub record Restored (ts : ℕ) (c : Chare S D) (s0 : S) (xs gone kept : List Ptr) (c' : Chare S D)
      : Type 0 where
    pub parts : xs ≡ gone ++ kept
    pub queue : IsQueue (processed_events c') kept
    pub heap : IsValid (events c')
    pub late : AllFrom model place f kids c.mem ts gone
    pub early : (length kept ≡ 0) ⊎ (c.mem.ts (at kept 0) < ts)
    pub pending : ArePending model place f kids c' (caused_by model place f kids gone) gone
    pub history : IsHistory c s0 kept c'.lps
    pub rolled : c'.rolled_back_events ≡ c.rolled_back_events + length gone
    pub now : c'.current_time ≡ (if at kept 0 == null then c.last_gvt else c.mem.ts (at kept 0))
    pub times : (x : Ptr) → c'.mem.ts x ≡ c.mem.ts x
    pub held : (x : Ptr) → Holds (events c') x → Holds (events c) x ⊎ (¬ IsNew x gone)
    pub owner : (x : Ptr) → IsNew x gone → c'.mem.owner x ≡ c.mem.owner x
    pub next : c'.next_ts ≡ PendingHeap.min_ts (events c')

  reverse-IsHistory :
      (law : IsReversible model) (c : Chare S D) (s0 : S) (gone kept : List Ptr) (s : S)
      → IsHistory c s0 (gone ++ kept) s
      → IsHistory c s0 kept (reverse_all model place f kids c s gone)
  reverse-IsHistory law c s0 [] kept s h = h
  reverse-IsHistory law c s0 (x ∷ xs) kept s (s1, d, h, e, m) =
      subst (λ s. IsHistory c s0 kept (reverse_all model place f kids c s xs))
        (ground (arith, e, m, ap (λ (p : S × D). p.0) (law s1 (c.mem.lp x) (c.mem.ts x) d)))
        (reverse-IsHistory law c s0 xs kept s1 h)

  pub pending-same :
      (c c' : Chare S D)
      → ((x : Ptr) → Holds (events c) x → Holds (events c') x)
      → (ks xs : List Ptr) → ArePending model place f kids c ks xs
      → ArePending model place f kids c' ks xs
  pending-same c c' h ks [] p = tt
  pending-same c c' h ks (x ∷ xs) (inl w, ps) = (inl (h x w), pending-same c c' h ks xs ps)
  pending-same c c' h ks (x ∷ xs) (inr n, ps) = (inr n, pending-same c c' h ks xs ps)

  -- In an optimistic run of a model whose handlers are reversible, where the processed events can be rolled
  -- back and led from the state s0 to the present one: rollback_me(ts) returns. It takes a front part of the
  -- queue, of events no earlier than ts, and keeps the rest, empty or headed by an event before ts; each event
  -- that it takes is pending again, or was cancelled as one that these events had caused; and the state of the
  -- LPs is the one that the events kept have led to from s0. The heap is valid, the events rolled back are
  -- counted, the current time is that of the last event kept, or the GVT, and the scheduler has the time of the first
  -- pending event. No timestamp changes, no owner of an event that is not taken does, and the heap has only events
  -- that it had or that were taken.
  pub rollback_me_ts-Restored :
      (law : IsReversible model) (opt : place.protocol ≡ optimistic) (ts : ℕ) (c : Chare S D)
      (s0 : S) (xs : List Ptr)
      → AreRollable model place f kids c xs
      → IsHistory c s0 xs c.lps
      → (c' : Chare S D) × (rollback_me_ts model place (suc f) ts c ≡ some c')
        × (gone : List Ptr) × (kept : List Ptr) × Restored ts c s0 xs gone kept c'
  unfolding rollback_me_ts resume set_current_event update_next front
  rollback_me_ts-Restored law opt ts c s0 xs v h =
      let (c1, e, gone, kept, k) =
        rollback_loop-Rewound model place f kids opt (c.queue.length + 1) ts c xs v
          (omega (arith, v.queue.count)) in
      (
        resume model place (suc f) c1,
        ground (arith, e),
        gone,
        kept,
        record {
          parts = k.parts;
          queue = k.rest.queue;
          heap = k.rest.heap;
          late = k.late;
          early = k.early;
          pending =
              pending-same c1 (resume model place (suc f) c1) (λ x h. h)
                (caused_by model place f kids gone) gone k.pending;
          history =
              subst (λ s. IsHistory c s0 kept s) (sym k.lps)
                (reverse-IsHistory law c s0 gone kept c.lps
                  (subst (λ ys. IsHistory c s0 ys c.lps) k.parts h));
          rolled = k.rolled;
          now = ground (arith, k.rest.queue.head, k.gvt, k.times (at kept 0));
          times = k.times;
          held = k.held;
          owner = k.owner;
          next = refl;
        },
      )
