-- ===== src/Lp/Arriving.antt =====
-- recv_local_event for an event that is not later than the current time, up to the push of the event.
use charades.Prelude.{
  ℕ, suc, ◌≤◌, ◌≡◌, ◌≢◌, refl, ap, subst, ◌∙◌, Bool-cases, Ptr, write, ltb, inl, inr, if◌then◌else◌,
  some, List, [], ◌∷◌, at, arith,
}
use charades.Event.{Events, event_null}
use charades.PendingHeap.{push, min_ts}
use charades.PendingHeap.Valid.{Holds}
use charades.ProcessedQueue.Links.{IsQueue}
use charades.Setup.{optimistic}
use charades.Lp.{Chare, Model, Place, events, set_events, processed_events}
use charades.Lp.Receiving.{recv_local_event}
use charades.Lp.Frames.{push-mem}
use charades.Lp.Listed.{IsNew, IsNew-left, IsNew-right, IsNew-at, AllNew-nil, IsChain-new}
use charades.Lp.Rollable.{caused_by, AreRollable, cancellable-all}
use charades.Lp.Restored.{IsReversible, IsHistory, Restored, rollback_me_ts-Restored}

module _ {S D : Type 0} (model : Model S D) (place : Place) (f : ℕ) (kids : Ptr → List Ptr) where
  -- The chare when the event has its LP, and the scheduler perhaps another time.
  abbrev pub arriving : Chare S D → Ptr → ℕ → Chare S D
  arriving c e n = record c {
    mem = record c.mem {
      lp = write c.mem.lp e (place.lp_structs (place.get_local_id (c.mem.dest_lp e)));
    };
    next_ts = n;
  }

  arriving-AreRollable :
      (c : Chare S D) (e : Ptr) (n : ℕ) (xs : List Ptr)
      → AreRollable model place f kids c xs
      → AreRollable model place f kids (arriving c e n) xs
  arriving-AreRollable c e n xs v = record {
    queue = record {
      count = v.queue.count;
      head = v.queue.head;
      tail = v.queue.tail;
      next = v.queue.next;
      prev = v.queue.prev;
      ne_null = v.queue.ne_null;
      distinct = v.queue.distinct;
      owned = v.queue.owned;
    };
    heap = record {
      ordered = v.heap.ordered;
      distinct = v.heap.distinct;
      indexed = v.heap.indexed;
      owned = v.heap.owned;
      fits = v.heap.fits;
    };
    few = v.few;
    room = v.room;
    distinct = v.distinct;
    cancellable =
        cancellable-all model place f kids c (arriving c e n) [] (λ k n w. w)
          (caused_by model place f kids xs) (AllNew-nil (caused_by model place f kids xs))
          v.cancellable;
    own = v.own;
    chains = λ i h.
        IsChain-new c.mem (arriving c e n).mem [] (λ x n. refl) (c.mem.caused_by_me (at xs i))
          (kids (at xs i)) (AllNew-nil (kids (at xs i))) (v.chains i h);
    short = v.short;
  }

  pub IsHistory-same :
      (c c' : Chare S D) (e : Ptr)
      → ((x : Ptr) → x ≢ e → c'.mem.lp x ≡ c.mem.lp x)
      → ((x : Ptr) → c'.mem.ts x ≡ c.mem.ts x)
      → ((x : Ptr) → c'.messages x ≡ c.messages x)
      → (s0 : S) (xs : List Ptr) → IsNew e xs
      → (s : S) → IsHistory model place f kids c s0 xs s
      → IsHistory model place f kids c' s0 xs s
  IsHistory-same c c' e l t m s0 [] n s h = h
  IsHistory-same c c' e l t m s0 (x ∷ xs) (n, ns) s (s1, d, h, a, b) = (
    s1,
    d,
    IsHistory-same c c' e l t m s0 xs ns s1 h,
    ground (arith, a, l x n, t x),
    ground (arith, b, l x n, t x, m x),
  )

  module _ (law : IsReversible model) (opt : place.protocol ≡ optimistic) (c : Chare S D) (s0 : S)
      (e : Ptr) (xs : List Ptr) (v : AreRollable model place f kids c xs)
      (h : IsHistory model place f kids c s0 xs c.lps) (free : c.mem.owner e ≡ event_null)
      (late : c.mem.ts e ≤ c.current_time) where
    abbrev pub hint : ℕ
    hint = if ltb (c.mem.ts e) (min_ts (events c)) then c.mem.ts e else c.next_ts

    e-IsNew : IsNew e xs
    e-IsNew = IsNew-at e xs (λ i k s. ground (arith, v.queue.owned i, free))

    -- The chare behind the rollback, before the event is pushed.
    pub record Before (b : Chare S D) (gone kept : List Ptr) : Type 0 where
      pub result :
          recv_local_event model place (suc f) c e
          ≡ some (set_events b (push model.compare (events b) e))
      pub restored : Restored model place f kids (c.mem.ts e) (arriving c e hint) s0 xs gone kept b
      pub owner : b.mem.owner e ≡ event_null

    pub before : (b : Chare S D) × (gone : List Ptr) × (kept : List Ptr) × Before b gone kept
    unfolding recv_local_event min_ts
    before =
        let a = arriving c e hint in
        let (b, r, gone, kept, k) =
          rollback_me_ts-Restored model place f kids law opt (c.mem.ts e) a s0 xs
            (arriving-AreRollable c e hint xs v)
            (IsHistory-same c a e (λ x n. ground arith) (λ x. refl) (λ x. refl) s0 xs e-IsNew c.lps
              h) in
        (
          b,
          gone,
          kept,
          record {
            result = elim (Bool-cases (ltb (c.mem.ts e) (min_ts (events c)))) [
              | inl t ↦ ground (arith, t, r, opt, late)
              | inr t ↦ ground (arith, t, r, opt, late)
            ];
            restored = k;
            owner =
                k.owner e (IsNew-left e gone kept (subst (λ ys. IsNew e ys) k.parts e-IsNew))
                ∙ free;
          },
        )

    -- The event is not among those that are rolled back, and not pending before it is pushed.
    pub apart :
        (b : Chare S D) (gone kept : List Ptr)
        → Before b gone kept
        → IsNew e gone × IsNew e kept × (¬ Holds (events b) e)
    apart b gone kept w =
        let n = subst (λ ys. IsNew e ys) w.restored.parts e-IsNew in
        (
          IsNew-left e gone kept n,
          IsNew-right e gone kept n,
          λ hd. absurd (ground (arith, w.owner, w.restored.heap.owned e hd)),
        )

    pub pushed-IsQueue :
        (b : Chare S D) (gone kept : List Ptr)
        → Before b gone kept
        → IsQueue (processed_events (set_events b (push model.compare (events b) e))) kept
    pushed-IsQueue b gone kept w =
        let m = push-mem model.compare (events b) e in
        let q = w.restored.queue in
        record {
          count = q.count;
          head = q.head;
          tail = q.tail;
          next = λ i k. ap (λ (m : Events). m.next (at kept i)) m ∙ q.next i k;
          prev = λ i k. ap (λ (m : Events). m.prev (at kept i)) m ∙ q.prev i k;
          ne_null = q.ne_null;
          distinct = q.distinct;
          owned = λ i k.
              ground (arith, ap (λ (m : Events). m.owner (at kept i)) m, q.owned i k, w.owner);
        }
