-- ===== src/Lp/Rollable.antt =====
-- Processed events that can be rolled back, and one step of the loop of rollback_me.
use charades.Prelude.{
  ℕ, zero, suc, ◌+◌, ◌<◌, ◌≤◌, ◌≡◌, ◌≢◌, sym, ap, subst, ◌∙◌, Bool-cases, Ptr, write, inl, inr,
  if◌then◌else◌, some, List, [], ◌∷◌, length, arith, ◌==◌, ◌++◌, length-append, at, at-cons,
}
use charades.Event.{Events, rollback_q, event_null}
use charades.PendingHeap.Valid.{IsValid, Holds}
use charades.ProcessedQueue.{ProcessedQueue, pop_front, set_prev}
use charades.Setup.{optimistic}
use charades.Lp.{Chare, Model, Place, events, processed_events, set_processed}
use charades.Lp.Stored.{IsChain}
use charades.ProcessedQueue.Links.{IsQueue}
use charades.Lp.Rolling.{roll_back}
use charades.Lp.Rolled.{Rolled, roll_back-Rolled}
use charades.Lp.Listed.{
  IsNew, AreDistinct, AllNew, distinct-left, distinct-right, AllNew-nil, AllNew-distinct,
  AllNew-left, AllNew-right, IsChain-new,
}
use charades.Lp.Kept.{IsCancellable, AreCancellable}

pop_front-mem :
    (q : ProcessedQueue) (e : Ptr) (q' : ProcessedQueue)
    → pop_front q ≡ some (e, q')
    → (q'.mem ≡ record q.mem { prev = q'.mem.prev; owner = write q.mem.owner e event_null })
      × (q.head ≡ e)
unfolding pop_front set_prev
pop_front-mem q e q' h = (ground arith, ground arith)

module _ {S D : Type 0} (model : Model S D) (place : Place) (f : ℕ) (kids : Ptr → List Ptr) where
  -- All events that the events of a list have caused.
  abbrev pub caused_by : List Ptr → List Ptr
  caused_by [] = []
  caused_by (x ∷ xs) = kids x ++ caused_by xs

  -- The processed events `xs` can be rolled back: `kids` are the events that each has caused, and these can
  -- be cancelled; the heap stays small enough for its indices, and the buffer has room.
  pub record AreRollable (c : Chare S D) (xs : List Ptr) : Type 0 where
    pub queue : IsQueue (processed_events c) xs
    pub heap : IsValid (events c)
    pub few : c.heap.nelems + length xs ≤ 256
    pub room : c.event_buffer.stack_pointer + length (caused_by xs) ≤ c.event_buffer.max_events
    pub distinct : AreDistinct (caused_by xs)
    pub cancellable : AreCancellable c (caused_by xs)
    pub own : (i : ℕ) → i < length xs → IsNew (at xs i) (kids (at xs i))
    pub chains :
        (i : ℕ) → i < length xs → IsChain c.mem (c.mem.caused_by_me (at xs i)) (kids (at xs i))
    pub short : (i : ℕ) → i < length xs → length (kids (at xs i)) ≤ f

  kids-new :
      (ks xs : List Ptr)
      → AllNew ks (caused_by xs)
      → (i : ℕ) → i < length xs
      → AllNew ks (kids (at xs i))
  unfolding at
  kids-new ks [] a i h = absurd (omega arith)
  kids-new ks (x ∷ xs) a zero h = AllNew-left ks (kids x) (caused_by xs) a
  kids-new ks (x ∷ xs) a (suc i) h =
      kids-new ks xs (AllNew-right ks (kids x) (caused_by xs) a) i (omega arith)

  cancellable-left :
      (c : Chare S D) (ks ys : List Ptr) → AreCancellable c (ks ++ ys) → AreCancellable c ks
  cancellable-left c [] ys w = tt
  cancellable-left c (k ∷ ks) ys (w, ws) = (w, cancellable-left c ks ys ws)

  cancellable-right :
      (c : Chare S D) (ks ys : List Ptr) → AreCancellable c (ks ++ ys) → AreCancellable c ys
  cancellable-right c [] ys w = w
  cancellable-right c (k ∷ ks) ys (w, ws) = cancellable-right c ks ys ws

  cancellable-map :
      (c c' : Chare S D) (e : Ptr)
      → ((k : Ptr) → k ≢ e → IsCancellable c k → IsCancellable c' k)
      → (ys : List Ptr) → IsNew e ys
      → AreCancellable c ys
      → AreCancellable c' ys
  cancellable-map c c' e h [] n w = tt
  cancellable-map c c' e h (y ∷ ys) (n, ns) (w, ws) = (h y n w, cancellable-map c c' e h ys ns ws)

  pub cancellable-all :
      (c c' : Chare S D) (ks : List Ptr)
      → ((k : Ptr) → IsNew k ks → IsCancellable c k → IsCancellable c' k)
      → (ys : List Ptr) → AllNew ks ys
      → AreCancellable c ys
      → AreCancellable c' ys
  cancellable-all c c' ks h [] n w = tt
  cancellable-all c c' ks h (y ∷ ys) (n, ns) (w, ws) = (h y n w, cancellable-all c c' ks h ys ns ws)

  -- The chare without the first event of its queue.
  module _ (opt : place.protocol ≡ optimistic) (c : Chare S D) (e : Ptr) (xs : List Ptr)
      (v : AreRollable c (e ∷ xs)) (q : ProcessedQueue)
      (p : pop_front (processed_events c) ≡ some (e, q)) (vq : IsQueue q xs) where
    abbrev popped : Chare S D
    popped = set_processed c q

    pub mem_is :
        popped.mem ≡ record c.mem { prev = popped.mem.prev; owner = write c.mem.owner e event_null }
    mem_is = (pop_front-mem (processed_events c) e q p).0

    pub owner_is : (x : Ptr) → popped.mem.owner x ≡ (if e == x then event_null else c.mem.owner x)
    owner_is x = ap (λ (m : Events). m.owner x) mem_is

    pub events-popped : (x : Ptr) → Holds (events popped) x → Holds (events c) x
    events-popped x w = w

    owned : c.mem.owner e ≡ rollback_q
    owned = ground (arith, v.queue.owned 0, at-cons e xs 0)

    pub others : (i : ℕ) → i < length xs → at xs i ≢ e
    others i h s = ground (arith, vq.owned i, owner_is (at xs i), s)

    popped-IsValid : IsValid (events popped)
    popped-IsValid =
        subst (λ (m : Events). IsValid (record c.heap { mem = m })) (sym mem_is)
          (record {
            ordered = v.heap.ordered;
            distinct = v.heap.distinct;
            indexed = v.heap.indexed;
            owned = λ x h. ground (arith, v.heap.owned x h, owned);
            fits = v.heap.fits;
          })

    popped-IsChain :
        (x : Ptr) (ks : List Ptr)
        → IsChain c.mem (c.mem.caused_by_me x) ks
        → IsChain popped.mem (popped.mem.caused_by_me x) ks
    popped-IsChain x ks h =
        subst (λ y. IsChain popped.mem y ks) (sym (ap (λ (m : Events). m.caused_by_me x) mem_is))
          (IsChain-new c.mem popped.mem [] (λ x n. ap (λ (m : Events). m.cause_next x) mem_is)
            (c.mem.caused_by_me x) ks (AllNew-nil ks) h)

    popped-IsCancellable : (k : Ptr) → k ≢ e → IsCancellable c k → IsCancellable popped k
    popped-IsCancellable k ne (inl w) = inl (ap (λ (m : Events). m.in_cancel_q k) mem_is ∙ w)
    popped-IsCancellable k ne (inr (inl (o, (cn, fl)))) = inr (
        inl (
          ground (arith, owner_is k, o),
          (
            ap (λ (m : Events). m.caused_by_me k) mem_is ∙ cn,
            ap (λ (m : Events). m.in_avl_tree k) mem_is ∙ fl,
          ),
        ))
    popped-IsCancellable k ne (inr (inr (inl (o, h, (cn, fl))))) = inr (
        inr (
          inl (
            ground (arith, owner_is k, o),
            h,
            (
              ap (λ (m : Events). m.caused_by_me k) mem_is ∙ cn,
              ap (λ (m : Events). m.in_avl_tree k) mem_is ∙ fl,
            ),
          )))
    popped-IsCancellable k ne (inr (inr (inr (o, fl)))) = inr (
        inr (inr (ground (arith, owner_is k, o), ap (λ (m : Events). m.in_avl_tree k) mem_is ∙ fl)))

    pub roll_back_lem :
        (c' : Chare S D) × (roll_back model place (suc f) popped e ≡ some c')
        × Rolled e
            (kids e)
            (model.reverse popped.lps (popped.mem.lp e) (popped.mem.ts e) (popped.messages e))
            popped
            c'
    unfolding at
    roll_back_lem =
        roll_back-Rolled model place f opt popped e (kids e)
          (popped-IsChain e (kids e) (v.chains 0 (omega arith)))
          (distinct-left (kids e) (caused_by xs) v.distinct)
          (cancellable-map c popped e popped-IsCancellable (kids e) (v.own 0 (omega arith))
            (cancellable-left c (kids e) (caused_by xs) v.cancellable))
          popped-IsValid (omega (arith, v.few))
          (omega (arith, v.room, length-append (kids e) (caused_by xs))) (v.short 0 (omega arith))
          (λ o. absurd (ground (arith, owner_is e, o)))

    another :
        (c' : Chare S D) (d : S × D)
        → Rolled e (kids e) d popped c'
        → (k : Ptr) → k ≢ e
        → IsNew k (kids e)
        → IsCancellable popped k
        → IsCancellable c' k
    another c' d r k ne n (inl w) = inl (r.waits k w)
    another c' d r k ne n (inr (inl (o, (cn, fl)))) =
        inr (inl (ground (arith, r.owner k, o), (ground (arith, r.caused k, cn), r.flags k fl)))
    another c' d r k ne n (inr (inr (inl (o, h, (cn, fl))))) = inr (
        inr (
          inl (
            ground (arith, r.owner k, o),
            r.holds k n h,
            (ground (arith, r.caused k, cn), r.flags k fl),
          )))
    another c' d r k ne n (inr (inr (inr (o, fl)))) =
        inr (inr (inr (ground (arith, r.owner k, o), r.flags k fl)))

    -- The event that is rolled back is pending now, and may itself be cancelled.
    itself :
        (c' : Chare S D) (d : S × D)
        → Rolled e (kids e) d popped c'
        → IsNew e (kids e)
        → IsCancellable c e
        → IsCancellable c' e
    itself c' d r n (inl w) = inl (r.waits e (ap (λ (m : Events). m.in_cancel_q e) mem_is ∙ w))
    itself c' d r n (inr (inl (o, l))) = absurd (ground (arith, owned, o))
    itself c' d r n (inr (inr (inl (o, h, l)))) = absurd (ground (arith, owned, o))
    itself c' d r n (inr (inr (inr (o, fl)))) = inr (
        inr (
          inl (
            ground (arith, r.owner e),
            r.pending,
            (
              ground (arith, r.caused e),
              r.flags e (ap (λ (m : Events). m.in_avl_tree e) mem_is ∙ fl),
            ),
          )))

    Rolled-IsCancellable :
        (c' : Chare S D) (d : S × D)
        → Rolled e (kids e) d popped c'
        → (k : Ptr) → IsNew k (kids e)
        → IsCancellable c k
        → IsCancellable c' k
    Rolled-IsCancellable c' d r k n w = elim (Bool-cases (e == k)) [
      | inl t ↦
          subst (λ x. IsCancellable c' x) (ground arith)
            (itself c' d r (subst (λ x. IsNew x (kids e)) (ground arith) n)
              (subst (λ x. IsCancellable c x) (ground arith) w))
      | inr t ↦ another c' d r k (ground arith) n (popped-IsCancellable k (ground arith) w)
    ]

    pub rolled-AreRollable :
        (c' : Chare S D) (d : S × D) → Rolled e (kids e) d popped c' → AreRollable c' xs
    unfolding at
    rolled-AreRollable c' d r = record {
      queue = record {
        count = r.queue.0 ∙ vq.count;
        head = r.queue.1 ∙ vq.head;
        tail = r.queue.2 ∙ vq.tail;
        next = λ i h. r.next (at xs i) ∙ vq.next i h;
        prev = λ i h. r.prev (at xs i) ∙ vq.prev i h;
        ne_null = vq.ne_null;
        distinct = vq.distinct;
        owned = λ i h. ground (arith, r.owner (at xs i), others i h, vq.owned i h);
      };
      heap = r.heap;
      few = omega (arith, r.more, v.few);
      room = omega (arith, r.room, r.size, v.room, length-append (kids e) (caused_by xs));
      distinct = distinct-right (kids e) (caused_by xs) v.distinct;
      cancellable =
          cancellable-all c c' (kids e) (Rolled-IsCancellable c' d r) (caused_by xs)
            (AllNew-distinct (kids e) (caused_by xs) v.distinct)
            (cancellable-right c (kids e) (caused_by xs) v.cancellable);
      own = λ i h. v.own (suc i) (omega arith);
      chains = λ i h.
          subst (λ y. IsChain c'.mem y (kids (at xs i)))
            (ground (arith, r.caused (at xs i), others i h))
            (IsChain-new popped.mem c'.mem (kids e) r.links (popped.mem.caused_by_me (at xs i))
              (kids (at xs i))
              (kids-new (kids e) xs (AllNew-distinct (kids e) (caused_by xs) v.distinct) i h)
              (popped-IsChain (at xs i) (kids (at xs i)) (v.chains (suc i) (omega arith))));
      short = λ i h. v.short (suc i) (omega arith);
    }
