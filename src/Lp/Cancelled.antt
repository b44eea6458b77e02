-- ===== src/Lp/Cancelled.antt =====
-- Cancelling the events that an event has caused succeeds, and what it leaves as it was.
use charades.Prelude.{
  ℕ, zero, suc, ◌+◌, ◌<◌, ◌≤◌, ◌≡◌, ◌≢◌, refl, sym, ap, subst, ◌∙◌, Bool, true, false, Bool-cases,
  Ptr, null, write, ltb, inl, inr, if◌then◌else◌, some, List, [], ◌∷◌, length, arith,
}
use charades.Event.{Events}
use charades.PendingHeap.Valid.{IsValid}
use charades.PendingHeap.Erase.{erase_removes}
use charades.EventBuffer.{free_event}
use charades.Setup.{optimistic}
use charades.Lp.{Chare, Model, Place, events, set_events}
use charades.Lp.Freeing.{store, give_back, tw_event_free}
use charades.Lp.Cancelling.{
  update_next, add_to_cancel_q, delete_pending, cancel_event, charm_anti_send, charm_event_cancel,
  cancel_caused,
}
use charades.Lp.Stored.{IsChain, free_leaf}
use charades.Lp.Frames.{erase-mem}
use charades.Lp.Listed.{IsNew, AreDistinct}
use charades.Lp.Kept.{
  IsLeaf, IsCancellable, AreCancellable, Kept, Kept-refl, Kept-cons, Kept-one, Kept-IsCancellable,
}

module _ {S D : Type 0} (model : Model S D) (place : Place) (f : ℕ)
    (opt : place.protocol ≡ optimistic) where
  -- The event goes back to the buffer, and nothing else changes.
  abbrev freed : Chare S D → Ptr → Chare S D
  freed c e = record c {
    event_buffer = record c.event_buffer {
      stack_pointer = c.event_buffer.stack_pointer + 1;
      buffer = write c.event_buffer.buffer c.event_buffer.stack_pointer e;
    };
  }

  leaf-freed :
      (c : Chare S D) (e : Ptr)
      → IsLeaf c e
      → c.event_buffer.stack_pointer < c.event_buffer.max_events
      → tw_event_free model place (suc f) c e false ≡ some (freed c e)
  unfolding tw_event_free give_back free_event
  leaf-freed c e (h, k) r =
      ground (arith, opt, free_leaf c.mem f (store model place (suc f) c) e h k)

  either :
      (P : Chare S D → Type 0) (b : Bool) (x y : Chare S D) → P x → P y → P (if b then x else y)
  either P true x y p q = p
  either P false x y p q = q

  queued-Kept :
      (c : Chare S D) (k : Ptr) → IsValid (events c) → Kept (k ∷ []) c (add_to_cancel_q c k)
  unfolding add_to_cancel_q
  queued-Kept c k v =
      let m = record c.mem {
        in_cancel_q = write c.mem.in_cancel_q k true;
        cancel_next = write c.mem.cancel_next k c.cancel_q;
      } in
      let c1 = record c { mem = m; cancel_q = k } in
      let v' : IsValid (events c1) = record {
        ordered = v.ordered;
        distinct = v.distinct;
        indexed = v.indexed;
        owned = v.owned;
        fits = v.fits;
      } in
      let same : (c' : Chare S D)
          → c' ≡ record c1 { min_cancel_q = c'.min_cancel_q; min_cancel_time = c'.min_cancel_time }
          → Kept (k ∷ []) c c' =
        λ c' e.
          subst (λ c'. Kept (k ∷ []) c c') (sym e)
            (Kept-one k c
              (record c1 { min_cancel_q = c'.min_cancel_q; min_cancel_time = c'.min_cancel_time })
              refl (λ x w. ground arith) v' (omega arith) (λ x n h. h) (λ x h. h) refl refl refl
              (omega arith) refl refl refl) in
      either (λ c'. Kept (k ∷ []) c c') (ltb (c.mem.ts k) c.min_cancel_q) _ _ (same _ refl)
        (same _ refl)

  -- An event that can be cancelled is.
  cancel-Kept :
      (c : Chare S D) (k : Ptr)
      → IsCancellable c k
      → IsValid (events c)
      → c.heap.nelems ≤ 256
      → c.event_buffer.stack_pointer < c.event_buffer.max_events
      → (c' : Chare S D) × (charm_event_cancel model place (suc f) c k ≡ some c')
        × Kept (k ∷ []) c c'
  unfolding charm_event_cancel cancel_event charm_anti_send delete_pending update_next
  cancel-Kept c k w v few r = elim (Bool-cases (c.mem.in_cancel_q k)) [
    | inl t ↦ (
      c,
      ground arith,
      Kept-one k c c refl (λ x w. w) v (omega arith) (λ x n h. h) (λ x h. h) refl refl refl
          (omega arith) refl refl refl,
    )
    | inr t ↦ elim w [
      | inl t' ↦ absurd (ground arith)
      | inr (inl (o, l)) ↦
          (let c1 = charm_anti_send model place (suc f) c k in
            (
              freed c1 k,
              ground (arith, o, leaf-freed c1 k l r),
              Kept-one k c (freed c1 k) refl (λ x w. w) v (omega arith) (λ x n h. h) (λ x h. h) refl
                  refl refl (omega arith) refl refl refl,
            ))
      | inr (inr (inl (o, h, l))) ↦
          (let (hp, e, (vh, nh, lh, sh)) = erase_removes model.compare (events c) k v h few in
            let fr = erase-mem model.compare (events c) hp k e in
            let c1 = update_next (set_events c hp) in
            let l1 : IsLeaf c1 k = (
              ap (λ (m : Events). m.caused_by_me k) fr ∙ l.0,
              ap (λ (m : Events). m.in_avl_tree k) fr ∙ l.1,
            ) in
            (
              freed c1 k,
              ground (arith, o, e, leaf-freed c1 k l1 r),
              Kept-one k c (freed c1 k)
                  (fr
                    ∙ ap
                        (λ (m : Events). record c.mem {
                          index = hp.mem.index;
                          in_cancel_q = m.in_cancel_q;
                          cancel_next = m.cancel_next;
                        })
                        (sym fr))
                  (λ x w. ap (λ (m : Events). m.in_cancel_q x) fr ∙ w) vh (omega (arith, nh))
                  (λ x n h. (lh x).1 (h, λ q. n (sym q))) (λ x h. ((lh x).0 h).0) refl refl refl
                  (omega arith) refl refl refl,
            ))
      | inr (inr (inr (o, fl))) ↦ (add_to_cancel_q c k, ground (arith, o), queued-Kept c k v)
    ]
  ]

  others-IsCancellable :
      (k : Ptr) (c c' : Chare S D)
      → Kept (k ∷ []) c c'
      → (ks : List Ptr) → IsNew k ks
      → AreCancellable c ks
      → AreCancellable c' ks
  others-IsCancellable k c c' q [] n w = tt
  others-IsCancellable k c c' q (x ∷ xs) (n, ns) (w, ws) = (
    Kept-IsCancellable (k ∷ []) c c' x q ((λ e. n (sym e)), tt) w,
    others-IsCancellable k c c' q xs ns ws,
  )

  -- Unlinking an event changes nothing that is kept.
  abbrev unlinked : Chare S D → Ptr → Chare S D
  unlinked c k = record c { mem = record c.mem { cause_next = write c.mem.cause_next k null } }

  IsChain-others :
      (m m' : Events) (k : Ptr)
      → ((x : Ptr) → k ≢ x → m'.cause_next x ≡ m.cause_next x)
      → (x : Ptr) (ks : List Ptr) → IsNew k ks
      → IsChain m x ks
      → IsChain m' x ks
  IsChain-others m m' k e x [] n h = h
  IsChain-others m m' k e x (y ∷ ys) (n, ns) (h, ne, hs) = (
    h,
    ne,
    subst (λ z. IsChain m' z ys) (sym (e y (λ q. n (sym q))))
        (IsChain-others m m' k e (m.cause_next y) ys ns hs),
  )

  unlinked-Kept :
      (c c' : Chare S D) (k : Ptr) → Kept (k ∷ []) (unlinked c k) c' → Kept (k ∷ []) c c'
  unlinked-Kept c c' k q = record {
    ts = q.ts;
    lp = q.lp;
    owner = q.owner;
    prev = q.prev;
    next = q.next;
    caused = q.caused;
    links = λ x (n, u). q.links x (n, u) ∙ ground arith;
    waits = q.waits;
    flags = q.flags;
    heap = q.heap;
    fewer = q.fewer;
    holds = q.holds;
    held = q.held;
    queue = q.queue;
    lps = q.lps;
    messages = q.messages;
    room = q.room;
    size = q.size;
    rolled = q.rolled;
    gvt = q.gvt;
  }

  -- The loop over the events that an event has caused ends, and all of them are cancelled.
  pub cancel_caused-Kept :
      (n : ℕ) (c : Chare S D) (x : Ptr) (ks : List Ptr)
      → IsChain c.mem x ks
      → AreDistinct ks
      → AreCancellable c ks
      → IsValid (events c)
      → c.heap.nelems ≤ 256
      → c.event_buffer.stack_pointer + length ks ≤ c.event_buffer.max_events
      → length ks < suc n
      → (c' : Chare S D) × (cancel_caused model place (suc f) n c x ≡ some c') × Kept ks c c'
  unfolding cancel_caused
  cancel_caused-Kept zero c x [] h d w v few r b = (c, ground arith, Kept-refl c v)
  cancel_caused-Kept (suc n) c x [] h d w v few r b = (c, ground arith, Kept-refl c v)
  cancel_caused-Kept zero c x (k ∷ ks) h d w v few r b = absurd (omega arith)
  cancel_caused-Kept (suc n) c x (k ∷ ks) (h, ne, hs) (d, ds) (w, ws) v few r b =
      let u = unlinked c k in
      let v' : IsValid (events u) = record {
        ordered = v.ordered;
        distinct = v.distinct;
        indexed = v.indexed;
        owned = v.owned;
        fits = v.fits;
      } in
      let (c1, e1, q) = cancel-Kept u k w v' few (omega (arith, r)) in
      let q1 = unlinked-Kept c c1 k q in
      let hs' =
        IsChain-others c.mem c1.mem k (λ y ny. q1.links y (ny, tt)) (c.mem.cause_next k) ks d hs in
      let (c2, e2, q2) =
        cancel_caused-Kept n c1 (c.mem.cause_next k) ks hs' ds
          (others-IsCancellable k c c1 q1 ks d ws) q1.heap (omega (arith, q1.fewer))
          (omega (arith, q1.room, q1.size)) (omega arith) in
      (c2, ground (arith, h, ne, e1, e2), Kept-cons q1 q2)
