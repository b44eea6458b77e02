-- ===== src/Lp/Freeable.antt =====
-- Processed events that can be freed, and one round of the loop of fossil_me.
use charades.Prelude.{
  ℕ, ◌+◌, ◌<◌, ◌≤◌, ◌≡◌, refl, sym, ap, subst, ◌∙◌, Bool, true, Ptr, inl, inr, some, List, [], ◌∷◌,
  length, arith, ◌++◌, at, at-cons, ◌-◌, ◌%◌, ◌^◌, at-drop_last, length-drop_last, drop_last,
}
use charades.Event.{Events}
use charades.ProcessedQueue.{ProcessedQueue, pop_back, set_next}
use charades.Setup.{optimistic}
use charades.Lp.{Chare, Model, Place, processed_events, set_processed}
use charades.Lp.Freeing.{store, tw_event_free, is_sent, set_store}
use charades.Lp.Hashed.{IsHashed, IsHashed-same, IsHashed-keys}
use charades.Lp.Stored.{IsChain, AreLeaves, leaves-fewer, count_sent, free_optimistic_returns}
use charades.ProcessedQueue.Links.{IsQueue}

-- What pop_back leaves of the memory.
record Frame (m m' : Events) : Type 0 where
  pub mem : m' ≡ record m { next = m'.next; owner = m'.owner }
  pub owners : (x : Ptr) → is_sent (m'.owner x) ≡ is_sent (m.owner x)

pop_back-Frame :
    (q : ProcessedQueue) (xs : List Ptr) (r : Ptr × ProcessedQueue)
    → IsQueue q xs
    → 0 < length xs
    → pop_back q ≡ some r
    → Frame q.mem r.1.mem
unfolding pop_back set_next
pop_back-Frame q xs r v h e = record {
  mem = ground arith;
  owners = λ x. ground (arith, v.tail, v.owned (length xs - 1));
}

pub drop_last-last :
    (xs : List Ptr) → 0 < length xs → xs ≡ drop_last xs ++ at xs (length xs - 1) ∷ []
unfolding drop_last at
drop_last-last [] h = absurd (omega arith)
drop_last-last (x ∷ []) h = refl
drop_last-last (x ∷ y ∷ ys) h =
    ap (λ zs. x ∷ zs) (drop_last-last (y ∷ ys) (omega arith))
    ∙ ground (arith, at-cons x (y ∷ ys) (length (x ∷ y ∷ ys) - 1))

module _ {S D : Type 0} (model : Model S D) (place : Place) (fuel : ℕ) (kids : Ptr → List Ptr) where
  -- What freeing the events of a list takes of the buffer's room.
  abbrev pub total : Events → List Ptr → ℕ
  total m [] = 0
  total m (x ∷ xs) = 1 + count_sent m (kids x) + total m xs

  -- The processed events `xs` can be freed: `kids` are the events that each has caused, the tree holds the
  -- events with a flag, and the buffer has room.
  pub record AreFreeable (c : Chare S D) (xs : List Ptr) : Type 0 where
    pub queue : IsQueue (processed_events c) xs
    pub hashed : IsHashed c.mem (store model place fuel c)
    pub chains :
        (i : ℕ) → i < length xs → IsChain c.mem (c.mem.caused_by_me (at xs i)) (kids (at xs i))
    pub leaves : (i : ℕ) → i < length xs → AreLeaves c.mem c.mem.in_avl_tree (kids (at xs i))
    pub fuel_left : (i : ℕ) → i < length xs → length (kids (at xs i)) + 1 < fuel
    pub room : c.event_buffer.stack_pointer + total c.mem xs ≤ c.event_buffer.max_events

  total-append : (m : Events) (xs ys : List Ptr) → total m (xs ++ ys) ≡ total m xs + total m ys
  total-append m [] ys = omega arith
  total-append m (x ∷ xs) ys = omega (arith, total-append m xs ys)

  module _ (m m' : Events) (owners : (x : Ptr) → is_sent (m'.owner x) ≡ is_sent (m.owner x)) where
    count-owners : (ks : List Ptr) → count_sent m' ks ≡ count_sent m ks
    count-owners [] = refl
    count-owners (k ∷ ks) = ground (arith, owners k, count-owners ks)

    total-owners : (xs : List Ptr) → total m' xs ≡ total m xs
    total-owners [] = refl
    total-owners (x ∷ xs) = ground (arith, count-owners (kids x), total-owners xs)

    IsChain-links :
        ((x : Ptr) → m'.cause_next x ≡ m.cause_next x)
        → (x : Ptr) (ks : List Ptr) → IsChain m x ks
        → IsChain m' x ks
    IsChain-links n x [] h = h
    IsChain-links n x (k ∷ ks) (h, ne, hs) =
        (h, ne, subst (λ y. IsChain m' y ks) (sym (n k)) (IsChain-links n (m.cause_next k) ks hs))

    leaves-owners :
        ((x : Ptr) → m'.caused_by_me x ≡ m.caused_by_me x)
        → (f : Ptr → Bool) (ks : List Ptr) → AreLeaves m f ks
        → AreLeaves m' f ks
    leaves-owners n f [] l = tt
    leaves-owners n f (k ∷ ks) (inl t, ls) = (inl (owners k ∙ t), leaves-owners n f ks ls)
    leaves-owners n f (k ∷ ks) (inr (c, t), ls) = (inr (n k ∙ c, t), leaves-owners n f ks ls)

  -- What a round of the loop leaves, for the last event of the queue.
  abbrev pub committed : Chare S D → Ptr → Chare S D → Chare S D
  committed c e c' = record c' {
    committed_events = c'.committed_events + 1;
    committed_time = c'.mem.ts e % 2 ^ 32;
  }

  pub record Round (c : Chare S D) (xs : List Ptr) (q : ProcessedQueue) (c' : Chare S D)
      : Type 0 where
    pub freed :
        tw_event_free model place fuel (set_processed c q) (at xs (length xs - 1)) true ≡ some c'
    pub ready : AreFreeable (committed c (at xs (length xs - 1)) c') (drop_last xs)
    pub times : (x : Ptr) → c'.mem.ts x ≡ c.mem.ts x
    pub lps_of : (x : Ptr) → c'.mem.lp x ≡ c.mem.lp x
    pub messages : c'.messages ≡ c.messages
    pub lps :
        c'.lps
        ≡ model.commit c.lps
            (c.mem.lp (at xs (length xs - 1)))
            (c.mem.ts (at xs (length xs - 1)))
            (c.messages (at xs (length xs - 1)))
    pub count : c'.committed_events ≡ c.committed_events

  module _ (opt : place.protocol ≡ optimistic) (c : Chare S D) (xs : List Ptr)
      (v : AreFreeable c xs) (h : 0 < length xs) where
    abbrev last : Ptr
    last = at xs (length xs - 1)

    pub round :
        (q : ProcessedQueue)
        → pop_back (processed_events c) ≡ some (last, q)
        → IsQueue q (drop_last xs)
        → (c' : Chare S D) × Round c xs q c'
    unfolding tw_event_free
    round q p vq =
        let fr = pop_back-Frame (processed_events c) xs (last, q) v.queue h p in
        let m = q.mem in
        let i = length xs - 1 in
        let sp : (x : Ptr)
            → (m.ts x ≡ c.mem.ts x)
              × (m.event_id x ≡ c.mem.event_id x)
              × (m.src_lp x ≡ c.mem.src_lp x) =
          λ x. (
            ap (λ (m : Events). m.ts x) fr.mem,
            ap (λ (m : Events). m.event_id x) fr.mem,
            ap (λ (m : Events). m.src_lp x) fr.mem,
          ) in
        let flags : m.in_avl_tree ≡ c.mem.in_avl_tree = ap (λ (m : Events). m.in_avl_tree) fr.mem in
        let tot : total c.mem xs ≡ total c.mem (drop_last xs) + (1 + count_sent c.mem (kids last)) =
          ap (total c.mem) (drop_last-last xs h)
          ∙ total-append c.mem (drop_last xs) (last ∷ [])
          ∙ omega arith in
        let s = store model place fuel (set_processed c q) in
        let keep : (x : Ptr) (ks : List Ptr)
            → IsChain c.mem (c.mem.caused_by_me x) ks
            → IsChain m (m.caused_by_me x) ks =
          λ x ks ch.
            subst (λ y. IsChain m y ks) (sym (ap (λ (m : Events). m.caused_by_me x) fr.mem))
              (IsChain-links c.mem m fr.owners (λ x. ap (λ (m : Events). m.cause_next x) fr.mem)
                (c.mem.caused_by_me x) ks ch) in
        let keep' : (ks : List Ptr)
            → AreLeaves c.mem c.mem.in_avl_tree ks
            → AreLeaves m m.in_avl_tree ks =
          λ ks l.
            leaves-owners c.mem m fr.owners (λ x. ap (λ (m : Events). m.caused_by_me x) fr.mem)
              m.in_avl_tree ks (subst (λ f. AreLeaves c.mem f ks) (sym flags) l) in
        let cnt = count-owners c.mem m fr.owners (kids last) in
        let (s', e, hs, fl, sp', mx) =
          free_optimistic_returns m fuel s last (kids last)
            (IsHashed-same m (store model place fuel c) s refl
              (ap (λ (f : Ptr → Bool). record { in_tree = f; free = c.free_nodes }) flags)
              (IsHashed-keys c.mem m sp (store model place fuel c) v.hashed))
            (keep last (kids last) (v.chains i (omega arith)))
            (keep' (kids last) (v.leaves i (omega arith))) (v.fuel_left i (omega arith))
            (omega (arith, v.room)) in
        let c1 = record (set_processed c q) {
          lps = model.commit c.lps (m.lp last) (m.ts last) (c.messages last);
        } in
        let c2 = set_store model place fuel c1 s' in
        let n = length-drop_last xs in
        let is : (i : ℕ) → i < length (drop_last xs) → at (drop_last xs) i ≡ at xs i =
          λ i k. ground (arith, at-drop_last xs i, n) in
        (
          c2,
          record {
            freed = ground (arith, opt, e);
            ready = record {
              queue = record {
                count = vq.count;
                head = vq.head;
                tail = vq.tail;
                next = vq.next;
                prev = vq.prev;
                ne_null = vq.ne_null;
                distinct = vq.distinct;
                owned = vq.owned;
              };
              hashed = IsHashed-keys m c2.mem (λ x. (refl, refl, refl)) s' hs;
              chains = λ i k.
                  subst (λ y. IsChain c2.mem (c2.mem.caused_by_me y) (kids y)) (sym (is i k))
                    (IsChain-links m c2.mem (λ x. refl) (λ x. refl) (m.caused_by_me (at xs i))
                      (kids (at xs i))
                      (keep (at xs i) (kids (at xs i)) (v.chains i (omega (arith, n)))));
              leaves = λ i k.
                  subst (λ y. AreLeaves c2.mem c2.mem.in_avl_tree (kids y)) (sym (is i k))
                    (leaves-owners m c2.mem (λ x. refl) (λ x. refl) s'.pool.in_tree (kids (at xs i))
                      (leaves-fewer m m.in_avl_tree s'.pool.in_tree fl (kids (at xs i))
                        (keep' (kids (at xs i)) (v.leaves i (omega (arith, n))))));
              fuel_left = λ i k.
                  subst (λ y. length (kids y) + 1 < fuel) (sym (is i k))
                    (v.fuel_left i (omega (arith, n)));
              room = omega (
                arith,
                v.room,
                sp',
                mx,
                tot,
                cnt,
                total-owners m c2.mem (λ x. refl) (drop_last xs),
                total-owners c.mem m fr.owners (drop_last xs),
              );
            };
            times = λ x. (sp x).0;
            lps_of = λ x. ap (λ (m : Events). m.lp x) fr.mem;
            messages = refl;
            lps = ground (arith, (sp last).0, ap (λ (m : Events). m.lp last) fr.mem);
            count = refl;
          },
        )
