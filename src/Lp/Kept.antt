-- ===== src/Lp/Kept.antt =====
-- Events that can be cancelled, and what cancelling events leaves as it was.
use charades.Prelude.{
  ◌+◌, ◌≤◌, ◌≡◌, ◌≢◌, refl, ap, ◌∙◌, true, false, Ptr, null, ◌⊎◌, inl, inr, List, [], ◌∷◌, length,
  arith,
}
use charades.Event.{Events, chare_q, rollback_q, sent}
use charades.PendingHeap.Valid.{IsValid, Holds}
use charades.ProcessedQueue.{ProcessedQueue}
use charades.Lp.{Chare, events}
use charades.Lp.Listed.{IsNew}

module _ {S D : Type 0} where
  -- An event that has caused none and is not in the tree.
  abbrev pub IsLeaf : Chare S D → Ptr → Type 0
  IsLeaf c k = (c.mem.caused_by_me k ≡ null) × (c.mem.in_avl_tree k ≡ false)

  -- An event that can be cancelled: it waits for that, or it was sent to another chare, or it is pending, or
  -- it is processed.
  abbrev pub IsCancellable : Chare S D → Ptr → Type 0
  IsCancellable c k =
      (c.mem.in_cancel_q k ≡ true)
      ⊎ (((c.mem.owner k ≡ sent) × IsLeaf c k)
          ⊎ (((c.mem.owner k ≡ chare_q) × Holds (events c) k × IsLeaf c k)
              ⊎ ((c.mem.owner k ≡ rollback_q) × (c.mem.in_avl_tree k ≡ false))))

  abbrev pub AreCancellable : Chare S D → List Ptr → Type 0
  AreCancellable c [] = Unit {0}
  AreCancellable c (k ∷ ks) = IsCancellable c k × AreCancellable c ks

  -- What the cancelling of the events `ks` keeps.
  pub record Kept (ks : List Ptr) (c c' : Chare S D) : Type 0 where
    pub ts : (x : Ptr) → c'.mem.ts x ≡ c.mem.ts x
    pub lp : (x : Ptr) → c'.mem.lp x ≡ c.mem.lp x
    pub owner : (x : Ptr) → c'.mem.owner x ≡ c.mem.owner x
    pub prev : (x : Ptr) → c'.mem.prev x ≡ c.mem.prev x
    pub next : (x : Ptr) → c'.mem.next x ≡ c.mem.next x
    pub caused : (x : Ptr) → c'.mem.caused_by_me x ≡ c.mem.caused_by_me x
    pub links : (x : Ptr) → IsNew x ks → c'.mem.cause_next x ≡ c.mem.cause_next x
    pub waits : (x : Ptr) → c.mem.in_cancel_q x ≡ true → c'.mem.in_cancel_q x ≡ true
    pub flags : (x : Ptr) → c.mem.in_avl_tree x ≡ false → c'.mem.in_avl_tree x ≡ false
    pub heap : IsValid (events c')
    pub fewer : c'.heap.nelems ≤ c.heap.nelems
    pub holds : (x : Ptr) → IsNew x ks → Holds (events c) x → Holds (events c') x
    pub held : (x : Ptr) → Holds (events c') x → Holds (events c) x
    pub queue :
        (c'.queue.length ≡ c.queue.length)
        × (c'.queue.head ≡ c.queue.head)
        × (c'.queue.tail ≡ c.queue.tail)
    pub lps : c'.lps ≡ c.lps
    pub messages : c'.messages ≡ c.messages
    pub room : c'.event_buffer.stack_pointer ≤ c.event_buffer.stack_pointer + length ks
    pub size : c'.event_buffer.max_events ≡ c.event_buffer.max_events
    pub rolled : c'.rolled_back_events ≡ c.rolled_back_events
    pub gvt : c'.last_gvt ≡ c.last_gvt

  pub Kept-refl : (c : Chare S D) → IsValid (events c) → Kept [] c c
  Kept-refl c v = record {
    ts = λ x. refl;
    lp = λ x. refl;
    owner = λ x. refl;
    prev = λ x. refl;
    next = λ x. refl;
    caused = λ x. refl;
    links = λ x n. refl;
    waits = λ x w. w;
    flags = λ x w. w;
    heap = v;
    fewer = omega arith;
    holds = λ x n w. w;
    held = λ x w. w;
    queue = (refl, refl, refl);
    lps = refl;
    messages = refl;
    room = omega arith;
    size = refl;
    rolled = refl;
    gvt = refl;
  }

  pub Kept-cons :
      {k : Ptr} {ks : List Ptr} {a b c : Chare S D}
      → Kept (k ∷ []) a b
      → Kept ks b c
      → Kept (k ∷ ks) a c
  Kept-cons p q = record {
    ts = λ x. q.ts x ∙ p.ts x;
    lp = λ x. q.lp x ∙ p.lp x;
    owner = λ x. q.owner x ∙ p.owner x;
    prev = λ x. q.prev x ∙ p.prev x;
    next = λ x. q.next x ∙ p.next x;
    caused = λ x. q.caused x ∙ p.caused x;
    links = λ x (n, ns). q.links x ns ∙ p.links x (n, tt);
    waits = λ x w. q.waits x (p.waits x w);
    flags = λ x w. q.flags x (p.flags x w);
    heap = q.heap;
    fewer = omega (arith, p.fewer, q.fewer);
    holds = λ x (n, ns) w. q.holds x ns (p.holds x (n, tt) w);
    held = λ x w. p.held x (q.held x w);
    queue = (q.queue.0 ∙ p.queue.0, q.queue.1 ∙ p.queue.1, q.queue.2 ∙ p.queue.2);
    lps = q.lps ∙ p.lps;
    messages = q.messages ∙ p.messages;
    room = omega (arith, p.room, q.room);
    size = q.size ∙ p.size;
    rolled = q.rolled ∙ p.rolled;
    gvt = q.gvt ∙ p.gvt;
  }

  pub Kept-one :
      (k : Ptr) (c c' : Chare S D)
      → c'.mem ≡ record c.mem {
        index = c'.mem.index;
        in_cancel_q = c'.mem.in_cancel_q;
        cancel_next = c'.mem.cancel_next;
      }
      → ((x : Ptr) → c.mem.in_cancel_q x ≡ true → c'.mem.in_cancel_q x ≡ true)
      → IsValid (events c')
      → c'.heap.nelems ≤ c.heap.nelems
      → ((x : Ptr) → k ≢ x → Holds (events c) x → Holds (events c') x)
      → ((x : Ptr) → Holds (events c') x → Holds (events c) x)
      → c'.queue ≡ c.queue
      → c'.lps ≡ c.lps
      → c'.messages ≡ c.messages
      → c'.event_buffer.stack_pointer ≤ c.event_buffer.stack_pointer + 1
      → c'.event_buffer.max_events ≡ c.event_buffer.max_events
      → c'.rolled_back_events ≡ c.rolled_back_events
      → c'.last_gvt ≡ c.last_gvt
      → Kept (k ∷ []) c c'
  Kept-one k c c' e w v fw h hb q l ms rm sz rb g = record {
    ts = λ x. ap (λ (m : Events). m.ts x) e;
    lp = λ x. ap (λ (m : Events). m.lp x) e;
    owner = λ x. ap (λ (m : Events). m.owner x) e;
    prev = λ x. ap (λ (m : Events). m.prev x) e;
    next = λ x. ap (λ (m : Events). m.next x) e;
    caused = λ x. ap (λ (m : Events). m.caused_by_me x) e;
    links = λ x n. ap (λ (m : Events). m.cause_next x) e;
    waits = w;
    flags = λ x n. ap (λ (m : Events). m.in_avl_tree x) e ∙ n;
    heap = v;
    fewer = fw;
    holds = λ x n. h x n.0;
    held = hb;
    queue = (
      ap (λ (q : ProcessedQueue). q.length) q,
      ap (λ (q : ProcessedQueue). q.head) q,
      ap (λ (q : ProcessedQueue). q.tail) q,
    );
    lps = l;
    messages = ms;
    room = rm;
    size = sz;
    rolled = rb;
    gvt = g;
  }

  -- The other events can still be cancelled.
  pub Kept-IsCancellable :
      (ks : List Ptr) (c c' : Chare S D) (x : Ptr)
      → Kept ks c c'
      → IsNew x ks
      → IsCancellable c x
      → IsCancellable c' x
  Kept-IsCancellable ks c c' x k n (inl w) = inl (k.waits x w)
  Kept-IsCancellable ks c c' x k n (inr (inl (o, (cn, f)))) =
      inr (inl (k.owner x ∙ o, (k.caused x ∙ cn, k.flags x f)))
  Kept-IsCancellable ks c c' x k n (inr (inr (inl (o, h, (cn, f))))) =
      inr (inr (inl (k.owner x ∙ o, k.holds x n h, (k.caused x ∙ cn, k.flags x f))))
  Kept-IsCancellable ks c c' x k n (inr (inr (inr (o, f)))) =
      inr (inr (inr (k.owner x ∙ o, k.flags x f)))
