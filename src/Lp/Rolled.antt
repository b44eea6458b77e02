-- ===== src/Lp/Rolled.antt =====
-- Rolling one event back: its handler is reversed, what it caused is cancelled, and it is pending again.
use charades.Prelude.{
  ◌⊎◌, ℕ, suc, ◌+◌, ◌<◌, ◌≤◌, ◌≡◌, ◌≢◌, refl, sym, ap, ◌∙◌, true, false, Ptr, null, write, ◌==◌,
  inl, inr, if◌then◌else◌, some, List, length, arith,
}
use charades.Event.{Events, chare_q}
use charades.PendingHeap.{push}
use charades.PendingHeap.Valid.{IsValid, Holds}
use charades.PendingHeap.Push.{push_adds}
use charades.Setup.{optimistic}
use charades.Lp.{Chare, Model, Place, events, set_events}
use charades.Lp.Cancelling.{set_current_event, tw_event_rollback}
use charades.Lp.Rolling.{roll_back}
use charades.Lp.Stored.{IsChain}
use charades.Lp.Frames.{push-mem}
use charades.Lp.Listed.{IsNew, AreDistinct}
use charades.Lp.Kept.{AreCancellable}
use charades.Lp.Cancelled.{cancel_caused-Kept}

-- What the rollback of `e`, which caused `ks`, leaves; `d` is what its reverse handler returns.
pub record Rolled {S D : Type 0} (e : Ptr) (ks : List Ptr) (d : S × D) (c c' : Chare S D)
    : Type 0 where
  pub ts : (x : Ptr) → c'.mem.ts x ≡ c.mem.ts x
  pub lp : (x : Ptr) → c'.mem.lp x ≡ c.mem.lp x
  pub owner : (x : Ptr) → c'.mem.owner x ≡ (if e == x then chare_q else c.mem.owner x)
  pub prev : (x : Ptr) → c'.mem.prev x ≡ c.mem.prev x
  pub next : (x : Ptr) → c'.mem.next x ≡ c.mem.next x
  pub caused : (x : Ptr) → c'.mem.caused_by_me x ≡ (if e == x then null else c.mem.caused_by_me x)
  pub links : (x : Ptr) → IsNew x ks → c'.mem.cause_next x ≡ c.mem.cause_next x
  pub waits : (x : Ptr) → c.mem.in_cancel_q x ≡ true → c'.mem.in_cancel_q x ≡ true
  pub flags : (x : Ptr) → c.mem.in_avl_tree x ≡ false → c'.mem.in_avl_tree x ≡ false
  pub heap : IsValid (events c')
  pub more : c'.heap.nelems ≤ c.heap.nelems + 1
  pub holds : (x : Ptr) → IsNew x ks → Holds (events c) x → Holds (events c') x
  pub pending : Holds (events c') e
  pub held : (x : Ptr) → Holds (events c') x → Holds (events c) x ⊎ (x ≡ e)
  pub queue :
      (c'.queue.length ≡ c.queue.length)
      × (c'.queue.head ≡ c.queue.head)
      × (c'.queue.tail ≡ c.queue.tail)
  pub lps : c'.lps ≡ d.0
  pub messages : c'.messages ≡ write c.messages e d.1
  pub room : c'.event_buffer.stack_pointer ≤ c.event_buffer.stack_pointer + length ks
  pub size : c'.event_buffer.max_events ≡ c.event_buffer.max_events
  pub rolled : c'.rolled_back_events ≡ c.rolled_back_events + 1
  pub gvt : c'.last_gvt ≡ c.last_gvt

module _ {S D : Type 0} (model : Model S D) (place : Place) (f : ℕ)
    (opt : place.protocol ≡ optimistic) where
  pub roll_back-Rolled :
      (c : Chare S D) (e : Ptr) (ks : List Ptr)
      → IsChain c.mem (c.mem.caused_by_me e) ks
      → AreDistinct ks
      → AreCancellable c ks
      → IsValid (events c)
      → c.heap.nelems < 256
      → c.event_buffer.stack_pointer + length ks ≤ c.event_buffer.max_events
      → length ks ≤ f
      → c.mem.owner e ≢ chare_q
      → (c' : Chare S D) × (roll_back model place (suc f) c e ≡ some c')
        × Rolled e ks (model.reverse c.lps (c.mem.lp e) (c.mem.ts e) (c.messages e)) c c'
  unfolding roll_back tw_event_rollback set_current_event
  roll_back-Rolled c e ks h d w v few r b ne =
      let c1 = set_current_event c e in
      let rv = model.reverse c.lps (c.mem.lp e) (c.mem.ts e) (c.messages e) in
      let start : Chare S D = record c1 { lps = rv.0; messages = write c.messages e rv.1 } in
      let (c2, e2, k) =
        cancel_caused-Kept model place f opt (suc f) start (c.mem.caused_by_me e) ks h d w v
          (omega arith) r (omega arith) in
      let c3 = record c2 {
        mem = record c2.mem { caused_by_me = write c2.mem.caused_by_me e null };
        rolled_back_events = c2.rolled_back_events + 1;
      } in
      let v3 : IsValid (events c3) = record {
        ordered = k.heap.ordered;
        distinct = k.heap.distinct;
        indexed = k.heap.indexed;
        owned = k.heap.owned;
        fits = k.heap.fits;
      } in
      let out : Holds (events c3) e → ⊥ = λ hd. ne (sym (k.owner e) ∙ k.heap.owned e hd) in
      let (vp, np, hp, tp) = push_adds model.compare (events c3) e v3 out in
      let pm = push-mem model.compare (events c3) e in
      let c4 = set_events c3 (push model.compare (events c3) e) in
      (
        c4,
        ground (arith, e2),
        record {
          ts = λ x. tp x ∙ k.ts x;
          lp = λ x. ap (λ (m : Events). m.lp x) pm ∙ k.lp x;
          owner = λ x.
              ap (λ (m : Events). m.owner x) pm
              ∙ ap (λ o. if e == x then chare_q else o) (k.owner x);
          prev = λ x. ap (λ (m : Events). m.prev x) pm ∙ k.prev x;
          next = λ x. ap (λ (m : Events). m.next x) pm ∙ k.next x;
          caused = λ x.
              ap (λ (m : Events). m.caused_by_me x) pm
              ∙ ap (λ o. if e == x then null else o) (k.caused x);
          links = λ x n. ap (λ (m : Events). m.cause_next x) pm ∙ k.links x n;
          waits = λ x n. ap (λ (m : Events). m.in_cancel_q x) pm ∙ k.waits x n;
          flags = λ x n. ap (λ (m : Events). m.in_avl_tree x) pm ∙ k.flags x n;
          heap = vp;
          more = omega (arith, np, k.fewer);
          holds = λ x n hd. (hp x).1 (inl (k.holds x n hd));
          pending = (hp e).1 (inr refl);
          held = λ x hd. elim ((hp x).0 hd) [ inl w ↦ inl (k.held x w) | inr q ↦ inr q ];
          queue = k.queue;
          lps = k.lps;
          messages = k.messages;
          room = k.room;
          size = k.size;
          rolled = omega (arith, k.rolled);
          gvt = k.gvt;
        },
      )
