-- ===== src/ProcessedQueue/Tests.antt =====
-- Runs of the processed queue, and the theorems at a queue of three events.
use charades.Prelude.{
  ℕ, zero, suc, ◌+◌, ◌-◌, ◌≡◌, refl, arith, false, Ptr, null, List, [], ◌∷◌, ◌==◌, ltb,
  if◌then◌else◌, at, some, none, remove_at,
}
use charades.Event.{Events, rollback_q, event_null}
use charades.ProcessedQueue.{ProcessedQueue, push_front, erase, set_prev, set_next}
use charades.ProcessedQueue.Links.{IsQueue, IsFresh}
use charades.ProcessedQueue.Erase.{erase-remove_at}

-- Events 1, 2 and 3 at the times 9, 8 and 7, linked in this order.
abbrev memory : Events
memory = record {
  ts = λ e. 10 - e;
  event_id = λ e. e;
  src_lp = λ e. 1;
  dest_lp = λ e. 1;
  lp = λ e. null;
  owner = λ e. rollback_q;
  in_cancel_q = λ e. false;
  remote = λ e. false;
  in_avl_tree = λ e. false;
  prev = λ e. e - 1;
  next = λ e. if e == 3 then null else e + 1;
  caused_by_me = λ e. null;
  cause_next = λ e. null;
  cancel_next = λ e. null;
  index = λ e. 0;
}

abbrev sample : ProcessedQueue
sample = record { mem = memory; length = 3; head = 1; tail = 3 }

abbrev events : List Ptr
events = 1 ∷ 2 ∷ 3 ∷ []

events-at : (i : ℕ) → at events i ≡ (if ltb i 3 then i + 1 else 0)
unfolding at
events-at zero = refl
events-at (suc zero) = refl
events-at (suc (suc zero)) = refl
events-at (suc (suc (suc i))) = ground arith

sample-IsQueue : IsQueue sample events
sample-IsQueue = record {
  count = refl;
  head = ground (arith, events-at 0);
  tail = ground (arith, events-at 2);
  next = λ i h. ground (arith, events-at i, events-at (i + 1));
  prev = λ i h. ground (arith, events-at i, events-at (i - 1));
  ne_null = λ i h. ground (arith, events-at i);
  distinct = λ i j h k s. ground (arith, events-at i, events-at j);
  owned = λ i h. refl;
}

new_event : IsFresh 4 events
new_event i h = ground (arith, events-at i)

-- What the queue holds from the head, by its links.
abbrev walk : ℕ → ProcessedQueue → Ptr → List Ptr
walk zero q e = []
walk (suc n) q e = if e == null then [] else e ∷ walk n q (q.mem.next e)

abbrev after_erase : ProcessedQueue → Ptr → List Ptr
after_erase q e = elim (erase q e) [ none ↦ [] | some r ↦ walk 9 r r.head ]

push_front_run : walk 9 (push_front sample 4) 4 ≡ 4 ∷ 1 ∷ 2 ∷ 3 ∷ []
unfolding push_front set_prev
push_front_run = refl

erase_run : after_erase sample 2 ≡ 1 ∷ 3 ∷ []
unfolding erase set_prev set_next
erase_run = refl

erase-remove_at_example :
    (r : ProcessedQueue) × (erase sample (at events 1) ≡ some r)
    × IsQueue r (remove_at 1 events)
    × (r.mem.owner (at events 1) ≡ event_null)
erase-remove_at_example = erase-remove_at sample events 1 sample-IsQueue (omega arith)
