-- ===== src/Lp/Tests.antt =====
-- A chare with three processed events, one of which another chare has sent, and one of which has sent one.
use charades.Prelude.{
  ℕ, zero, suc, ◌+◌, ◌-◌, ◌<◌, ◌≡◌, refl, ap, false, Ptr, null, ◌==◌, ltb, if◌then◌else◌, inl, inr,
  some, List, [], ◌∷◌, length, at, arith,
}
use charades.Event.{Events, rollback_q, sent, base_compare}
use charades.PendingHeap
use charades.ProcessedQueue.Links.{IsQueue}
use charades.AvlTree.{empty, node, turn, get_height}
use charades.AvlTree.Lists.{to_list}
use charades.AvlTree.SortedList.{list_has}
use charades.AvlTree.Members.{list_find}
use charades.Setup.{optimistic}
use charades.Lp.{Chare, Model, Place}
use charades.Lp.Freeing.{store}
use charades.Lp.Rolling.{fossil_me, rollback_me_ts}
use charades.Lp.Restored.{Restored, rollback_me_ts-Restored}
use charades.PendingHeap.Valid.{init-IsValid}
use charades.Lp.Hashed.{IsHashed}
use charades.Lp.Stored.{IsChain, AreLeaves}
use charades.Lp.Listed.{IsNew}
use charades.Lp.Rollable.{AreRollable}
use charades.Lp.Freeable.{AreFreeable}
use charades.Lp.Fossils.{Committed, fossil_me-Committed}

-- Events 1, 2 and 3 at the times 10, 20 and 30; event 1 came from another chare, and event 2 sent event 4.
abbrev pub memory : Events
memory = record {
  ts = λ e. e + e + e + e + e + e + e + e + e + e;
  event_id = λ e. e;
  src_lp = λ e. 0;
  dest_lp = λ e. 0;
  lp = λ e. 9;
  owner = λ e. if e == 4 then sent else rollback_q;
  in_cancel_q = λ e. false;
  remote = λ e. e == 1;
  in_avl_tree = λ e. e == 1;
  prev = λ e. if e == 2 then 3 else if e == 1 then 2 else null;
  next = λ e. if e == 3 then 2 else if e == 2 then 1 else null;
  caused_by_me = λ e. if e == 2 then 4 else null;
  cause_next = λ e. null;
  cancel_next = λ e. null;
  index = λ e. 0;
}

-- The state of the LPs is a sum, and what is committed is added to it.
abbrev pub sums : Model ℕ ℕ
sums = record {
  forward = λ s lp now d. (s + d, d, []);
  reverse = λ s lp now d. (s - d, d);
  commit = λ s lp now d. s + now;
  clear_bits = λ d. d;
  compare = λ lp. base_compare;
}

abbrev pub place : Place
place = record {
  this_index = 0;
  lp_structs = λ i. 9;
  gid = λ lp. 0;
  get_chare_id = λ gid. gid;
  get_local_id = λ gid. 0;
  protocol = optimistic;
  ts_end = 1000;
  lookahead = 0;
  abort_event = 50;
}

abbrev pub chare : Chare ℕ ℕ
chare = record {
  mem = memory;
  messages = λ e. 1;
  lps = 0;
  current_time = 30;
  current_event = 3;
  next_event_id = 5;
  heap = PendingHeap.init memory;
  queue = record { mem = memory; length = 3; head = 3; tail = 1 };
  all_events = node empty 1 1 empty;
  free_nodes = 4;
  event_buffer = record { max_events = 10; stack_pointer = 6; buffer = λ i. i + 10 };
  cancel_q = null;
  min_cancel_q = 1000;
  committed_events = 0;
  rolled_back_events = 0;
  committed_time = 0;
  next_ts = 1000;
  min_cancel_time = 1000;
  last_gvt = 5;
  sent = [];
}

abbrev pub kids : Ptr → List Ptr
kids e = if e == 2 then 4 ∷ [] else []

abbrev pub processed : List Ptr
processed = 3 ∷ 2 ∷ 1 ∷ []

pub processed-at : (i : ℕ) → at processed i ≡ (if ltb i 3 then 3 - i else 0)
unfolding at
processed-at zero = refl
processed-at (suc zero) = refl
processed-at (suc (suc zero)) = refl
processed-at (suc (suc (suc i))) = ground arith

pub queue_holds : IsQueue (record chare.queue { mem = memory }) processed
queue_holds = record {
  count = refl;
  head = ground (arith, processed-at 0);
  tail = ground (arith, processed-at 2);
  next = λ i h. ground (arith, processed-at i, processed-at (i + 1));
  prev = λ i h. ground (arith, processed-at i, processed-at (i - 1));
  ne_null = λ i h. ground (arith, processed-at i);
  distinct = λ i j h k s. ground (arith, processed-at i, processed-at j);
  owned = λ i h. ground (arith, processed-at i);
}

tree_holds : IsHashed memory (store sums place 10 chare)
unfolding to_list list_has list_find turn get_height
tree_holds = record {
  ordered = ((tt, tt), (refl, tt, tt), (refl, tt));
  has = λ x f. ground arith;
  finds = λ x f. ground arith;
}

pub own_kids : (i : ℕ) → i < 3 → IsNew (at processed i) (kids (at processed i))
unfolding at
own_kids zero h = tt
own_kids (suc zero) h = (λ e. absurd (omega arith), tt)
own_kids (suc (suc zero)) h = tt
own_kids (suc (suc (suc i))) h = absurd (omega arith)

abbrev pub IsReady : (x : Ptr) → Type 0
IsReady x =
    IsChain memory (memory.caused_by_me x) (kids x)
    × AreLeaves memory memory.in_avl_tree (kids x)
    × (length (kids x) + 1 < 10)

pub all-IsReady : (i : ℕ) → i < 3 → IsReady (at processed i)
unfolding at
all-IsReady zero h = (refl, tt, omega arith)
all-IsReady (suc zero) h =
    ((refl, (λ e. absurd (omega arith)), refl), (inr (refl, refl), tt), omega arith)
all-IsReady (suc (suc zero)) h = (refl, tt, omega arith)
all-IsReady (suc (suc (suc i))) h = absurd (omega arith)

chare_ready : AreFreeable sums place 10 kids chare processed
chare_ready = record {
  queue = queue_holds;
  hashed = tree_holds;
  chains = λ i h. (all-IsReady i h).0;
  leaves = λ i h. (all-IsReady i h).1;
  fuel_left = λ i h. (all-IsReady i h).2;
  room = omega arith;
}

fossil_me-Committed_example :
    (c' : Chare ℕ ℕ) × (fossil_me sums place 10 25 chare ≡ some c')
    × (kept : List Ptr) × (gone : List Ptr) × Committed sums place 10 kids 25 chare processed kept
        gone c'
fossil_me-Committed_example =
    fossil_me-Committed sums place 10 kids refl 25 chare processed chare_ready

-- Each of the three events has added 1 to the sum.
abbrev counted : Chare ℕ ℕ
counted = record chare { lps = 3 }

counted_rollable : AreRollable sums place 9 kids counted processed
unfolding PendingHeap.init
counted_rollable = record {
  queue = queue_holds;
  heap = init-IsValid memory;
  few = omega arith;
  room = omega arith;
  distinct = (tt, tt);
  cancellable = (inr (inl (refl, (refl, refl))), tt);
  own = λ i h. own_kids i h;
  chains = λ i h. (all-IsReady i h).0;
  short = λ i h. omega (arith, (all-IsReady i h).2);
}

rollback_me_ts-Restored_example :
    (c' : Chare ℕ ℕ) × (rollback_me_ts sums place 10 15 counted ≡ some c')
    × (gone : List Ptr) × (kept : List Ptr) × Restored sums place 9 kids 15 counted 0 processed gone
        kept c'
rollback_me_ts-Restored_example =
    rollback_me_ts-Restored sums place 9 kids (λ s lp now d. ap (λ s. (s, d)) (omega arith)) refl 15
      counted 0 processed counted_rollable
      (2, 1, (1, 1, (0, 1, refl, refl, refl), refl, refl), refl, refl)
