-- ===== src/PendingHeap/Tests.antt =====
-- Runs of the pending heap, and the theorems at small heaps.
use charades.Prelude.{
  ℕ, ◌+◌, ◌-◌, ◌%◌, ◌≡◌, refl, arith, true, false, Ptr, null, List, [], ◌∷◌, ◌==◌, if◌then◌else◌,
  some,
}
use charades.Event.{Events, Compare, chare_q, base_compare, custom_less}
use charades.Event.Order.{custom_less_intransitive}
use charades.PendingHeap.{
  PendingHeap, init, push, pop, erase, grow, append, cut_root, percolate_up, percolate_up_loop,
  ascent, sift_down, sift_down_loop, descent, descent_left, swap,
}
use charades.PendingHeap.Valid.{Holds, IsValid, HoldsLess}
use charades.PendingHeap.Push.{Pushed, push_adds}
use charades.PendingHeap.Pop.{Popped, pop_earliest}
use charades.PendingHeap.Erase.{Erased, erase_removes}
use charades.PendingHeap.Wrap.{erase_wrong}

-- Memory in which event 2 is for LP 2 and all others are for LP 1, at the given times; the events of
-- one sender have their addresses as ids.
abbrev memory : (Ptr → ℕ) → Events
memory times = record {
  ts = times;
  event_id = λ e. e;
  src_lp = λ e. 1;
  dest_lp = λ e. if e == 2 then 2 else 1;
  lp = λ e. null;
  owner = λ e. chare_q;
  in_cancel_q = λ e. false;
  remote = λ e. false;
  in_avl_tree = λ e. false;
  prev = λ e. null;
  next = λ e. null;
  caused_by_me = λ e. null;
  cause_next = λ e. null;
  cancel_next = λ e. null;
  index = λ e. (e - 1) % 256;
}

abbrev compare : Compare
compare lp = base_compare

-- Events 1 and 3 are simultaneous and for one LP, and `compare` puts event 1 first. Yet event 3 is
-- executed first if it came first and an event for another LP came between them.
abbrev ties : Ptr → ℕ
ties e = if e == 4 then 9 else 5

abbrev pushes : List Ptr → PendingHeap → PendingHeap
pushes [] h = h
pushes (e ∷ es) h = pushes es (push compare h e)

tie_order : (pop compare (pushes (1 ∷ 2 ∷ 4 ∷ 3 ∷ []) (init (memory ties)))).0 ≡ 1
unfolding pop push init grow append cut_root percolate_up percolate_up_loop ascent sift_down
    sift_down_loop descent descent_left swap custom_less base_compare
tie_order = refl

tie_disorder :
    ((pop compare (pushes (3 ∷ 2 ∷ 4 ∷ 1 ∷ []) (init (memory ties)))).0 ≡ 3)
    × (base_compare (memory ties) 1 3 ≡ true)
unfolding pop push init grow append cut_root percolate_up percolate_up_loop ascent sift_down
    sift_down_loop descent descent_left swap custom_less base_compare
tie_disorder = (refl, refl)

-- A heap of the events 1 to `n`, all at one time.
abbrev level : ℕ → PendingHeap
level n = record { mem = memory (λ e. 7); nelems = n; curr_max = n; elems = λ i. i + 1 }

level-IsValid : (n : ℕ) → IsValid (level n)
level-IsValid n = record {
  ordered = λ c a b. omega arith;
  distinct = λ i j a b e. omega arith;
  indexed = λ i a. omega arith;
  owned = λ e w. refl;
  fits = omega arith;
}

custom_less_intransitive_example :
    let m = memory (λ e. 7) in
    (custom_less compare m 1 2 ≡ false)
    × (custom_less compare m 2 1 ≡ false)
    × (custom_less compare m 2 3 ≡ false)
    × (custom_less compare m 3 2 ≡ false)
    × (custom_less compare m 1 3 ≡ true)
unfolding base_compare
custom_less_intransitive_example =
    custom_less_intransitive compare (memory (λ e. 7)) 1 2 3 refl refl refl (omega arith) refl

push_adds_example : Pushed (level 3) 9 (push compare (level 3) 9)
push_adds_example = push_adds compare (level 3) 9 (level-IsValid 3) (λ (i, a, b). omega arith)

pop_earliest_example : Popped (level 3) (pop compare (level 3))
pop_earliest_example = pop_earliest compare (level 3) (level-IsValid 3) (omega arith)

erase_removes_example :
    (r : PendingHeap) × (erase compare (level 3) 2 ≡ some r) × Erased (level 3) 2 r
erase_removes_example =
    erase_removes compare (level 3) 2 (level-IsValid 3) (1, omega arith, refl) (omega arith)

erase_wrong_example :
    (r : PendingHeap) × (erase compare (level 300) 271 ≡ some r)
    × Holds r 271
    × HoldsLess 15 (level 300) r
erase_wrong_example =
    erase_wrong compare (level 300) 270 (level-IsValid 300) (omega arith) (omega arith)
