-- ===== src/AvlTree/Tests.antt =====
-- Runs of the tree, and the theorems at a tree of two events.
use charades.Prelude.{
  ◌↔◌, ◌+◌, ◌%◌, ◌≤◌, ◌≡◌, ◌||◌, refl, arith, true, false, Ptr, null, ◌==◌, Option, some, none,
}
use charades.Event.{Events, chare_q}
use charades.AvlTree.{
  AvlTree, empty, node, Pool, turn, here, child_0, child_1, search, insert, delete, get_height,
  rebalance, rotate_0, outer_0, fix_height, avl_alloc,
}
use charades.AvlTree.Lists.{to_list}
use charades.AvlTree.Order.{IsAfter, turn_iff}
use charades.Event.Order.{SameKey}
use charades.AvlTree.SortedList.{list_has}
use charades.AvlTree.Balance.{IsBalanced, rebalance_unbalanced}
use charades.AvlTree.Search.{search-list_has}
use charades.AvlTree.Promise.{
  IsOrdered, Inserted, Deleted, insert-Inserted, insert-IsBalanced, delete-Deleted,
}
use charades.AvlTree.Cancel.{exchange-exchange, exchange_both}

-- Events at the times 0 to 9; event 12 has the key of event 2.
abbrev memory : Events
memory = record {
  ts = λ e. e % 10;
  event_id = λ e. 1;
  src_lp = λ e. 1;
  dest_lp = λ e. 1;
  lp = λ e. null;
  owner = λ e. chare_q;
  in_cancel_q = λ e. false;
  remote = λ e. true;
  in_avl_tree = λ e. false;
  prev = λ e. null;
  next = λ e. null;
  caused_by_me = λ e. null;
  cause_next = λ e. null;
  cancel_next = λ e. null;
  index = λ e. 0;
}

abbrev leaf : Ptr → AvlTree
leaf e = node empty e 1 empty

-- Events 2 and 4.
abbrev sample : AvlTree
sample = node (leaf 2) 4 2 empty

abbrev pool : Pool
pool = record { in_tree = λ e. (e == 2) || (e == 4); free = 3 }

sample-IsOrdered : IsOrdered memory pool sample
unfolding to_list turn get_height
sample-IsOrdered = (((refl, tt), (tt, tt)), (refl, (refl, tt, tt), tt), (refl, (refl, tt)))

sample-IsBalanced : IsBalanced sample
unfolding get_height
sample-IsBalanced = (refl, omega arith, omega arith, (refl, omega arith, omega arith, tt, tt), tt)

lacks_1 : list_has memory 1 (to_list sample) ≡ false
unfolding list_has to_list turn
lacks_1 = refl

has_12 : list_has memory 12 (to_list sample) ≡ true
unfolding list_has to_list turn
has_12 = refl

lacks_5 : list_has memory 5 (to_list sample) ≡ false
unfolding list_has to_list turn
lacks_5 = refl

-- An insertion that rotates, and the deletion of an inner node by an anti-event.
abbrev tree_of : Option (AvlTree × Pool) → AvlTree
tree_of none = empty
tree_of (some (t, p)) = t

insert_run : tree_of (insert memory sample 1 pool) ≡ node (leaf 1) 2 2 (leaf 4)
unfolding insert turn rebalance rotate_0 outer_0 fix_height get_height avl_alloc
insert_run = refl

search-list_has_example : search memory sample 12 ≡ list_has memory 12 (to_list sample)
search-list_has_example = search-list_has memory sample 12 sample-IsOrdered.0

insert-Inserted_example :
    (r : AvlTree × Pool) × (insert memory sample 1 pool ≡ some r)
    × Inserted memory sample 1 pool r.0 r.1
insert-Inserted_example =
    insert-Inserted memory sample 1 pool sample-IsOrdered lacks_1 (omega arith)

insert-IsBalanced_example :
    (r : AvlTree × Pool) × (insert memory sample 1 pool ≡ some r)
    × IsBalanced r.0
    × (get_height sample ≤ get_height r.0)
    × (get_height r.0 ≤ get_height sample + 1)
insert-IsBalanced_example = insert-IsBalanced memory sample 1 pool sample-IsBalanced (omega arith)

-- A node whose left child is two levels taller.
abbrev chain : AvlTree
chain = node (leaf 1) 2 2 empty

chain_height : get_height chain ≡ 2
unfolding get_height
chain_height = refl

empty_height : get_height empty ≡ 0
unfolding get_height
empty_height = refl

leaf_height : (e : Ptr) → get_height (leaf e) ≡ 1
unfolding get_height
leaf_height e = refl

delete-Deleted_example :
    (r : Ptr × AvlTree × Pool) × (delete memory sample 12 pool ≡ some r)
    × Deleted memory sample 12 pool r.0 r.1 r.2
delete-Deleted_example = delete-Deleted memory sample 12 pool sample-IsOrdered has_12

exchange-exchange_example :
    (r : AvlTree × Pool) × (exchange_both memory sample 1 11 pool ≡ some (some 1, r.0, r.1))
    × (to_list r.0 ≡ to_list sample)
    × (r.1.free ≡ 3)
    × IsOrdered memory r.1 r.0
exchange-exchange_example =
    exchange-exchange memory sample 1 11 pool sample-IsOrdered lacks_1 (omega arith)
      (refl, refl, refl)

-- The left child has two children of height 2, and the inner one's own left child is missing.
abbrev outer : AvlTree
outer = node (leaf 1) 2 2 empty

abbrev inner : AvlTree
inner = node empty 4 2 (leaf 5)

tall-IsBalanced : IsBalanced (node outer 3 3 inner)
unfolding get_height
tall-IsBalanced = (
  refl,
  omega arith,
  omega arith,
  (refl, omega arith, omega arith, (refl, omega arith, omega arith, tt, tt), tt),
  (refl, omega arith, omega arith, tt, (refl, omega arith, omega arith, tt, tt)),
)

rebalance_unbalanced_example : ¬ IsBalanced (rebalance (node (node outer 3 3 inner) 7 4 (leaf 8)))
rebalance_unbalanced_example =
    rebalance_unbalanced outer empty (leaf 5) (leaf 8) 3 4 7 3 2 4 tall-IsBalanced
      (ground (arith, leaf_height 8)) chain_height (ground (arith, empty_height))

turn_iff_example :
    ((turn memory 5 4 ≡ child_1) ↔ IsAfter memory 5 4)
    × ((turn memory 5 4 ≡ child_0) ↔ IsAfter memory 4 5)
    × ((turn memory 5 4 ≡ here) ↔ SameKey memory 5 4)
turn_iff_example = turn_iff memory 5 4
