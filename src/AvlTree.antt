-- ===== src/AvlTree.antt =====
-- collections/avl_tree.C: the tree of the events that a chare has received from other chares, by which
-- an event and its anti-event find each other.
-- The key fields of events do not change while an operation runs, so they are read from a memory `m`
-- that stands fixed; the flag `state.avl_tree` does, and is passed along with the number of free
-- nodes in the processor's list. `none` is a failed assertion or a read through a null pointer.
pub mod Order
pub mod Lists
pub mod SortedList
pub mod Balance
pub mod Search
pub mod Insert
pub mod Delete
pub mod DeleteTree
pub mod Exchange
pub mod Members
pub mod Find
pub mod Keeps
pub mod Measured
pub mod Promise
pub mod Cancel
mod Tests
use charades.Prelude.{
  ◌>>=◌, ℕ, zero, suc, ◌+◌, ◌-◌, ◌≤◌, ◌<◌, ◌≡◌, Bool, true, false, Ptr, write, ltb, ◌==◌,
  if◌then◌else◌, Option, none, some, max,
}
use charades.Event.{Events}

pub data AvlTree : Type 0 where
  empty : AvlTree
  node : AvlTree → Ptr → ℕ → AvlTree → AvlTree

-- The flags of the events and the free nodes.
pub record Pool : Type 0 where
  pub in_tree : Ptr → Bool
  pub free : ℕ

unfoldable pub get_height : AvlTree → ℕ
get_height empty = 0
get_height (node l k h r) = h

-- `avlFixHeight` of a node with these parts.
unfoldable pub fix_height : AvlTree → Ptr → AvlTree → AvlTree
unfolding get_height
fix_height l k r = node l k (1 + max (get_height l) (get_height r)) r

-- `avlRotate(t, 0)` and `avlRotate(t, 1)`; the child that goes up is there where they are called.
unfoldable pub rotate_0 : AvlTree → AvlTree
unfolding fix_height
rotate_0 (node (node a x i b) y h c) = fix_height a x (fix_height b y c)
rotate_0 t = t

unfoldable pub rotate_1 : AvlTree → AvlTree
unfolding fix_height
rotate_1 (node a x h (node b y i c)) = fix_height (fix_height a x b) y c
rotate_1 t = t

-- The inner test of `avlRebalance` for each side: does the outer grandchild win?
unfoldable pub outer_0 : AvlTree → Bool
unfolding get_height
outer_0 empty = false
outer_0 (node l k h r) = ltb (get_height r) (get_height l)

unfoldable pub outer_1 : AvlTree → Bool
unfolding get_height
outer_1 empty = false
outer_1 (node l k h r) = ltb (get_height l) (get_height r)

unfoldable pub rebalance : AvlTree → AvlTree
rebalance empty = empty
rebalance (node l k h r) =
    if ltb (get_height r + 1) (get_height l)
    then (if outer_0 l then rotate_0 (node l k h r) else rotate_0 (node (rotate_1 l) k h r))
    else if ltb (get_height l + 1) (get_height r)
    then (if outer_1 r then rotate_1 (node l k h r) else rotate_1 (node l k h (rotate_0 r)))
    else fix_height l k r

-- Where a key lies from the key of a node: there, or in a child.
pub data Turn : Type 0 where
  here child_0 child_1 : Turn

-- The tests that all the functions make: timestamp, then event id, then sender.
unfoldable pub turn : Events → Ptr → Ptr → Turn
turn m key k =
    let side = λ (greater : Bool). if greater then child_1 else child_0 in
    if m.ts key == m.ts k
    then (if m.event_id key == m.event_id k
        then (if m.src_lp key == m.src_lp k then here else side (ltb (m.src_lp k) (m.src_lp key)))
        else side (ltb (m.event_id k) (m.event_id key)))
    else side (ltb (m.ts k) (m.ts key))

abbrev pub set_flag : Pool → Ptr → Bool → Pool
set_flag p e b = record p { in_tree = write p.in_tree e b }

-- `avl_free`.
unfoldable pub avl_free : Pool → Pool
avl_free p = record p { free = p.free + 1 }

-- `avl_alloc` fails when no node is left.
unfoldable pub avl_alloc : Pool → Option Pool
avl_alloc p = if p.free == 0 then none else some (record p { free = p.free - 1 })

-- `avlDeleteMin`; on the empty tree it reads through a null pointer.
unfoldable pub delete_min : AvlTree → Pool → Option (Ptr × AvlTree × Pool)
delete_min empty p = none
delete_min (node empty k h r) p = some (k, rebalance r, set_flag (avl_free p) k false)
delete_min (node (node a x i b) k h r) p = do
  (e, l, p') ← delete_min (node a x i b) p
  some (e, rebalance (node l k h r), set_flag p' e false)

module _ (m : Events) where
  unfoldable pub search : AvlTree → Ptr → Bool
  search empty key = false
  search (node l k h r) key = elim (turn m key k) [
    | here ↦ true
    | child_0 ↦ search l key
    | child_1 ↦ search r key
  ]

  unfoldable pub insert : AvlTree → Ptr → Pool → Option (AvlTree × Pool)
  insert empty key p = do p' ← avl_alloc (set_flag p key true); some (node empty key 1 empty, p')
  insert (node l k h r) key p =
      let low : Option (AvlTree × Pool) = do
        (l', p') ← insert l key (set_flag p key true)
        some (rebalance (node l' k h r), p')
      in let high : Option (AvlTree × Pool) = do
        (r', p') ← insert r key (set_flag p key true)
        some (rebalance (node l k h r'), p')
        in elim (turn m key k) [ here ↦ low | child_0 ↦ low | child_1 ↦ high ]

  -- What `avlDelete` does at the node that holds the key.
  unfoldable pub delete_here : AvlTree → Ptr → ℕ → AvlTree → Pool → Option (Ptr × AvlTree × Pool)
  delete_here l k h empty p = some (k, rebalance l, set_flag (avl_free p) k false)
  delete_here l k h (node a x i b) p = do
    (e, r, p') ← delete_min (node a x i b) p
    some (k, rebalance (node l e h r), set_flag (set_flag p' e true) k false)

  unfoldable pub delete : AvlTree → Ptr → Pool → Option (Ptr × AvlTree × Pool)
  delete empty key p = none
  delete (node l k h r) key p =
      let low : Option (Ptr × AvlTree × Pool) = do
        (e, l', p') ← delete l key p
        some (e, rebalance (node l' k h r), set_flag p' e false)
      in let high : Option (Ptr × AvlTree × Pool) = do
        (e, r', p') ← delete r key p
        some (e, rebalance (node l k h r'), set_flag p' e false)
        in elim (turn m key k) [ here ↦ delete_here l k h r p | child_0 ↦ low | child_1 ↦ high ]

  -- The event that `avlInsertOrDelete` returns is `none` where it is the null pointer.
  unfoldable pub insert_or_delete : AvlTree → Ptr → Pool → Option (Option Ptr × AvlTree × Pool)
  insert_or_delete empty key p = do (t, p') ← insert empty key p; some (none, t, p')
  insert_or_delete (node l k h r) key p =
      let found : Option (Option Ptr × AvlTree × Pool) = do
        (e, t, p') ← delete (node l k h r) key p
        some (some e, t, p')
      in let low : Option (Option Ptr × AvlTree × Pool) = do
        (e, l', p') ← insert_or_delete l key p
        some (e, rebalance (node l' k h r), p')
        in let high : Option (Option Ptr × AvlTree × Pool) = do
          (e, r', p') ← insert_or_delete r key p
          some (e, rebalance (node l k h r'), p')
          in elim (turn m key k) [ here ↦ found | child_0 ↦ low | child_1 ↦ high ]

-- `avlDestroy` gives every node back.
unfoldable pub destroy : AvlTree → Pool → Pool
destroy empty p = p
destroy (node l k h r) p = avl_free (destroy r (destroy l p))
