-- ===== src/AvlTree/Members.antt =====
-- What an insertion puts into a sorted list, and which entry a key finds.
use charades.Prelude.{◌≡◌, refl, Ptr, true, false, arith, ◌++◌, ◌∷◌, [], List}
use charades.Event.{Events}
use charades.Event.Order.{SameKey}
use charades.AvlTree.{here, child_0, child_1, turn}
use charades.AvlTree.Order.{
  AllBelow, AllAbove, IsSorted, turn_flip, turn_flip', turn_trans, turn-same, turn-here,
}
use charades.AvlTree.SortedList.{list_has, list_insert, list_delete}

module _ (m : Events) where
  unfoldable pub list_find : Ptr → List Ptr → Ptr
  list_find key [] = 0
  list_find key (x ∷ xs) = elim (turn m key x) [ here ↦ x | _ ↦ list_find key xs ]

  turn_refl : (a : Ptr) → turn m a a ≡ here
  turn_refl a = turn-here m a a (refl, refl, refl)

  insert-AllAbove :
      (x key : Ptr) (xs : List Ptr)
      → turn m x key ≡ child_0
      → AllAbove m x xs
      → AllAbove m x (list_insert m key xs)
  unfolding list_insert
  insert-AllAbove x key [] e a = (e, tt)
  insert-AllAbove x key (y ∷ ys) e a = ground (arith, insert-AllAbove x key ys e a.1)

  AllAbove_trans :
      (x y : Ptr) (ys : List Ptr) → turn m x y ≡ child_0 → AllAbove m y ys → AllAbove m x ys
  AllAbove_trans x y [] e a = tt
  AllAbove_trans x y (z ∷ zs) e a = (
    turn_flip' m z x (turn_trans m z y x (turn_flip m y z a.0) (turn_flip m x y e)),
    AllAbove_trans x y zs e a.1,
  )

  -- A key that is not in a sorted list goes where the list stays sorted.
  pub insert-IsSorted :
      (key : Ptr) (xs : List Ptr)
      → IsSorted m xs
      → list_has m key xs ≡ false
      → IsSorted m (list_insert m key xs)
  unfolding list_insert list_has
  insert-IsSorted key [] s h = (tt, tt)
  insert-IsSorted key (x ∷ xs) s h = ground (
    arith,
    insert-IsSorted key xs s.1,
    insert-AllAbove x key xs,
    turn_flip' m key x,
    AllAbove_trans key x xs,
  )

  pub has-insert :
      (key key' : Ptr) (xs : List Ptr)
      → SameKey m key' key
      → list_has m key' (list_insert m key xs) ≡ true
  unfolding list_insert list_has
  has-insert key key' [] s = ground (arith, turn-here m key' key s)
  has-insert key key' (x ∷ xs) s = ground (arith, turn-here m key' key s, has-insert key key' xs s)

  -- The same key takes out what was put in, and returns it.
  pub delete-insert :
      (key key' : Ptr) (xs : List Ptr)
      → SameKey m key' key
      → list_has m key xs ≡ false
      → list_delete m key' (list_insert m key xs) ≡ xs
  unfolding list_insert list_has list_delete
  delete-insert key key' [] s h = ground (arith, turn-here m key' key s)
  delete-insert key key' (x ∷ xs) s h =
      ground (arith, turn-here m key' key s, turn-same m key' key x, delete-insert key key' xs s)

  pub find-insert :
      (key key' : Ptr) (xs : List Ptr)
      → SameKey m key' key
      → list_has m key xs ≡ false
      → list_find key' (list_insert m key xs) ≡ key
  unfolding list_insert list_has list_find
  find-insert key key' [] s h = ground (arith, turn-here m key' key s)
  find-insert key key' (x ∷ xs) s h =
      ground (arith, turn-here m key' key s, turn-same m key' key x, find-insert key key' xs s)

  -- What deletion finds in a tree is what it finds in the list.
  module _ (key k : Ptr) (r : List Ptr) where
    pub find_list-right :
        (l : List Ptr)
        → AllBelow m k l
        → turn m key k ≡ child_1
        → list_find key (l ++ k ∷ r) ≡ list_find key r
    unfolding list_find
    find_list-right [] b e = ground arith
    find_list-right (x ∷ l) b e =
        ground (arith, turn_trans m key k x e b.0, find_list-right l b.1 e)

    pub find_list-here :
        (l : List Ptr) → AllBelow m k l → turn m key k ≡ here → list_find key (l ++ k ∷ r) ≡ k
    unfolding list_find
    find_list-here [] b e = ground arith
    find_list-here (x ∷ l) b e = ground (arith, turn-same m key k x e, find_list-here l b.1 e)

    pub find_list-left :
        (l : List Ptr) → list_has m key l ≡ true → list_find key (l ++ k ∷ r) ≡ list_find key l
    unfolding list_find list_has
    find_list-left [] h = cc
    find_list-left (x ∷ l) h = ground (arith, find_list-left l)
