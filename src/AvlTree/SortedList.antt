-- ===== src/AvlTree/SortedList.antt =====
-- Sorted lists of events: what a tree stands for, searched, extended and cut from the left.
use charades.Prelude.{
  ◌≡◌, ◌≢◌, refl, ◌⊎◌, inl, inr, arith, Ptr, Bool, true, false, List, [], ◌∷◌, ◌++◌,
}
use charades.Event.{Events}
use charades.AvlTree.{Turn, here, child_0, child_1, turn}
use charades.AvlTree.Order.{
  AllBelow, AllAbove, IsSorted, turn_flip, turn_flip', turn_trans, turn-same,
}

module _ (m : Events) where
  unfoldable pub list_has : Ptr → List Ptr → Bool
  list_has key [] = false
  list_has key (x ∷ xs) = elim (turn m key x) [ here ↦ true | _ ↦ list_has key xs ]

  unfoldable pub list_insert : Ptr → List Ptr → List Ptr
  list_insert key [] = key ∷ []
  list_insert key (x ∷ xs) = elim (turn m key x) [
    | child_1 ↦ x ∷ list_insert key xs
    | _ ↦ key ∷ x ∷ xs
  ]

  unfoldable pub list_delete : Ptr → List Ptr → List Ptr
  list_delete key [] = []
  list_delete key (x ∷ xs) = elim (turn m key x) [ here ↦ xs | _ ↦ x ∷ list_delete key xs ]

  pub Turn-cases : (t : Turn) → (t ≡ here) ⊎ (t ≡ child_0) ⊎ (t ≡ child_1)
  Turn-cases here = inl refl
  Turn-cases child_0 = inr (inl refl)
  Turn-cases child_1 = inr (inr refl)

  -- A sorted list splits at any entry into what is below and what is above.
  pub record Split (l : List Ptr) (k : Ptr) (r : List Ptr) : Type 0 where
    pub below : AllBelow m k l
    pub above : AllAbove m k r
    pub left : IsSorted m l
    pub right : IsSorted m r

  AllAbove-append :
      (x : Ptr) (l : List Ptr) (k : Ptr) (r : List Ptr)
      → AllAbove m x (l ++ k ∷ r)
      → (turn m x k ≡ child_0) × AllAbove m x l
  AllAbove-append x [] k r a = (a.0, tt)
  AllAbove-append x (y ∷ l) k r a = let (e, b) = AllAbove-append x l k r a.1 in (e, (a.0, b))

  pub sorted-Split : (l : List Ptr) (k : Ptr) (r : List Ptr) → IsSorted m (l ++ k ∷ r) → Split l k r
  sorted-Split [] k r s = record { below = tt; above = s.0; left = tt; right = s.1 }
  sorted-Split (x ∷ l) k r s =
      let i = sorted-Split l k r s.1 in
      let (e, a) = AllAbove-append x l k r s.0 in
      record {
        below = (turn_flip m x k e, i.below);
        above = i.above;
        left = (a, i.left);
        right = i.right;
      }

  -- The place of a key is found on the side of `k` where it lies.
  module _ (key k : Ptr) (r : List Ptr) where
    pub insert-right :
        (l : List Ptr)
        → AllBelow m k l
        → turn m key k ≡ child_1
        → list_insert key (l ++ k ∷ r) ≡ l ++ k ∷ list_insert key r
    unfolding list_insert
    insert-right [] b e = ground arith
    insert-right (x ∷ l) b e = ground (arith, turn_trans m key k x e b.0, insert-right l b.1 e)

    pub insert-left :
        (l : List Ptr)
        → turn m key k ≢ child_1
        → list_insert key (l ++ k ∷ r) ≡ list_insert key l ++ k ∷ r
    unfolding list_insert
    insert-left [] e = ground arith
    insert-left (x ∷ l) e = ground (arith, insert-left l e)

    pub has-right :
        (l : List Ptr)
        → AllBelow m k l
        → turn m key k ≡ child_1
        → list_has key (l ++ k ∷ r) ≡ list_has key r
    unfolding list_has
    has-right [] b e = ground arith
    has-right (x ∷ l) b e = ground (arith, turn_trans m key k x e b.0, has-right l b.1 e)

    pub has-here : (l : List Ptr) → turn m key k ≡ here → list_has key (l ++ k ∷ r) ≡ true
    unfolding list_has
    has-here [] e = ground arith
    has-here (x ∷ l) e = ground (arith, has-here l e)

    pub delete-right :
        (l : List Ptr)
        → AllBelow m k l
        → turn m key k ≡ child_1
        → list_delete key (l ++ k ∷ r) ≡ l ++ k ∷ list_delete key r
    unfolding list_delete
    delete-right [] b e = ground arith
    delete-right (x ∷ l) b e = ground (arith, turn_trans m key k x e b.0, delete-right l b.1 e)

    pub delete-here :
        (l : List Ptr)
        → AllBelow m k l
        → turn m key k ≡ here
        → list_delete key (l ++ k ∷ r) ≡ l ++ r
    unfolding list_delete
    delete-here [] b e = ground arith
    delete-here (x ∷ l) b e = ground (arith, turn-same m key k x e, delete-here l b.1 e)

    pub delete-left :
        (l : List Ptr)
        → list_has key l ≡ true
        → list_delete key (l ++ k ∷ r) ≡ list_delete key l ++ k ∷ r
    unfolding list_delete list_has
    delete-left [] h = cc
    delete-left (x ∷ l) h = ground (arith, delete-left l)

  -- A key below `k` is none of the entries above it.
  absent-above :
      (key k : Ptr) (r : List Ptr)
      → AllAbove m k r
      → turn m key k ≡ child_0
      → list_has key r ≡ false
  unfolding list_has
  absent-above key k [] a e = refl
  absent-above key k (x ∷ r) a e = ground (
    arith,
    turn_trans m x k key (turn_flip m k x a.0) (turn_flip m key k e),
    turn_flip' m x key,
    absent-above key k r a.1 e,
  )

  pub has-left :
      (key k : Ptr) (r l : List Ptr)
      → AllAbove m k r
      → turn m key k ≡ child_0
      → list_has key (l ++ k ∷ r) ≡ list_has key l
  unfolding list_has
  has-left key k r [] a e = ground (arith, absent-above key k r a e)
  has-left key k r (x ∷ l) a e = ground (arith, has-left key k r l a e)
