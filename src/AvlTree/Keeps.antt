-- ===== src/AvlTree/Keeps.antt =====
-- Order and flags of the events of a list, kept by insertion and deletion.
use charades.Prelude.{◌≡◌, ◌≢◌, Ptr, true, arith, ◌∷◌, [], List}
use charades.Event.{Events}
use charades.AvlTree.{Pool, here, turn}
use charades.AvlTree.Order.{AllAbove, IsSorted, turn-same}
use charades.AvlTree.SortedList.{list_has, list_insert, list_delete}
use charades.AvlTree.Members.{list_find}
use charades.AvlTree.Insert.{after_insert}
use charades.AvlTree.Delete.{after_delete, AreFlagged}

module _ (m : Events) where
  pub flagged-insert :
      (p : Pool) (key : Ptr) (xs : List Ptr)
      → AreFlagged p xs
      → AreFlagged (after_insert p key) (list_insert m key xs)
  unfolding list_insert
  flagged-insert p key [] f = ground arith
  flagged-insert p key (x ∷ xs) f = ground (arith, flagged-insert p key xs f.1, still p key xs f.1)
    where
      still :
          (p : Pool) (key : Ptr) (xs : List Ptr)
          → AreFlagged p xs
          → AreFlagged (after_insert p key) xs
      still p key [] f = tt
      still p key (x ∷ xs) f = (ground arith, still p key xs f.1)

  delete-AllAbove :
      (x key : Ptr) (xs : List Ptr) → AllAbove m x xs → AllAbove m x (list_delete m key xs)
  unfolding list_delete
  delete-AllAbove x key [] a = tt
  delete-AllAbove x key (y ∷ ys) a = ground (arith, delete-AllAbove x key ys a.1)

  pub delete-IsSorted :
      (key : Ptr) (xs : List Ptr) → IsSorted m xs → IsSorted m (list_delete m key xs)
  unfolding list_delete
  delete-IsSorted key [] s = tt
  delete-IsSorted key (x ∷ xs) s =
      ground (arith, delete-IsSorted key xs s.1, delete-AllAbove x key xs s.0)

  -- No entry has the key.
  abbrev pub AllApart : Ptr → List Ptr → Type 0
  AllApart key [] = Unit {0}
  AllApart key (x ∷ xs) = (turn m key x ≢ here) × AllApart key xs

  above-AllApart :
      (key x : Ptr) (xs : List Ptr) → turn m key x ≡ here → AllAbove m x xs → AllApart key xs
  above-AllApart key x [] e a = tt
  above-AllApart key x (y ∷ ys) e a =
      (ground (arith, turn-same m key x y e), above-AllApart key x ys e a.1)

  -- One entry at most has the key, so none is left once it is taken out.
  delete-AllApart :
      (key : Ptr) (xs : List Ptr) → IsSorted m xs → AllApart key (list_delete m key xs)
  unfolding list_delete
  delete-AllApart key [] s = tt
  delete-AllApart key (x ∷ xs) s =
      ground (arith, delete-AllApart key xs s.1, above-AllApart key x xs)

  find_here :
      (key : Ptr) (xs : List Ptr)
      → list_has m key xs ≡ true
      → turn m key (list_find m key xs) ≡ here
  unfolding list_has list_find
  find_here key [] h = cc
  find_here key (x ∷ xs) h = ground (arith, find_here key xs)

  flagged-apart :
      (p : Pool) (key e : Ptr) (xs : List Ptr)
      → turn m key e ≡ here
      → AllApart key xs
      → AreFlagged p xs
      → AreFlagged (after_delete p e) xs
  flagged-apart p key e [] t a f = tt
  flagged-apart p key e (x ∷ xs) t a f =
      (ground (arith, apart key e x t a.0), flagged-apart p key e xs t a.1 f.1)
    where
      apart : (key e x : Ptr) → turn m key e ≡ here → turn m key x ≢ here → x ≢ e
      apart key e x t n = λ c. n (cc)

  flagged-part :
      (p : Pool) (key : Ptr) (xs : List Ptr) → AreFlagged p xs → AreFlagged p (list_delete m key xs)
  unfolding list_delete
  flagged-part p key [] f = tt
  flagged-part p key (x ∷ xs) f = ground (arith, flagged-part p key xs f.1)

  pub flagged-delete :
      (p : Pool) (key : Ptr) (xs : List Ptr)
      → IsSorted m xs
      → list_has m key xs ≡ true
      → AreFlagged p xs
      → AreFlagged (after_delete p (list_find m key xs)) (list_delete m key xs)
  flagged-delete p key xs s h f =
      flagged-apart p key (list_find m key xs) (list_delete m key xs) (find_here key xs h)
        (delete-AllApart key xs s) (flagged-part p key xs f)
