-- ===== src/AvlTree/DeleteTree.antt =====
-- What `avlDelete` returns and leaves in a sorted tree, and that it refuses a key that is absent.
use charades.Prelude.{
  ℕ, ◌≡◌, refl, sym, ap, ◌∙◌, inl, inr, Ptr, true, false, arith, ◌++◌, ◌∷◌, some, none, subst,
}
use mathlib.Core.List.{append-nil}
use charades.Event.{Events}
use charades.AvlTree.{
  AvlTree, empty, node, Pool, here, child_0, child_1, turn, delete, rebalance, search,
}
use charades.AvlTree.Lists.{to_list, to_list-node, to_list-rebalance}
use charades.AvlTree.Order.{IsSorted}
use charades.AvlTree.Search.{search_0, search_1, search-list_has}
use charades.AvlTree.SortedList.{
  list_delete, Turn-cases, sorted-Split, delete-here, delete-left, delete-right,
}
use charades.AvlTree.Delete.{
  delete_tree, find, rest_here, after_delete, set_flag_again, AreFlagged, flagged-left,
  flagged-right, delete_here_lem, to_list-min_rest, min_event, min_rest,
}

module _ (m : Events) (l r : AvlTree) (key k : Ptr) (h : ℕ) where
  tree_here : turn m key k ≡ here → delete_tree m (node l k h r) key ≡ rest_here l h r
  unfolding delete_tree
  tree_here e = ground arith

  tree_0 :
      turn m key k ≡ child_0
      → delete_tree m (node l k h r) key ≡ rebalance (node (delete_tree m l key) k h r)
  unfolding delete_tree
  tree_0 e = ground arith

  tree_1 :
      turn m key k ≡ child_1
      → delete_tree m (node l k h r) key ≡ rebalance (node l k h (delete_tree m r key))
  unfolding delete_tree
  tree_1 e = ground arith

  delete_at_here :
      (p : Pool)
      → turn m key k ≡ here
      → AreFlagged p (to_list r)
      → delete m (node l k h r) key p
        ≡ some (
          find m (node l k h r) key,
          delete_tree m (node l k h r) key,
          after_delete p (find m (node l k h r) key),
        )
  unfolding delete delete_tree find
  delete_at_here p e f = ground (arith, delete_here_lem m l r k h p f)

  delete_at_0 :
      (p : Pool)
      → turn m key k ≡ child_0
      → delete m l key p ≡ some (find m l key, delete_tree m l key, after_delete p (find m l key))
      → delete m (node l k h r) key p
        ≡ some (
          find m (node l k h r) key,
          delete_tree m (node l k h r) key,
          after_delete p (find m (node l k h r) key),
        )
  unfolding delete delete_tree find
  delete_at_0 p e d = ground (arith, set_flag_again p (find m l key))

  delete_at_1 :
      (p : Pool)
      → turn m key k ≡ child_1
      → delete m r key p ≡ some (find m r key, delete_tree m r key, after_delete p (find m r key))
      → delete m (node l k h r) key p
        ≡ some (
          find m (node l k h r) key,
          delete_tree m (node l k h r) key,
          after_delete p (find m (node l k h r) key),
        )
  unfolding delete delete_tree find
  delete_at_1 p e d = ground (arith, set_flag_again p (find m r key))

pub delete-delete_tree :
    (m : Events) (t : AvlTree) (key : Ptr) (p : Pool)
    → search m t key ≡ true
    → AreFlagged p (to_list t)
    → delete m t key p ≡ some (find m t key, delete_tree m t key, after_delete p (find m t key))
delete-delete_tree m empty key p s f = absurd (unfold search in cc)
delete-delete_tree m (node l k h r) key p s f =
    let g = subst (AreFlagged p) (to_list-node l r k h) f in
    elim (Turn-cases m (turn m key k)) [
      | inl e ↦ delete_at_here m l r key k h p e (flagged-right p (to_list l) k (to_list r) g)
      | inr (inl e) ↦ delete_at_0 m l r key k h p e (
          delete-delete_tree m l key p (sym (search_0 m l r key k h e) ∙ s)
            (flagged-left p (to_list l) k (to_list r) g))
      | inr (inr e) ↦ delete_at_1 m l r key k h p e (
          delete-delete_tree m r key p (sym (search_1 m l r key k h e) ∙ s)
            (flagged-right p (to_list l) k (to_list r) g))
    ]

-- Where the search does not find the key, avlDelete ends at a null pointer.
pub delete-absent :
    (m : Events) (t : AvlTree) (key : Ptr) (p : Pool)
    → search m t key ≡ false
    → delete m t key p ≡ none
unfolding delete search
delete-absent m empty key p s = refl
delete-absent m (node l k h r) key p s =
    ground (arith, delete-absent m l key p, delete-absent m r key p)

to_list-rest_here : (l r : AvlTree) (h : ℕ) → to_list (rest_here l h r) ≡ to_list l ++ to_list r
unfolding rest_here
to_list-rest_here l empty h = to_list-rebalance l ∙ (unfold to_list in sym (append-nil (to_list l)))
to_list-rest_here l (node a x i b) h =
    to_list-rebalance (node l (min_event (node a x i b)) h (min_rest (node a x i b)))
    ∙ to_list-node l (min_rest (node a x i b)) (min_event (node a x i b)) h
    ∙ ap (λ xs. to_list l ++ xs) (sym (to_list-min_rest a b x i))

pub to_list-delete_tree :
    (m : Events) (t : AvlTree) (key : Ptr)
    → IsSorted m (to_list t)
    → search m t key ≡ true
    → to_list (delete_tree m t key) ≡ list_delete m key (to_list t)
unfolding to_list
to_list-delete_tree m empty key s f = absurd (unfold search in cc)
to_list-delete_tree m (node l k h r) key s f =
    let i = sorted-Split m (to_list l) k (to_list r) s in
    elim (Turn-cases m (turn m key k)) [
      | inl e ↦
          ap to_list (tree_here m l r key k h e)
          ∙ to_list-rest_here l r h
          ∙ sym (delete-here m key k (to_list r) (to_list l) i.below e)
      | inr (inl e) ↦
          let g = sym (search_0 m l r key k h e) ∙ f in
          ap to_list (tree_0 m l r key k h e)
          ∙ to_list-rebalance (node (delete_tree m l key) k h r)
          ∙ ap (λ xs. xs ++ k ∷ to_list r) (to_list-delete_tree m l key i.left g)
          ∙ sym (
              delete-left m key k (to_list r) (to_list l)
                (sym (search-list_has m l key i.left) ∙ g))
      | inr (inr e) ↦
          let g = sym (search_1 m l r key k h e) ∙ f in
          ap to_list (tree_1 m l r key k h e)
          ∙ to_list-rebalance (node l k h (delete_tree m r key))
          ∙ ap (λ xs. to_list l ++ k ∷ xs) (to_list-delete_tree m r key i.right g)
          ∙ sym (delete-right m key k (to_list r) (to_list l) i.below e)
    ]
