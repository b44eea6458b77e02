-- ===== src/AvlTree/Exchange.antt =====
-- `avlInsertOrDelete`: it inserts a key that the tree does not hold, and deletes one that it does.
use charades.Prelude.{
  ℕ, ◌≡◌, sym, ◌∙◌, inl, inr, Ptr, true, false, arith, some, none, ◌==◌, if◌then◌else◌, subst,
}
use charades.Event.{Events}
use charades.AvlTree.{
  AvlTree, empty, node, Pool, here, child_0, child_1, turn, delete, insert_or_delete, search,
}
use charades.AvlTree.Lists.{to_list, to_list-node}
use charades.AvlTree.SortedList.{Turn-cases}
use charades.AvlTree.Search.{search_0, search_1}
use charades.AvlTree.Insert.{insert_tree, after_insert, insert-insert_tree}
use charades.AvlTree.Delete.{
  delete_tree, find, after_delete, AreFlagged, flagged-left, flagged-right,
}
use charades.AvlTree.DeleteTree.{delete-delete_tree}

-- Where the key is found, the result is that of avlDelete.
module _ (m : Events) (l r : AvlTree) (key k : Ptr) (h : ℕ) (p : Pool) where
  exchange_here :
      turn m key k ≡ here
      → delete m (node l k h r) key p
        ≡ some (
          find m (node l k h r) key,
          delete_tree m (node l k h r) key,
          after_delete p (find m (node l k h r) key),
        )
      → insert_or_delete m (node l k h r) key p
        ≡ some (
          some (find m (node l k h r) key),
          delete_tree m (node l k h r) key,
          after_delete p (find m (node l k h r) key),
        )
  unfolding insert_or_delete
  exchange_here e d = ground arith

  exchange_0 :
      turn m key k ≡ child_0
      → insert_or_delete m l key p
        ≡ some (some (find m l key), delete_tree m l key, after_delete p (find m l key))
      → insert_or_delete m (node l k h r) key p
        ≡ some (
          some (find m (node l k h r) key),
          delete_tree m (node l k h r) key,
          after_delete p (find m (node l k h r) key),
        )
  unfolding insert_or_delete find delete_tree
  exchange_0 e d = ground arith

  exchange_1 :
      turn m key k ≡ child_1
      → insert_or_delete m r key p
        ≡ some (some (find m r key), delete_tree m r key, after_delete p (find m r key))
      → insert_or_delete m (node l k h r) key p
        ≡ some (
          some (find m (node l k h r) key),
          delete_tree m (node l k h r) key,
          after_delete p (find m (node l k h r) key),
        )
  unfolding insert_or_delete find delete_tree
  exchange_1 e d = ground arith

pub exchange-found :
    (m : Events) (t : AvlTree) (key : Ptr) (p : Pool)
    → search m t key ≡ true
    → AreFlagged p (to_list t)
    → insert_or_delete m t key p
      ≡ some (some (find m t key), delete_tree m t key, after_delete p (find m t key))
exchange-found m empty key p s f = absurd (unfold search in cc)
exchange-found m (node l k h r) key p s f =
    let g = subst (AreFlagged p) (to_list-node l r k h) f in
    elim (Turn-cases m (turn m key k)) [
      | inl e ↦ exchange_here m l r key k h p e (delete-delete_tree m (node l k h r) key p s f)
      | inr (inl e) ↦ exchange_0 m l r key k h p e (
          exchange-found m l key p (sym (search_0 m l r key k h e) ∙ s)
            (flagged-left p (to_list l) k (to_list r) g))
      | inr (inr e) ↦ exchange_1 m l r key k h p e (
          exchange-found m r key p (sym (search_1 m l r key k h e) ∙ s)
            (flagged-right p (to_list l) k (to_list r) g))
    ]

-- Where it is not, the result is that of avlInsert.
pub exchange-absent :
    (m : Events) (t : AvlTree) (key : Ptr) (p : Pool)
    → search m t key ≡ false
    → insert_or_delete m t key p
      ≡ (if p.free == 0 then none else some (none, insert_tree m t key, after_insert p key))
unfolding insert_or_delete search insert_tree
exchange-absent m empty key p s = ground (arith, insert-insert_tree m empty key p)
exchange-absent m (node l k h r) key p s =
    ground (arith, exchange-absent m l key p, exchange-absent m r key p)
