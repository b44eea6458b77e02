-- ===== src/AvlTree/Search.antt =====
-- `avlSearch` on a sorted tree finds exactly the keys in it.
use charades.Prelude.{ℕ, ◌≡◌, refl, sym, ◌∙◌, inl, inr, Ptr, true, arith}
use charades.Event.{Events}
use charades.AvlTree.{AvlTree, empty, node, here, child_0, child_1, turn, search}
use charades.AvlTree.Lists.{to_list}
use charades.AvlTree.Order.{IsSorted}
use charades.AvlTree.SortedList.{list_has, Turn-cases, sorted-Split, has-here, has-left, has-right}

module _ (m : Events) (l r : AvlTree) (key k : Ptr) (h : ℕ) where
  pub search_here : turn m key k ≡ here → search m (node l k h r) key ≡ true
  unfolding search
  search_here e = ground arith

  pub search_0 : turn m key k ≡ child_0 → search m (node l k h r) key ≡ search m l key
  unfolding search
  search_0 e = ground arith

  pub search_1 : turn m key k ≡ child_1 → search m (node l k h r) key ≡ search m r key
  unfolding search
  search_1 e = ground arith

-- In a tree that is sorted by the keys of events, the search finds a key exactly if some event of the
-- tree has it.
pub search-list_has :
    (m : Events) (t : AvlTree) (key : Ptr)
    → IsSorted m (to_list t)
    → search m t key ≡ list_has m key (to_list t)
unfolding to_list
search-list_has m empty key s = unfold list_has search in refl
search-list_has m (node l k h r) key s =
    let i = sorted-Split m (to_list l) k (to_list r) s in
    elim (Turn-cases m (turn m key k)) [
      | inl e ↦ search_here m l r key k h e ∙ sym (has-here m key k (to_list r) (to_list l) e)
      | inr (inl e) ↦
          search_0 m l r key k h e
          ∙ search-list_has m l key i.left
          ∙ sym (has-left m key k (to_list r) (to_list l) i.above e)
      | inr (inr e) ↦
          search_1 m l r key k h e
          ∙ search-list_has m r key i.right
          ∙ sym (has-right m key k (to_list r) (to_list l) i.below e)
    ]
