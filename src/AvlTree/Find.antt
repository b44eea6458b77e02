-- ===== src/AvlTree/Find.antt =====
-- The event that `avlDelete` returns is the entry of the list with the key.
use charades.Prelude.{ℕ, ◌≡◌, sym, ◌∙◌, inl, inr, Ptr, true, arith}
use charades.Event.{Events}
use charades.AvlTree.{AvlTree, empty, node, here, child_0, child_1, turn, search}
use charades.AvlTree.Lists.{to_list}
use charades.AvlTree.Order.{IsSorted}
use charades.AvlTree.SortedList.{Turn-cases, sorted-Split}
use charades.AvlTree.Search.{search_0, search_1, search-list_has}
use charades.AvlTree.Delete.{find}
use charades.AvlTree.Members.{list_find, find_list-left, find_list-here, find_list-right}

module _ (m : Events) (l r : AvlTree) (key k : Ptr) (h : ℕ) where
  find_here : turn m key k ≡ here → find m (node l k h r) key ≡ k
  unfolding find
  find_here e = ground arith

  find_0 : turn m key k ≡ child_0 → find m (node l k h r) key ≡ find m l key
  unfolding find
  find_0 e = ground arith

  find_1 : turn m key k ≡ child_1 → find m (node l k h r) key ≡ find m r key
  unfolding find
  find_1 e = ground arith

pub find-list_find :
    (m : Events) (t : AvlTree) (key : Ptr)
    → IsSorted m (to_list t)
    → search m t key ≡ true
    → find m t key ≡ list_find m key (to_list t)
unfolding to_list
find-list_find m empty key s f = absurd (unfold search in cc)
find-list_find m (node l k h r) key s f =
    let i = sorted-Split m (to_list l) k (to_list r) s in
    elim (Turn-cases m (turn m key k)) [
      | inl e ↦
          find_here m l r key k h e ∙ sym (find_list-here m key k (to_list r) (to_list l) i.below e)
      | inr (inl e) ↦
          let g = sym (search_0 m l r key k h e) ∙ f in
          find_0 m l r key k h e
          ∙ find-list_find m l key i.left g
          ∙ sym (
              find_list-left m key k (to_list r) (to_list l)
                (sym (search-list_has m l key i.left) ∙ g))
      | inr (inr e) ↦
          find_1 m l r key k h e
          ∙ find-list_find m r key i.right (sym (search_1 m l r key k h e) ∙ f)
          ∙ sym (find_list-right m key k (to_list r) (to_list l) i.below e)
    ]
