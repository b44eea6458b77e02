-- ===== src/AvlTree/Promise.antt =====
-- What the operations promise of the sorted list of events that a tree stands for.
use charades.Prelude.{
  ℕ, ◌+◌, ◌<◌, ◌≤◌, ◌≡◌, refl, sym, ◌∙◌, Ptr, true, false, arith, write, ◌==◌, if◌then◌else◌, some,
  none, subst,
}
use charades.Event.{Events}
use charades.AvlTree.{AvlTree, node, Pool, insert, delete, get_height, rebalance}
use charades.AvlTree.Lists.{to_list, to_list-rebalance}
use charades.AvlTree.Order.{IsSorted}
use charades.AvlTree.SortedList.{list_has, list_insert, list_delete}
use charades.AvlTree.Balance.{IsBalanced, Leans, rebalance-Rebalanced}
use charades.AvlTree.Search.{search-list_has}
use charades.AvlTree.Insert.{
  insert_tree, after_insert, insert-insert_tree, to_list-insert_tree, insert-Grown,
}
use charades.AvlTree.Delete.{delete_tree, find, after_delete, AreFlagged}
use charades.AvlTree.DeleteTree.{delete-delete_tree, delete-absent, to_list-delete_tree}
use charades.AvlTree.Find.{find-list_find}
use charades.AvlTree.Members.{list_find, insert-IsSorted}
use charades.AvlTree.Keeps.{flagged-insert, delete-IsSorted, flagged-delete}
use charades.AvlTree.Measured.{IsMeasured, delete_tree-IsMeasured, insert_tree-IsMeasured}

-- A tree in order, whose heights are right and whose events have their flag.
abbrev pub IsOrdered : Events → Pool → AvlTree → Type 0
IsOrdered m p t = IsSorted m (to_list t) × IsMeasured t × AreFlagged p (to_list t)

-- An insertion of `key` gives a tree and a pool.
pub record Inserted (m : Events) (t : AvlTree) (key : Ptr) (p : Pool) (t' : AvlTree) (p' : Pool)
    : Type 0 where
  pub entries : to_list t' ≡ list_insert m key (to_list t)
  pub ordered : IsOrdered m p' t'
  pub flags : p'.in_tree ≡ write p.in_tree key true
  pub spent : p'.free + 1 ≡ p.free

-- A deletion of `key` gives an event, a tree and a pool.
pub record Deleted (m : Events) (t : AvlTree) (key : Ptr) (p : Pool) (e : Ptr) (t' : AvlTree)
    (p' : Pool) : Type 0 where
  pub event : e ≡ list_find m key (to_list t)
  pub entries : to_list t' ≡ list_delete m key (to_list t)
  pub ordered : IsOrdered m p' t'
  pub flags : p'.in_tree ≡ write p.in_tree e false
  pub freed : p'.free ≡ p.free + 1

module _ (m : Events) (t : AvlTree) (key : Ptr) (p : Pool) (o : IsOrdered m p t) where
  pub inserted :
      list_has m key (to_list t) ≡ false
      → 0 < p.free
      → Inserted m t key p (insert_tree m t key) (after_insert p key)
  inserted h f =
      let e = to_list-insert_tree m t key o.0 in
      record {
        entries = e;
        ordered = (
          subst (IsSorted m) (sym e) (insert-IsSorted m key (to_list t) o.0 h),
          insert_tree-IsMeasured m t key o.1,
          subst (AreFlagged (after_insert p key)) (sym e) (flagged-insert m p key (to_list t) o.2),
        );
        flags = refl;
        spent = omega arith;
      }

  pub deleted :
      list_has m key (to_list t) ≡ true
      → Deleted m t key p (find m t key) (delete_tree m t key) (after_delete p (find m t key))
  deleted h =
      let s = search-list_has m t key o.0 ∙ h in
      let e = to_list-delete_tree m t key o.0 s in
      let f = find-list_find m t key o.0 s in
      record {
        event = f;
        entries = e;
        ordered = (
          subst (IsSorted m) (sym e) (delete-IsSorted m key (to_list t) o.0),
          delete_tree-IsMeasured m t key o.1,
          subst (AreFlagged (after_delete p (find m t key))) (sym e) (
              subst (λ u. AreFlagged (after_delete p u) (list_delete m key (to_list t))) (sym f)
                (flagged-delete m p key (to_list t) o.0 h o.2)),
        );
        flags = refl;
        freed = refl;
      }

pub positive_free {ℓ} : {A : Type ℓ} (n : ℕ) (a b : A) → 0 < n → (if n == 0 then a else b) ≡ b
positive_free n a b f = ground arith

-- In an ordered tree that does not hold the key of the event, and with a free node left, the insertion
-- gives an ordered tree that stands for the list with the event in its place, sets the flag of that
-- event alone, and spends one node.
pub insert-Inserted :
    (m : Events) (t : AvlTree) (key : Ptr) (p : Pool)
    → IsOrdered m p t
    → list_has m key (to_list t) ≡ false
    → 0 < p.free
    → (r : AvlTree × Pool) × (insert m t key p ≡ some r) × Inserted m t key p r.0 r.1
insert-Inserted m t key p o h f = (
  (insert_tree m t key, after_insert p key),
  insert-insert_tree m t key p
      ∙ positive_free p.free none (some (insert_tree m t key, after_insert p key)) f,
  inserted m t key p o h f,
)

-- In a balanced tree, and with a free node left, the insertion gives a balanced tree, of the same height
-- or one level more.
pub insert-IsBalanced :
    (m : Events) (t : AvlTree) (key : Ptr) (p : Pool)
    → IsBalanced t
    → 0 < p.free
    → (r : AvlTree × Pool) × (insert m t key p ≡ some r)
      × IsBalanced r.0
      × (get_height t ≤ get_height r.0)
      × (get_height r.0 ≤ get_height t + 1)
insert-IsBalanced m t key p b f =
    let g = insert-Grown m t key b in
    (
      (insert_tree m t key, after_insert p key),
      insert-insert_tree m t key p
          ∙ positive_free p.free none (some (insert_tree m t key, after_insert p key)) f,
      g.0,
      g.1,
      g.2,
    )

-- A node whose recorded children are balanced and differ by two levels at most is balanced by
-- avlRebalance, and keeps its events in their order, if a child that is two levels taller than the
-- other has children of different heights.
pub rebalance-IsBalanced :
    (l r : AvlTree) (k : Ptr) (h : ℕ)
    → IsBalanced l
    → IsBalanced r
    → get_height l ≤ get_height r + 2
    → get_height r ≤ get_height l + 2
    → (get_height l ≡ get_height r + 2 → Leans l)
    → (get_height r ≡ get_height l + 2 → Leans r)
    → IsBalanced (rebalance (node l k h r))
      × (to_list (rebalance (node l k h r)) ≡ to_list (node l k h r))
rebalance-IsBalanced l r k h bl br p q nl nr =
    ((rebalance-Rebalanced l r k h bl br p q nl nr).0, to_list-rebalance (node l k h r))

-- In an ordered tree that holds the key, the deletion returns the event of the tree with that key,
-- gives an ordered tree that stands for the list without it, clears its flag alone, and gives one
-- node back.
pub delete-Deleted :
    (m : Events) (t : AvlTree) (key : Ptr) (p : Pool)
    → IsOrdered m p t
    → list_has m key (to_list t) ≡ true
    → (r : Ptr × AvlTree × Pool) × (delete m t key p ≡ some r) × Deleted m t key p r.0 r.1 r.2
delete-Deleted m t key p o h = (
  (find m t key, delete_tree m t key, after_delete p (find m t key)),
  delete-delete_tree m t key p (search-list_has m t key o.0 ∙ h) o.2,
  deleted m t key p o h,
)

-- In a sorted tree that does not hold the key, avlDelete ends at a null pointer.
pub delete-missing :
    (m : Events) (t : AvlTree) (key : Ptr) (p : Pool)
    → IsSorted m (to_list t)
    → list_has m key (to_list t) ≡ false
    → delete m t key p ≡ none
delete-missing m t key p s h = delete-absent m t key p (search-list_has m t key s ∙ h)
