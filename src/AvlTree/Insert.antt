-- ===== src/AvlTree/Insert.antt =====
-- `avlInsert`.
use charades.Prelude.{
  ℕ, ◌+◌, ◌-◌, ◌≤◌, ◌≡◌, ◌≢◌, refl, sym, ap, ◌∙◌, ◌⊎◌, inl, inr, Ptr, true, arith, ◌++◌, ◌∷◌, write,
  ◌==◌, if◌then◌else◌, some, none, fun_ext,
}
use charades.Event.{Events}
use charades.AvlTree.{
  AvlTree, empty, node, Pool, Turn, here, child_0, child_1, turn, insert, rebalance, get_height,
  avl_alloc, set_flag,
}
use charades.AvlTree.Lists.{to_list, to_list-rebalance}
use charades.AvlTree.Order.{IsSorted}
use charades.AvlTree.SortedList.{list_insert, sorted-Split, insert-left, insert-right}
use charades.AvlTree.Balance.{IsBalanced, Leans, rebalance-Rebalanced, tall_or_level}

-- The tree that an insertion makes, for itself.
unfoldable pub insert_tree : Events → AvlTree → Ptr → AvlTree
insert_tree m empty key = node empty key 1 empty
insert_tree m (node l k h r) key = elim (turn m key k) [
  | child_1 ↦ rebalance (node l k h (insert_tree m r key))
  | _ ↦ rebalance (node (insert_tree m l key) k h r)
]

-- The pool after an insertion.
abbrev pub after_insert : Pool → Ptr → Pool
after_insert p key = record { in_tree = write p.in_tree key true; free = p.free - 1 }

set_flag_twice :
    (p : Pool) (key : Ptr) → after_insert (set_flag p key true) key ≡ after_insert p key
set_flag_twice p key =
    ap (λ f. record { in_tree = f; free = p.free - 1 }) (fun_ext λ u. ground arith)

pub insert-insert_tree :
    (m : Events) (t : AvlTree) (key : Ptr) (p : Pool)
    → insert m t key p
      ≡ (if p.free == 0 then none else some (insert_tree m t key, after_insert p key))
unfolding insert insert_tree avl_alloc
insert-insert_tree m empty key p = ground arith
insert-insert_tree m (node l k h r) key p = ground (
  arith,
  insert-insert_tree m l key (set_flag p key true),
  insert-insert_tree m r key (set_flag p key true),
  set_flag_twice p key,
)

module _ (m : Events) (l r : AvlTree) (key k : Ptr) (h : ℕ) where
  insert_low :
      turn m key k ≢ child_1
      → insert_tree m (node l k h r) key ≡ rebalance (node (insert_tree m l key) k h r)
  unfolding insert_tree
  insert_low e = ground arith

  insert_high :
      turn m key k ≡ child_1
      → insert_tree m (node l k h r) key ≡ rebalance (node l k h (insert_tree m r key))
  unfolding insert_tree
  insert_high e = ground arith

eq_or_ne : (a b : ℕ) → (a ≡ b) ⊎ (a ≢ b)
eq_or_ne a b = omega arith

turn_sides : (t : Turn) → (t ≡ child_1) ⊎ (t ≢ child_1)
turn_sides here = inr (λ e. cc)
turn_sides child_0 = inr (λ e. cc)
turn_sides child_1 = inl refl

-- A sorted tree stands for a sorted list with the key put in its place.
pub to_list-insert_tree :
    (m : Events) (t : AvlTree) (key : Ptr)
    → IsSorted m (to_list t)
    → to_list (insert_tree m t key) ≡ list_insert m key (to_list t)
unfolding to_list
to_list-insert_tree m empty key s = unfold list_insert insert_tree in refl
to_list-insert_tree m (node l k h r) key s =
    let i = sorted-Split m (to_list l) k (to_list r) s in
    elim (turn_sides (turn m key k)) [
      | inr e ↦
          ap to_list (insert_low m l r key k h e)
          ∙ to_list-rebalance (node (insert_tree m l key) k h r)
          ∙ ap (λ xs. xs ++ k ∷ to_list r) (to_list-insert_tree m l key i.left)
          ∙ sym (insert-left m key k (to_list r) (to_list l) e)
      | inl e ↦
          ap to_list (insert_high m l r key k h e)
          ∙ to_list-rebalance (node l k h (insert_tree m r key))
          ∙ ap (λ xs. to_list l ++ k ∷ xs) (to_list-insert_tree m r key i.right)
          ∙ sym (insert-right m key k (to_list r) (to_list l) i.below e)
    ]

-- A tree that grew by a level has children of different heights, unless it was empty.
abbrev pub Grown : AvlTree → AvlTree → Type 0
Grown t t' =
    IsBalanced t'
    × (get_height t ≤ get_height t')
    × (get_height t' ≤ get_height t + 1)
    × ((get_height t ≡ 0) ⊎ (get_height t' ≡ get_height t) ⊎ Leans t')

-- An insertion that keeps the height or grows by one, put back under a node.
Grown-low :
    (l l' r : AvlTree) (k : Ptr) (h : ℕ)
    → IsBalanced (node l k h r)
    → Grown l l'
    → Grown (node l k h r) (rebalance (node l' k h r))
unfolding get_height
Grown-low l l' r k h (e, p, q, bl, br) (b, ge, le, cases) =
    let (bal, tall, low, level) =
      rebalance-Rebalanced l' r k h b br (omega arith) (omega arith) (λ e. ground arith)
        (λ e. absurd (omega arith)) in
    elim (tall_or_level (get_height l') (get_height r) (omega arith) (omega arith)) [
      | inl c ↦ let t = tall c in (bal, omega arith, omega arith, inr (inl (omega arith)))
      | inr (inl c) ↦ absurd (omega arith)
      | inr (inr (c, d)) ↦
          let (t, n) = level c d in
          elim (eq_or_ne (get_height l') (get_height r)) [
            | inl f ↦ (bal, omega arith, omega arith, inr (inl (omega arith)))
            | inr f ↦ (bal, omega arith, omega arith, inr (inr (n f)))
          ]
    ]

Grown-high :
    (l r r' : AvlTree) (k : Ptr) (h : ℕ)
    → IsBalanced (node l k h r)
    → Grown r r'
    → Grown (node l k h r) (rebalance (node l k h r'))
unfolding get_height
Grown-high l r r' k h (e, p, q, bl, br) (b, ge, le, cases) =
    let (bal, low, tall, level) =
      rebalance-Rebalanced l r' k h bl b (omega arith) (omega arith) (λ e. absurd (omega arith))
        (λ e. ground arith) in
    elim (tall_or_level (get_height l) (get_height r') (omega arith) (omega arith)) [
      | inl c ↦ absurd (omega arith)
      | inr (inl c) ↦ let t = tall c in (bal, omega arith, omega arith, inr (inl (omega arith)))
      | inr (inr (c, d)) ↦
          let (t, n) = level c d in
          elim (eq_or_ne (get_height l) (get_height r')) [
            | inl f ↦ (bal, omega arith, omega arith, inr (inl (omega arith)))
            | inr f ↦ (bal, omega arith, omega arith, inr (inr (n f)))
          ]
    ]

pub insert-Grown :
    (m : Events) (t : AvlTree) (key : Ptr) → IsBalanced t → Grown t (insert_tree m t key)
insert-Grown m empty key b = unfold insert_tree get_height in ground arith
insert-Grown m (node l k h r) key b = elim (turn_sides (turn m key k)) [
  | inr e ↦
      rw (insert_low m l r key k h e)
        (Grown-low l (insert_tree m l key) r k h b (insert-Grown m l key b.3))
  | inl e ↦
      rw (insert_high m l r key k h e)
        (Grown-high l r (insert_tree m r key) k h b (insert-Grown m r key b.4))
]
