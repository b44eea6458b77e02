-- ===== src/AvlTree/Delete.antt =====
-- `avlDeleteMin` and `avlDelete`.
use charades.Prelude.{
  ℕ, ◌+◌, ◌≡◌, refl, sym, ap, ◌∙◌, Ptr, true, false, arith, ◌++◌, ◌∷◌, [], List, write, some,
  fun_ext, subst,
}
use charades.Event.{Events}
use charades.AvlTree.{
  AvlTree, empty, node, Pool, here, child_0, child_1, turn, delete_here, delete_min, rebalance,
  set_flag, avl_free,
}
use charades.AvlTree.Lists.{to_list, to_list-node, to_list-rebalance}

-- The lowest event of a tree, and the rest.
unfoldable pub min_event : AvlTree → Ptr
min_event empty = 0
min_event (node empty k h r) = k
min_event (node (node a x i b) k h r) = min_event (node a x i b)

unfoldable pub min_rest : AvlTree → AvlTree
min_rest empty = empty
min_rest (node empty k h r) = rebalance r
min_rest (node (node a x i b) k h r) = rebalance (node (min_rest (node a x i b)) k h r)

-- The pool after an event is taken out.
abbrev pub after_delete : Pool → Ptr → Pool
after_delete p e = record { in_tree = write p.in_tree e false; free = p.free + 1 }

pub set_flag_again : (p : Pool) (e : Ptr) → set_flag (after_delete p e) e false ≡ after_delete p e
set_flag_again p e = ap (λ f. record { in_tree = f; free = p.free + 1 }) (fun_ext λ u. ground arith)

pub delete_min_lem :
    (l r : AvlTree) (k : Ptr) (h : ℕ) (p : Pool)
    → delete_min (node l k h r) p
      ≡ some (
        min_event (node l k h r),
        min_rest (node l k h r),
        after_delete p (min_event (node l k h r)),
      )
unfolding delete_min min_event min_rest avl_free
delete_min_lem empty r k h p = refl
delete_min_lem (node a x i b) r k h p = rw (delete_min_lem a b x i p) (
    ap (λ q. some (min_event (node a x i b), rebalance (node (min_rest (node a x i b)) k h r), q))
      (set_flag_again p (min_event (node a x i b))))

-- The lowest event is the first of the list.
pub to_list-min_rest :
    (l r : AvlTree) (k : Ptr) (h : ℕ)
    → to_list (node l k h r) ≡ min_event (node l k h r) ∷ to_list (min_rest (node l k h r))
unfolding min_event min_rest
to_list-min_rest empty r k h = unfold to_list in ap (λ xs. k ∷ xs) (sym (to_list-rebalance r))
to_list-min_rest (node a x i b) r k h =
    to_list-node (node a x i b) r k h
    ∙ ap (λ xs. xs ++ k ∷ to_list r) (to_list-min_rest a b x i)
    ∙ ap (λ xs. min_event (node a x i b) ∷ xs)
        (sym (to_list-node (min_rest (node a x i b)) r k h)
          ∙ sym (to_list-rebalance (node (min_rest (node a x i b)) k h r)))

-- The tree that a deletion leaves, and the event that it returns.
unfoldable pub rest_here : AvlTree → ℕ → AvlTree → AvlTree
rest_here l h empty = rebalance l
rest_here l h (node a x i b) =
    rebalance (node l (min_event (node a x i b)) h (min_rest (node a x i b)))

unfoldable pub delete_tree : Events → AvlTree → Ptr → AvlTree
delete_tree m empty key = empty
delete_tree m (node l k h r) key = elim (turn m key k) [
  | here ↦ rest_here l h r
  | child_0 ↦ rebalance (node (delete_tree m l key) k h r)
  | child_1 ↦ rebalance (node l k h (delete_tree m r key))
]

unfoldable pub find : Events → AvlTree → Ptr → Ptr
find m empty key = 0
find m (node l k h r) key = elim (turn m key k) [
  | here ↦ k
  | child_0 ↦ find m l key
  | child_1 ↦ find m r key
]

-- All events of the list have their flag.
abbrev pub AreFlagged : Pool → List Ptr → Type 0
AreFlagged p [] = Unit {0}
AreFlagged p (x ∷ xs) = (p.in_tree x ≡ true) × AreFlagged p xs

pub flagged-left :
    (p : Pool) (xs : List Ptr) (k : Ptr) (ys : List Ptr)
    → AreFlagged p (xs ++ k ∷ ys)
    → AreFlagged p xs
flagged-left p [] k ys f = tt
flagged-left p (x ∷ xs) k ys f = (f.0, flagged-left p xs k ys f.1)

pub flagged-right :
    (p : Pool) (xs : List Ptr) (k : Ptr) (ys : List Ptr)
    → AreFlagged p (xs ++ k ∷ ys)
    → AreFlagged p ys
flagged-right p [] k ys f = f.1
flagged-right p (x ∷ xs) k ys f = flagged-right p xs k ys f.1

reflag :
    (p : Pool) (e k : Ptr)
    → p.in_tree e ≡ true
    → set_flag (set_flag (after_delete p e) e true) k false ≡ after_delete p k
reflag p e k t = ap (λ f. record { in_tree = f; free = p.free + 1 }) (fun_ext λ u. ground arith)

pub delete_here_lem :
    (m : Events) (l r : AvlTree) (k : Ptr) (h : ℕ) (p : Pool)
    → AreFlagged p (to_list r)
    → delete_here m l k h r p ≡ some (k, rest_here l h r, after_delete p k)
unfolding delete_here rest_here avl_free
delete_here_lem m l empty k h p f = refl
delete_here_lem m l (node a x i b) k h p f = rw (delete_min_lem a b x i p) (
    ap (λ q. some (k, rebalance (node l (min_event (node a x i b)) h (min_rest (node a x i b))), q))
      (reflag p (min_event (node a x i b)) k (subst (AreFlagged p) (to_list-min_rest a b x i) f).0))
