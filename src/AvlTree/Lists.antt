-- ===== src/AvlTree/Lists.antt =====
-- The events of a tree from left to right; rebalancing keeps them.
use mathlib.Core.List.{append_assoc}
use charades.Prelude.{ℕ, ◌≡◌, refl, ap, ◌∙◌, Ptr, List, [], ◌∷◌, ◌++◌, arith}
use charades.AvlTree.{AvlTree, empty, node, fix_height, rotate_0, rotate_1, rebalance}

unfoldable pub to_list : AvlTree → List Ptr
to_list empty = []
to_list (node l k h r) = to_list l ++ k ∷ to_list r

pub to_list-node :
    (l r : AvlTree) (k : Ptr) (h : ℕ) → to_list (node l k h r) ≡ to_list l ++ k ∷ to_list r
unfolding to_list
to_list-node l r k h = refl

to_list-rotate_0 : (t : AvlTree) → to_list (rotate_0 t) ≡ to_list t
unfolding to_list rotate_0
to_list-rotate_0 empty = refl
to_list-rotate_0 (node empty y h c) = refl
to_list-rotate_0 (node (node a x i b) y h c) = simp append_assoc

to_list-rotate_1 : (t : AvlTree) → to_list (rotate_1 t) ≡ to_list t
unfolding to_list rotate_1
to_list-rotate_1 empty = refl
to_list-rotate_1 (node a x h empty) = refl
to_list-rotate_1 (node a x h (node b y i c)) = simp append_assoc

to_list-double_0 :
    (l r : AvlTree) (k : Ptr) (h : ℕ)
    → to_list (rotate_0 (node (rotate_1 l) k h r)) ≡ to_list (node l k h r)
to_list-double_0 l r k h =
    to_list-rotate_0 (node (rotate_1 l) k h r)
    ∙ (unfold to_list in ap (λ xs. xs ++ k ∷ to_list r) (to_list-rotate_1 l))

to_list-double_1 :
    (l r : AvlTree) (k : Ptr) (h : ℕ)
    → to_list (rotate_1 (node l k h (rotate_0 r))) ≡ to_list (node l k h r)
to_list-double_1 l r k h =
    to_list-rotate_1 (node l k h (rotate_0 r))
    ∙ (unfold to_list in ap (λ ys. to_list l ++ k ∷ ys) (to_list-rotate_0 r))

pub to_list-rebalance : (t : AvlTree) → to_list (rebalance t) ≡ to_list t
unfolding rebalance
to_list-rebalance empty = refl
to_list-rebalance (node l k h r) = ground (
  arith,
  to_list-rotate_0 (node l k h r),
  to_list-rotate_1 (node l k h r),
  to_list-double_0 l r k h,
  to_list-double_1 l r k h,
  fixed l k h r,
)
  where
    fixed :
        (l : AvlTree) (k : Ptr) (h : ℕ) (r : AvlTree)
        → to_list (fix_height l k r) ≡ to_list (node l k h r)
    fixed l k h r = unfold to_list fix_height in refl
