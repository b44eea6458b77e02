-- ===== src/AvlTree/Measured.antt =====
-- The height field of every node is right, as `avlSanityCheck` asserts, also after a deletion.
use charades.Prelude.{
  ℕ, ◌+◌, ◌<◌, ◌≡◌, refl, arith, Ptr, ltb, if◌then◌else◌, max, Bool, true, false,
}
use charades.Event.{Events}
use charades.AvlTree.{
  AvlTree, empty, node, get_height, fix_height, rotate_0, rotate_1, outer_0, outer_1, rebalance,
}
use charades.AvlTree.Delete.{delete_tree, rest_here, min_event, min_rest}
use charades.AvlTree.Insert.{insert_tree}

-- `avlSanityCheck`.
abbrev pub IsMeasured : AvlTree → Type 0
IsMeasured empty = Unit {0}
IsMeasured (node l k h r) =
    (h ≡ 1 + max (get_height l) (get_height r)) × IsMeasured l × IsMeasured r

-- The rotations, where the child that goes up is there.
rotate_0-IsMeasured :
    (a b c : AvlTree) (x y : Ptr) (i h : ℕ)
    → IsMeasured a
    → IsMeasured b
    → IsMeasured c
    → IsMeasured (rotate_0 (node (node a x i b) y h c))
unfolding rotate_0 fix_height get_height
rotate_0-IsMeasured a b c x y i h ma mb mc = ((refl, ma, (refl, mb, mc)))

rotate_1-IsMeasured :
    (a b c : AvlTree) (x y : Ptr) (i h : ℕ)
    → IsMeasured a
    → IsMeasured b
    → IsMeasured c
    → IsMeasured (rotate_1 (node a x h (node b y i c)))
unfolding rotate_1 fix_height get_height
rotate_1-IsMeasured a b c x y i h ma mb mc = (refl, (refl, ma, mb), mc)

double_0-IsMeasured :
    (a b c r : AvlTree) (x y k : Ptr) (i j h : ℕ)
    → IsMeasured a
    → IsMeasured b
    → IsMeasured c
    → IsMeasured r
    → IsMeasured (rotate_0 (node (rotate_1 (node a x i (node b y j c))) k h r))
unfolding rotate_0 rotate_1 fix_height get_height
double_0-IsMeasured a b c r x y k i j h ma mb mc mr = (refl, (refl, ma, mb), (refl, mc, mr))

double_1-IsMeasured :
    (l a b c : AvlTree) (k x y : Ptr) (h i j : ℕ)
    → IsMeasured l
    → IsMeasured a
    → IsMeasured b
    → IsMeasured c
    → IsMeasured (rotate_1 (node l k h (rotate_0 (node (node a x j b) y i c))))
unfolding rotate_0 rotate_1 fix_height get_height
double_1-IsMeasured l a b c k x y h i j ml ma mb mc = (refl, (refl, ml, ma), (refl, mb, mc))

fix_height-IsMeasured :
    (l r : AvlTree) (k : Ptr) → IsMeasured l → IsMeasured r → IsMeasured (fix_height l k r)
unfolding fix_height
fix_height-IsMeasured l r k ml mr = (refl, ml, mr)

pick : (t u : AvlTree) (b : Bool) → IsMeasured t → IsMeasured u → IsMeasured (if b then t else u)
pick t u true p q = p
pick t u false p q = q

pick_outer :
    (t : AvlTree) (b : Bool) (u : AvlTree)
    → IsMeasured t
    → b ≡ true
    → IsMeasured (if b then t else u)
pick_outer t true u p e = p
pick_outer t false u p e = absurd cc

ltb_positive : (a : ℕ) → 0 < a → ltb 0 a ≡ true
ltb_positive a p = ground arith

tall_positive : (a r i : ℕ) → i ≡ 1 + max a 0 → r + 1 < i → 0 < a
tall_positive a r i e t = omega arith

tall_positive' : (a r i : ℕ) → i ≡ 1 + max 0 a → r + 1 < i → 0 < a
tall_positive' a r i e t = omega arith

-- The two sides of avlRebalance, where a child is too tall.
tall_0 :
    (l r : AvlTree) (k : Ptr) (h : ℕ)
    → IsMeasured l
    → IsMeasured r
    → get_height r + 1 < get_height l
    → IsMeasured (if outer_0 l then rotate_0 (node l k h r) else rotate_0 (node (rotate_1 l) k h r))
unfolding get_height outer_0
tall_0 empty r k h ml mr t = absurd (omega arith)
tall_0 (node a x i empty) r k h ml mr t =
    pick_outer _ (ltb 0 (get_height a)) (rotate_0 (node (rotate_1 (node a x i empty)) k h r))
      (rotate_0-IsMeasured a empty r x k i h ml.1 ml.2 mr)
      (ltb_positive (get_height a) (tall_positive (get_height a) (get_height r) i ml.0 t))
tall_0 (node a x i (node b y j c)) r k h ml mr t =
    pick _ _ (ltb j (get_height a)) (rotate_0-IsMeasured a (node b y j c) r x k i h ml.1 ml.2 mr)
      (double_0-IsMeasured a b c r x y k i j h ml.1 ml.2.1 ml.2.2 mr)

tall_1 :
    (l r : AvlTree) (k : Ptr) (h : ℕ)
    → IsMeasured l
    → IsMeasured r
    → get_height l + 1 < get_height r
    → IsMeasured (if outer_1 r then rotate_1 (node l k h r) else rotate_1 (node l k h (rotate_0 r)))
unfolding get_height outer_1
tall_1 l empty k h ml mr t = absurd (omega arith)
tall_1 l (node empty y i c) k h ml mr t =
    pick_outer _ (ltb 0 (get_height c)) (rotate_1 (node l k h (rotate_0 (node empty y i c))))
      (rotate_1-IsMeasured l empty c k y i h ml mr.1 mr.2)
      (ltb_positive (get_height c) (tall_positive' (get_height c) (get_height l) i mr.0 t))
tall_1 l (node (node a x j b) y i c) k h ml mr t =
    pick _ _ (ltb j (get_height c)) (rotate_1-IsMeasured l (node a x j b) c k y i h ml mr.1 mr.2)
      (double_1-IsMeasured l a b c k x y h i j ml mr.1.1 mr.1.2 mr.2)

rebalance-IsMeasured :
    (l r : AvlTree) (k : Ptr) (h : ℕ)
    → IsMeasured l
    → IsMeasured r
    → IsMeasured (rebalance (node l k h r))
unfolding rebalance
rebalance-IsMeasured l r k h ml mr =
    ground (arith, tall_0 l r k h ml mr, tall_1 l r k h ml mr, fix_height-IsMeasured l r k ml mr)

rebalance-IsMeasured' : (t : AvlTree) → IsMeasured t → IsMeasured (rebalance t)
rebalance-IsMeasured' empty mt = unfold rebalance in tt
rebalance-IsMeasured' (node l k h r) mt = rebalance-IsMeasured l r k h mt.1 mt.2

min_rest-IsMeasured : (t : AvlTree) → IsMeasured t → IsMeasured (min_rest t)
unfolding min_rest
min_rest-IsMeasured empty mt = tt
min_rest-IsMeasured (node empty k h r) mt = rebalance-IsMeasured' r mt.2
min_rest-IsMeasured (node (node a x i b) k h r) mt =
    rebalance-IsMeasured (min_rest (node a x i b)) r k h (min_rest-IsMeasured (node a x i b) mt.1)
      mt.2

rest_here-IsMeasured :
    (l r : AvlTree) (h : ℕ) → IsMeasured l → IsMeasured r → IsMeasured (rest_here l h r)
unfolding rest_here
rest_here-IsMeasured l empty h ml mr = rebalance-IsMeasured' l ml
rest_here-IsMeasured l (node a x i b) h ml mr =
    rebalance-IsMeasured l (min_rest (node a x i b)) (min_event (node a x i b)) h ml
      (min_rest-IsMeasured (node a x i b) mr)

pub delete_tree-IsMeasured :
    (m : Events) (t : AvlTree) (key : Ptr) → IsMeasured t → IsMeasured (delete_tree m t key)
unfolding delete_tree
delete_tree-IsMeasured m empty key mt = tt
delete_tree-IsMeasured m (node l k h r) key mt = ground (
  arith,
  rest_here-IsMeasured l r h mt.1 mt.2,
  rebalance-IsMeasured (delete_tree m l key) r k h (delete_tree-IsMeasured m l key mt.1) mt.2,
  rebalance-IsMeasured l (delete_tree m r key) k h mt.1 (delete_tree-IsMeasured m r key mt.2),
)

pub insert_tree-IsMeasured :
    (m : Events) (t : AvlTree) (key : Ptr) → IsMeasured t → IsMeasured (insert_tree m t key)
unfolding insert_tree
insert_tree-IsMeasured m empty key mt = unfold get_height in (refl, tt, tt)
insert_tree-IsMeasured m (node l k h r) key mt = ground (
  arith,
  rebalance-IsMeasured (insert_tree m l key) r k h (insert_tree-IsMeasured m l key mt.1) mt.2,
  rebalance-IsMeasured l (insert_tree m r key) k h mt.1 (insert_tree-IsMeasured m r key mt.2),
)
