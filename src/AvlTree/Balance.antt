-- ===== src/AvlTree/Balance.antt =====
-- Balance: heights are recorded, and the heights of the children of a node differ by one at most.
use charades.Prelude.{ℕ, ◌+◌, ◌≤◌, ◌<◌, ◌≡◌, ◌≢◌, refl, ◌⊎◌, inl, inr, arith, Ptr, max, true, false}
use charades.AvlTree.{
  AvlTree, empty, node, get_height, fix_height, rotate_0, rotate_1, outer_0, outer_1, rebalance,
}

abbrev pub IsBalanced : AvlTree → Type 0
IsBalanced empty = Unit {0}
IsBalanced (node l k h r) =
    (h ≡ 1 + max (get_height l) (get_height r))
    × (get_height l ≤ get_height r + 1)
    × (get_height r ≤ get_height l + 1)
    × IsBalanced l
    × IsBalanced r

-- The children have different heights.
abbrev pub Leans : AvlTree → Type 0
Leans empty = Unit {0}
Leans (node l k h r) = get_height l ≢ get_height r

-- What rebalancing a node makes of children whose heights are `a` and `b`.
abbrev pub Rebalanced : ℕ → ℕ → AvlTree → Type 0
Rebalanced a b t =
    IsBalanced t
    × (a ≡ b + 2 → get_height t ≡ a)
    × (b ≡ a + 2 → get_height t ≡ b)
    × (a ≤ b + 1 → b ≤ a + 1 → (get_height t ≡ 1 + max a b) × (a ≢ b → Leans t))

-- The four rotations, where a child is two levels taller than the other.
single_0 :
    (a b r : AvlTree) (x k : Ptr) (i h : ℕ)
    → IsBalanced (node a x i b)
    → IsBalanced r
    → i ≡ get_height r + 2
    → get_height b < get_height a
    → Rebalanced i (get_height r) (rotate_0 (node (node a x i b) k h r))
unfolding rotate_0 get_height
single_0 a b r x k i h bl br e lt = ground arith

double_0 :
    (a b r : AvlTree) (x k : Ptr) (i h : ℕ)
    → IsBalanced (node a x i b)
    → IsBalanced r
    → i ≡ get_height r + 2
    → get_height a < get_height b
    → Rebalanced i (get_height r) (rotate_0 (node (rotate_1 (node a x i b)) k h r))
unfolding rotate_0 rotate_1 get_height
double_0 a empty r x k i h bl br e lt = absurd (omega arith)
double_0 a (node b y j c) r x k i h bl br e le = ground arith

single_1 :
    (l b c : AvlTree) (k y : Ptr) (h i : ℕ)
    → IsBalanced l
    → IsBalanced (node b y i c)
    → i ≡ get_height l + 2
    → get_height b < get_height c
    → Rebalanced (get_height l) i (rotate_1 (node l k h (node b y i c)))
unfolding rotate_1 get_height
single_1 l b c k y h i bl br e lt = ground arith

double_1 :
    (l b c : AvlTree) (k y : Ptr) (h i : ℕ)
    → IsBalanced l
    → IsBalanced (node b y i c)
    → i ≡ get_height l + 2
    → get_height c < get_height b
    → Rebalanced (get_height l) i (rotate_1 (node l k h (rotate_0 (node b y i c))))
unfolding rotate_0 rotate_1 get_height
double_1 l empty c k y h i bl br e le = absurd (omega arith)
double_1 l (node a x j b) c k y h i bl br e le = ground arith

level :
    (l r : AvlTree) (k : Ptr)
    → IsBalanced l
    → IsBalanced r
    → get_height l ≤ get_height r + 1
    → get_height r ≤ get_height l + 1
    → Rebalanced (get_height l) (get_height r) (fix_height l k r)
unfolding fix_height get_height
level l r k bl br p q = ground arith

-- The branches of `avlRebalance`.
module _ (l r : AvlTree) (k : Ptr) (h : ℕ) where
  rebalance-outer_0 :
      get_height l ≡ get_height r + 2
      → outer_0 l ≡ true
      → rebalance (node l k h r) ≡ rotate_0 (node l k h r)
  unfolding rebalance
  rebalance-outer_0 e o = ground arith

  rebalance-inner_0 :
      get_height l ≡ get_height r + 2
      → outer_0 l ≡ false
      → rebalance (node l k h r) ≡ rotate_0 (node (rotate_1 l) k h r)
  unfolding rebalance
  rebalance-inner_0 e o = ground arith

  rebalance-outer_1 :
      get_height r ≡ get_height l + 2
      → outer_1 r ≡ true
      → rebalance (node l k h r) ≡ rotate_1 (node l k h r)
  unfolding rebalance
  rebalance-outer_1 e o = ground arith

  rebalance-inner_1 :
      get_height r ≡ get_height l + 2
      → outer_1 r ≡ false
      → rebalance (node l k h r) ≡ rotate_1 (node l k h (rotate_0 r))
  unfolding rebalance
  rebalance-inner_1 e o = ground arith

  rebalance-level :
      get_height l ≤ get_height r + 1
      → get_height r ≤ get_height l + 1
      → rebalance (node l k h r) ≡ fix_height l k r
  unfolding rebalance
  rebalance-level p q = ground arith

outer_0_cases :
    (a b : AvlTree) (x : Ptr) (i : ℕ)
    → ((outer_0 (node a x i b) ≡ true) × (get_height b < get_height a))
      ⊎ ((outer_0 (node a x i b) ≡ false) × (get_height a ≤ get_height b))
unfolding outer_0
outer_0_cases a b x i = ground arith

outer_1_cases :
    (b c : AvlTree) (y : Ptr) (i : ℕ)
    → ((outer_1 (node b y i c) ≡ true) × (get_height b < get_height c))
      ⊎ ((outer_1 (node b y i c) ≡ false) × (get_height c ≤ get_height b))
unfolding outer_1
outer_1_cases b c y i = ground arith

get_height-node : (l r : AvlTree) (k : Ptr) (h : ℕ) → get_height (node l k h r) ≡ h
unfolding get_height
get_height-node l r k h = refl

rebalance_tall_0 :
    (l r : AvlTree) (k : Ptr) (h : ℕ)
    → IsBalanced l
    → IsBalanced r
    → get_height l ≡ get_height r + 2
    → Leans l
    → Rebalanced (get_height l) (get_height r) (rebalance (node l k h r))
rebalance_tall_0 empty r k h bl br e n = absurd (unfold get_height in omega arith)
rebalance_tall_0 (node a x i b) r k h bl br e n = elim (outer_0_cases a b x i) [
  | inl (o, lt) ↦
      rw (rebalance-outer_0 (node a x i b) r k h e o, get_height-node)
        (single_0 a b r x k i h bl br (rw get_height-node at e) lt)
  | inr (o, le) ↦
      rw (rebalance-inner_0 (node a x i b) r k h e o, get_height-node)
        (double_0 a b r x k i h bl br (rw get_height-node at e) (omega arith))
]

rebalance_tall_1 :
    (l r : AvlTree) (k : Ptr) (h : ℕ)
    → IsBalanced l
    → IsBalanced r
    → get_height r ≡ get_height l + 2
    → Leans r
    → Rebalanced (get_height l) (get_height r) (rebalance (node l k h r))
rebalance_tall_1 l empty k h bl br e n = absurd (unfold get_height in omega arith)
rebalance_tall_1 l (node b y i c) k h bl br e n = elim (outer_1_cases b c y i) [
  | inl (o, lt) ↦
      rw (rebalance-outer_1 l (node b y i c) k h e o, get_height-node)
        (single_1 l b c k y h i bl br (rw get_height-node at e) lt)
  | inr (o, le) ↦
      rw (rebalance-inner_1 l (node b y i c) k h e o, get_height-node)
        (double_1 l b c k y h i bl br (rw get_height-node at e) (omega arith))
]

pub tall_or_level :
    (a b : ℕ) → a ≤ b + 2 → b ≤ a + 2 → (a ≡ b + 2) ⊎ (b ≡ a + 2) ⊎ (a ≤ b + 1) × (b ≤ a + 1)
tall_or_level a b p q = omega arith

-- Rebalancing a node whose children are balanced and differ by two levels at most balances it, if the
-- child that is two levels taller has children of different heights.
pub rebalance-Rebalanced :
    (l r : AvlTree) (k : Ptr) (h : ℕ)
    → IsBalanced l
    → IsBalanced r
    → get_height l ≤ get_height r + 2
    → get_height r ≤ get_height l + 2
    → (get_height l ≡ get_height r + 2 → Leans l)
    → (get_height r ≡ get_height l + 2 → Leans r)
    → Rebalanced (get_height l) (get_height r) (rebalance (node l k h r))
rebalance-Rebalanced l r k h bl br p q nl nr =
    elim (tall_or_level (get_height l) (get_height r) p q) [
      | inl e ↦ rebalance_tall_0 l r k h bl br e (nl e)
      | inr (inl e) ↦ rebalance_tall_1 l r k h bl br e (nr e)
      | inr (inr (a, b)) ↦ rw (rebalance-level l r k h a b) (level l r k bl br a b)
    ]

equal_inner :
    (a b c : AvlTree) (x y : Ptr) (i j : ℕ)
    → get_height a ≡ j
    → outer_0 (node a x i (node b y j c)) ≡ false
unfolding outer_0 get_height
equal_inner a b c x y i j e = ground arith

double_0_unbalanced :
    (a b c r : AvlTree) (x y k : Ptr) (i j h : ℕ)
    → get_height a ≡ get_height b + 2
    → ¬ IsBalanced (rotate_0 (node (rotate_1 (node a x i (node b y j c))) k h r))
unfolding rotate_0 rotate_1
double_0_unbalanced a b c r x y k i j h e bal = absurd (omega arith)

-- Where the child that is two levels taller has children of one height, avlRebalance rotates twice,
-- and leaves a node out of balance if the outer child of the inner grandchild is the lower one.
pub rebalance_unbalanced :
    (a b c r : AvlTree) (x y k : Ptr) (i j h : ℕ)
    → IsBalanced (node a x i (node b y j c))
    → i ≡ get_height r + 2
    → get_height a ≡ j
    → get_height b + 2 ≡ j
    → ¬ IsBalanced (rebalance (node (node a x i (node b y j c)) k h r))
rebalance_unbalanced a b c r x y k i j h bl e s t =
    rw
      (rebalance-inner_0 (node a x i (node b y j c)) r k h (rw get_height-node e)
        (equal_inner a b c x y i j s))
      (double_0_unbalanced a b c r x y k i j h (omega arith))
