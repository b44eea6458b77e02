-- ===== src/Lp/Hashed.antt =====
-- The tree of the chare holds the events with a flag, also when one leaves it.
use charades.Prelude.{
  ◌≡◌, ◌≢◌, refl, sym, ap, subst, ◌∙◌, true, false, Bool-cases, Ptr, inl, inr, some, List, [], ◌∷◌,
  arith,
}
use charades.Event.{Events}
use charades.AvlTree.{AvlTree, Pool, turn}
use charades.AvlTree.Order.{AllAbove, IsSorted}
use charades.AvlTree.Lists.{to_list}
use charades.AvlTree.SortedList.{list_has, list_delete}
use charades.AvlTree.Members.{list_find}
use charades.AvlTree.Promise.{IsOrdered, delete-Deleted}
use charades.Lp.Freeing.{Store, leave_tree}

-- The events with a flag are those that the tree holds.
pub record IsHashed (m : Events) (s : Store) : Type 0 where
  pub ordered : IsOrdered m s.pool s.tree
  pub has : (x : Ptr) → s.pool.in_tree x ≡ true → list_has m x (to_list s.tree) ≡ true
  pub finds : (x : Ptr) → s.pool.in_tree x ≡ true → list_find m x (to_list s.tree) ≡ x

module _ (m : Events) where
  -- Another event of the list is found after the deletion as before.
  find-list_delete :
      (x e : Ptr) (xs : List Ptr)
      → list_find m x xs ≢ list_find m e xs
      → (list_has m x (list_delete m e xs) ≡ list_has m x xs)
        × (list_find m x (list_delete m e xs) ≡ list_find m x xs)
  unfolding list_find list_delete list_has
  find-list_delete x e [] ne = (refl, refl)
  find-list_delete x e (y ∷ ys) ne = ground (arith, find-list_delete x e ys)

  pub leave_tree-IsHashed :
      (s : Store) (e : Ptr)
      → IsHashed m s
      → (s' : Store) × (leave_tree m s e ≡ some s')
        × IsHashed m s'
        × (s'.buffer ≡ s.buffer)
        × ((x : Ptr) → s.pool.in_tree x ≡ false → s'.pool.in_tree x ≡ false)
  unfolding leave_tree
  leave_tree-IsHashed s e v = elim (Bool-cases (s.pool.in_tree e)) [
    | inl t ↦
        (let (r, d, k) = delete-Deleted m s.tree e s.pool v.ordered (v.has e t) in
          let is : r.0 ≡ e = k.event ∙ v.finds e t in
          let other : (x : Ptr) → r.2.in_tree x ≡ true → (s.pool.in_tree x ≡ true) × (x ≢ e) =
            λ x f. ground (arith, is, ap (λ g. g x) k.flags) in
          let kept : (x : Ptr)
              → r.2.in_tree x ≡ true
              → (list_has m x (list_delete m e (to_list s.tree)) ≡ list_has m x (to_list s.tree))
                × (list_find m x (list_delete m e (to_list s.tree))
                    ≡ list_find m x (to_list s.tree)) =
            λ x f.
              find-list_delete x e (to_list s.tree)
                (λ q. (other x f).1 (sym (v.finds x (other x f).0) ∙ q ∙ v.finds e t)) in
          (
            record s { tree = r.1; pool = r.2 },
            ground (arith, d),
            record {
              ordered = k.ordered;
              has = λ x f. ap (list_has m x) k.entries ∙ (kept x f).0 ∙ v.has x (other x f).0;
              finds = λ x f. ap (list_find m x) k.entries ∙ (kept x f).1 ∙ v.finds x (other x f).0;
            },
            refl,
            λ x f. ground (arith, is, ap (λ g. g x) k.flags),
          ))
    | inr t ↦ (s, ground arith, v, refl, λ x f. f)
  ]

pub IsHashed-same :
    (m : Events) (s s' : Store) → s'.tree ≡ s.tree → s'.pool ≡ s.pool → IsHashed m s → IsHashed m s'
IsHashed-same m s s' t p v = record {
  ordered =
      subst (λ (q : Pool). IsOrdered m q s'.tree) (sym p)
        (subst (λ (t : AvlTree). IsOrdered m s.pool t) (sym t) v.ordered);
  has = λ x f.
      ap (λ t. list_has m x (to_list t)) t ∙ v.has x (ap (λ (q : Pool). q.in_tree x) (sym p) ∙ f);
  finds = λ x f.
      ap (λ t. list_find m x (to_list t)) t
      ∙ v.finds x (ap (λ (q : Pool). q.in_tree x) (sym p) ∙ f);
}

-- The keys of all events are the same in both memories.
abbrev pub SameKeys : Events → Events → Type 0
SameKeys m m' =
    (x : Ptr) → (m'.ts x ≡ m.ts x) × (m'.event_id x ≡ m.event_id x) × (m'.src_lp x ≡ m.src_lp x)

module _ (m m' : Events) (k : SameKeys m m') where
  turn-keys : (a b : Ptr) → turn m' a b ≡ turn m a b
  unfolding turn
  turn-keys a b = ground (arith, k a, k b)

  has-keys : (x : Ptr) (xs : List Ptr) → list_has m' x xs ≡ list_has m x xs
  unfolding list_has
  has-keys x [] = refl
  has-keys x (y ∷ ys) = ground (arith, turn-keys x y, has-keys x ys)

  find-keys : (x : Ptr) (xs : List Ptr) → list_find m' x xs ≡ list_find m x xs
  unfolding list_find
  find-keys x [] = refl
  find-keys x (y ∷ ys) = ground (arith, turn-keys x y, find-keys x ys)

  above-keys : (x : Ptr) (xs : List Ptr) → AllAbove m x xs → AllAbove m' x xs
  above-keys x [] a = tt
  above-keys x (y ∷ ys) (t, a) = (turn-keys x y ∙ t, above-keys x ys a)

  sorted-keys : (xs : List Ptr) → IsSorted m xs → IsSorted m' xs
  sorted-keys [] s = tt
  sorted-keys (x ∷ xs) (a, s) = (above-keys x xs a, sorted-keys xs s)

  pub IsHashed-keys : (s : Store) → IsHashed m s → IsHashed m' s
  IsHashed-keys s v = record {
    ordered = (sorted-keys (to_list s.tree) v.ordered.0, v.ordered.1, v.ordered.2);
    has = λ x f. has-keys x (to_list s.tree) ∙ v.has x f;
    finds = λ x f. find-keys x (to_list s.tree) ∙ v.finds x f;
  }
