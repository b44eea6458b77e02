-- ===== src/AvlTree/Order.antt =====
-- The order of keys that the tests of the tree decide.
use charades.Prelude.{◌≡◌, ◌⊎◌, ◌↔◌, ◌<◌, arith, Ptr, List, [], ◌∷◌}
use charades.Event.{Events}
use charades.Event.Order.{SameKey}
use charades.AvlTree.{here, child_0, child_1, turn}

module _ (m : Events) where
  pub turn-here : (a b : Ptr) → SameKey m a b → turn m a b ≡ here
  unfolding turn
  turn-here a b s = ground arith

  pub SameKey-of_here : (a b : Ptr) → turn m a b ≡ here → SameKey m a b
  unfolding turn
  SameKey-of_here a b h = (ground arith, ground arith, ground arith)

  pub turn_flip : (a b : Ptr) → turn m a b ≡ child_0 → turn m b a ≡ child_1
  unfolding turn
  turn_flip a b h = ground arith

  pub turn_flip' : (a b : Ptr) → turn m a b ≡ child_1 → turn m b a ≡ child_0
  unfolding turn
  turn_flip' a b h = ground arith

  pub turn_trans :
      (a b c : Ptr) → turn m a b ≡ child_1 → turn m b c ≡ child_1 → turn m a c ≡ child_1
  unfolding turn
  turn_trans a b c h k = ground arith

  -- A key turns like any other key that is the same.
  pub turn-same : (a b c : Ptr) → turn m a b ≡ here → turn m a c ≡ turn m b c
  unfolding turn
  turn-same a b c h = ground arith

  -- The first key is later, by timestamp, then event id, then sender.
  abbrev pub IsAfter : Ptr → Ptr → Type 0
  IsAfter a b =
      (m.ts b < m.ts a)
      ⊎ ((m.ts b ≡ m.ts a) × (m.event_id b < m.event_id a))
      ⊎ ((m.ts b ≡ m.ts a) × (m.event_id b ≡ m.event_id a) × (m.src_lp b < m.src_lp a))

  -- A key goes to the second child of a node exactly if it is later than the key of the node in the order
  -- by timestamp, event id and sender, to the first child exactly if it is earlier, and is found there
  -- exactly if all three are the same.
  pub turn_iff :
      (a b : Ptr)
      → ((turn m a b ≡ child_1) ↔ IsAfter a b)
        × ((turn m a b ≡ child_0) ↔ IsAfter b a)
        × ((turn m a b ≡ here) ↔ SameKey m a b)
  unfolding turn
  turn_iff a b =
      ((ground arith, ground arith), (ground arith, ground arith), (ground arith, ground arith))

  -- All entries of a list lie before, or behind, a key.
  abbrev pub AllBelow : Ptr → List Ptr → Type 0
  AllBelow k [] = Unit {0}
  AllBelow k (x ∷ xs) = (turn m k x ≡ child_1) × AllBelow k xs

  abbrev pub AllAbove : Ptr → List Ptr → Type 0
  AllAbove k [] = Unit {0}
  AllAbove k (x ∷ xs) = (turn m k x ≡ child_0) × AllAbove k xs

  abbrev pub IsSorted : List Ptr → Type 0
  IsSorted [] = Unit {0}
  IsSorted (x ∷ xs) = AllAbove x xs × IsSorted xs
