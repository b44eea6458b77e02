-- ===== src/AvlTree/Cancel.antt =====
-- `avlInsertOrDelete` on ordered trees: how an event and its anti-event cancel.
use charades.Prelude.{
  ◌>>=◌, ◌<◌, ◌≡◌, ap, ◌∙◌, ◌⊎◌, inl, inr, Ptr, true, false, Option, some, none, Bool-cases,
}
use charades.Event.{Events}
use charades.Event.Order.{SameKey}
use charades.AvlTree.{AvlTree, Pool, insert_or_delete}
use charades.AvlTree.Lists.{to_list}
use charades.AvlTree.SortedList.{list_has, list_delete}
use charades.AvlTree.Search.{search-list_has}
use charades.AvlTree.Insert.{insert_tree, after_insert}
use charades.AvlTree.Delete.{delete_tree, find, after_delete}
use charades.AvlTree.Exchange.{exchange-found, exchange-absent}
use charades.AvlTree.Members.{list_find, has-insert, delete-insert, find-insert}
use charades.AvlTree.Promise.{IsOrdered, Inserted, Deleted, inserted, deleted, positive_free}

-- On an ordered tree with a free node left, avlInsertOrDelete deletes and returns the event with the
-- key where the tree holds one, and otherwise inserts the key and returns a null pointer.
pub exchange-cases :
    (m : Events) (t : AvlTree) (key : Ptr) (p : Pool)
    → IsOrdered m p t
    → 0 < p.free
    → ((list_has m key (to_list t) ≡ true)
        × ((r : Ptr × AvlTree × Pool) × (insert_or_delete m t key p ≡ some (some r.0, r.1, r.2))
            × Deleted m t key p r.0 r.1 r.2))
      ⊎ ((list_has m key (to_list t) ≡ false)
          × ((r : AvlTree × Pool) × (insert_or_delete m t key p ≡ some (none, r.0, r.1))
              × Inserted m t key p r.0 r.1))
exchange-cases m t key p o f = elim (Bool-cases (list_has m key (to_list t))) [
  | inl h ↦ inl (
    h,
    (
      (find m t key, delete_tree m t key, after_delete p (find m t key)),
      exchange-found m t key p (search-list_has m t key o.0 ∙ h) o.2,
      deleted m t key p o h,
    ),
  )
  | inr h ↦ inr (
    h,
    (
      (insert_tree m t key, after_insert p key),
      exchange-absent m t key p (search-list_has m t key o.0 ∙ h)
          ∙ positive_free p.free none (some (none, insert_tree m t key, after_insert p key)) f,
      inserted m t key p o h f,
    ),
  )
]

-- The same for two events, one after the other.
abbrev pub exchange_both :
    Events → AvlTree → Ptr → Ptr → Pool → Option (Option Ptr × AvlTree × Pool)
exchange_both m t key key' p = do
  (e, t', p') ← insert_or_delete m t key p
  insert_or_delete m t' key' p'

-- An event and an anti-event with its key cancel: on an ordered tree without the key and with a free
-- node, avlInsertOrDelete of both in turn returns the event, and leaves an ordered tree of the same
-- events and as many free nodes.
pub exchange-exchange :
    (m : Events) (t : AvlTree) (key key' : Ptr) (p : Pool)
    → IsOrdered m p t
    → list_has m key (to_list t) ≡ false
    → 0 < p.free
    → SameKey m key' key
    → (r : AvlTree × Pool) × (exchange_both m t key key' p ≡ some (some key, r.0, r.1))
      × (to_list r.0 ≡ to_list t)
      × (r.1.free ≡ p.free)
      × IsOrdered m r.1 r.0
exchange-exchange m t key key' p o h f s =
    let t' = insert_tree m t key in
    let p' = after_insert p key in
    let i = inserted m t key p o h f in
    let h' = ap (list_has m key') i.entries ∙ has-insert m key key' (to_list t) s in
    let d = deleted m t' key' p' i.ordered h' in
    let e = d.event ∙ ap (list_find m key') i.entries ∙ find-insert m key key' (to_list t) s h in
    (
      (delete_tree m t' key', after_delete p' (find m t' key')),
      rw
          (exchange-absent m t key p (search-list_has m t key o.0 ∙ h)
            ∙ positive_free p.free none (some (none, t', p')) f)
          (exchange-found m t' key' p' (search-list_has m t' key' i.ordered.0 ∙ h') i.ordered.2
            ∙ ap (λ u. some (some u, delete_tree m t' key', after_delete p' (find m t' key'))) e),
      d.entries ∙ ap (list_delete m key') i.entries ∙ delete-insert m key key' (to_list t) s h,
      d.freed ∙ i.spent,
      d.ordered,
    )
