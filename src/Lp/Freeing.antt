-- ===== src/Lp/Freeing.antt =====
-- Part of simcore/event.C: tw_event_free. It gives the event back to the buffer, takes it out of the
-- tree, and frees the events that it sent to other chares. Only the flags of the tree change in the memory.
use charades.Prelude.{
  ℕ, zero, suc, Bool, true, false, Ptr, null, ◌==◌, if◌then◌else◌, Option, none, some, ◌>>=◌,
}
use charades.Event.{Events, Owner, event_null, chare_q, rollback_q, sent}
use charades.AvlTree.{AvlTree, Pool, delete}
use charades.EventBuffer.{EventBuffer, free_event}
use charades.Setup.{Protocol, sequential, conservative, optimistic}
use charades.Lp.{Chare, Model, Place}

abbrev pub is_sent : Owner → Bool
is_sent sent = true
is_sent event_null = false
is_sent chare_q = false
is_sent rollback_q = false

abbrev pub is_optimistic : Protocol → Bool
is_optimistic optimistic = true
is_optimistic sequential = false
is_optimistic conservative = false

-- What `tw_event_free` changes.
pub record Store : Type 0 where
  pub tree : AvlTree
  pub pool : Pool
  pub buffer : EventBuffer

module _ (m : Events) where
  -- The event leaves the tree if it is in it.
  unfoldable pub leave_tree : Store → Ptr → Option Store
  leave_tree s e =
      let left : Option Store = do
        r ← delete m s.tree e s.pool
        some (record s { tree = r.1; pool = r.2 })
      in if s.pool.in_tree e then left else some s

  unfoldable pub give_back : Store → Ptr → Option Store
  give_back s e = do b ← free_event s.buffer e; some (record s { buffer = b })

  -- The events of a list that were sent to other chares are freed; `free` is the recursive call.
  unfoldable pub free_caused : (Store → Ptr → Option Store) → ℕ → Store → Ptr → Option Store
  free_caused free zero s event = if event == null then some s else none
  free_caused free (suc n) s event =
      let rest = (do
        s' ← (if is_sent (m.owner event) then free s event else some s)
        free_caused free n s' (m.cause_next event)) in
      if event == null then some s else rest

  -- `tw_event_free` in an optimistic run, after the commit. Each step into a list, and each step along
  -- one, takes fuel.
  unfoldable pub free_optimistic : ℕ → Store → Ptr → Option Store
  free_optimistic zero s e = none
  free_optimistic (suc fuel) s e = do
    s1 ← leave_tree s e
    s2 ← free_caused (λ s x. free_optimistic fuel s x) fuel s1 (m.caused_by_me e)
    give_back s2 e

module _ {S D : Type 0} (model : Model S D) (place : Place) (fuel : ℕ) where
  abbrev pub store : Chare S D → Store
  store c = record {
    tree = c.all_events;
    pool = record { in_tree = c.mem.in_avl_tree; free = c.free_nodes };
    buffer = c.event_buffer;
  }

  abbrev pub set_store : Chare S D → Store → Chare S D
  set_store c s = record c {
    mem = record c.mem { in_avl_tree = s.pool.in_tree };
    all_events = s.tree;
    free_nodes = s.pool.free;
    event_buffer = s.buffer;
  }

  -- `tw_event_free`.
  unfoldable pub tw_event_free : Chare S D → Ptr → Bool → Option (Chare S D)
  tw_event_free c e commit =
      let c' =
        if commit
        then record c { lps = model.commit c.lps (c.mem.lp e) (c.mem.ts e) (c.messages e) }
        else c in
      do
        s ←
            (if is_optimistic place.protocol
              then free_optimistic c'.mem fuel (store c') e
              else give_back c'.mem (store c') e)
        some (set_store c' s)
