-- ===== src/EventBuffer/Stack.antt =====
-- The buffer is a stack of distinct free events.
use charades.Prelude.{ℕ, ◌+◌, ◌-◌, ◌<◌, ◌≤◌, ◌≡◌, ◌≢◌, refl, Ptr, write, some, arith}
use charades.Event.{Events}
use charades.EventBuffer.{EventBuffer, get_event, free_event, clear}

-- Free events are distinct, and no more than the buffer was made for.
pub record IsBuffer (b : EventBuffer) : Type 0 where
  pub fits : b.stack_pointer ≤ b.max_events
  pub distinct :
      (i j : ℕ) → i < b.stack_pointer → j < b.stack_pointer → b.buffer i ≡ b.buffer j → i ≡ j

-- The event is not free.
abbrev pub IsTaken : EventBuffer → Ptr → Type 0
IsTaken b e = (i : ℕ) → i < b.stack_pointer → b.buffer i ≢ e

-- A buffer of distinct free events that is not empty gives out an event that is then taken, and
-- freeing this event succeeds and gives the free events of before, in their order.
pub get_event-free_event :
    (b : EventBuffer) (m : Events)
    → IsBuffer b
    → 0 < b.stack_pointer
    → (r : Ptr × EventBuffer × Events) × (get_event b m ≡ some r)
      × IsBuffer r.1
      × IsTaken r.1 r.0
      × (b' : EventBuffer) × (free_event r.1 r.0 ≡ some b')
      × (b'.stack_pointer ≡ b.stack_pointer)
      × ((i : ℕ) → b'.buffer i ≡ b.buffer i)
unfolding get_event free_event
get_event-free_event b m v h =
    let top = b.stack_pointer - 1 in
    let r : EventBuffer = record b { stack_pointer = top } in
    (
      (b.buffer top, r, clear m (b.buffer top)),
      ground arith,
      record {
        fits = omega (arith, v.fits);
        distinct = λ i j a b e. v.distinct i j (omega arith) (omega arith) e;
      },
      λ i a e. absurd (omega (arith, v.distinct i top (omega arith) (omega arith) e)),
      record r { stack_pointer = top + 1; buffer = write b.buffer top (b.buffer top) },
      ground (arith, v.fits),
      omega arith,
      λ i. ground arith,
    )

-- A taken event can be freed while the buffer is not full, and the free events stay distinct.
pub free_event-IsBuffer :
    (b : EventBuffer) (e : Ptr)
    → IsBuffer b
    → IsTaken b e
    → b.stack_pointer < b.max_events
    → (b' : EventBuffer) × (free_event b e ≡ some b')
      × IsBuffer b'
      × (b'.stack_pointer ≡ b.stack_pointer + 1)
      × (b'.max_events ≡ b.max_events)
unfolding free_event
free_event-IsBuffer b e v t h = (
  record b { stack_pointer = b.stack_pointer + 1; buffer = write b.buffer b.stack_pointer e },
  ground arith,
  record { fits = omega arith; distinct = λ i j a c q. ground (arith, v.distinct i j, t i, t j) },
  refl,
  refl,
)
