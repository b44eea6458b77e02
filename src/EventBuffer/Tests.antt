-- ===== src/EventBuffer/Tests.antt =====
-- A buffer of three events.
use charades.Prelude.{ℕ, ◌+◌, ◌≡◌, Ptr, null, false, some, arith}
use charades.Event.{Events, event_null}
use charades.EventBuffer.{EventBuffer, init, get_event, free_event}
use charades.EventBuffer.Stack.{IsBuffer, IsTaken, get_event-free_event}

abbrev memory : Events
memory = record {
  ts = λ e. e;
  event_id = λ e. e;
  src_lp = λ e. 0;
  dest_lp = λ e. 0;
  lp = λ e. null;
  owner = λ e. event_null;
  in_cancel_q = λ e. false;
  remote = λ e. false;
  in_avl_tree = λ e. false;
  prev = λ e. null;
  next = λ e. null;
  caused_by_me = λ e. null;
  cause_next = λ e. null;
  cancel_next = λ e. null;
  index = λ e. 0;
}

abbrev three : EventBuffer
three = init 3 (λ i. i + 1)

three-IsBuffer : IsBuffer three
unfolding init
three-IsBuffer = record { fits = omega arith; distinct = λ i j a b e. omega arith }

get_event-free_event_example :
    (r : Ptr × EventBuffer × Events) × (get_event three memory ≡ some r)
    × IsBuffer r.1
    × IsTaken r.1 r.0
    × (b' : EventBuffer) × (free_event r.1 r.0 ≡ some b')
    × (b'.stack_pointer ≡ three.stack_pointer)
    × ((i : ℕ) → b'.buffer i ≡ three.buffer i)
unfolding init
get_event-free_event_example = get_event-free_event three memory three-IsBuffer (omega arith)
