-- ===== src/Event.antt =====
-- simcore/event.h and simcore/event.C: the fields of events, and the orders on them.
-- Events are shared by the queues of a chare, so each field is a function of the event's address.
-- `lp` is the field `owner` of the source (the LP of the event), and `owner` is `state.owner`.
pub mod Order
use charades.Prelude.{ℕ, ◌%◌, Bool, Ptr, false, ltb, ◌==◌, if◌then◌else◌}

pub data Owner : Type 0 where
  event_null chare_q rollback_q sent : Owner

pub record Events : Type 0 where
  pub ts : Ptr → ℕ
  pub event_id : Ptr → ℕ
  pub src_lp : Ptr → ℕ
  pub dest_lp : Ptr → ℕ
  pub lp : Ptr → Ptr
  pub owner : Ptr → Owner
  pub in_cancel_q : Ptr → Bool
  pub remote : Ptr → Bool
  pub in_avl_tree : Ptr → Bool
  pub prev : Ptr → Ptr
  pub next : Ptr → Ptr
  pub caused_by_me : Ptr → Ptr
  pub cause_next : Ptr → Ptr
  pub cancel_next : Ptr → Ptr
  pub index : Ptr → ℕ

-- `UINT64_MAX`.
abbrev pub time_max : ℕ
time_max = 0xffff_ffff_ffff_ffff

-- `Event::index` is a `uint8_t`.
abbrev pub u8 : ℕ → ℕ
u8 n = n % 256

-- `LPBase::compare`, which a model may override.
unfoldable pub base_compare : Events → Ptr → Ptr → Bool
base_compare m e1 e2 =
    if m.src_lp e1 == m.src_lp e2
    then ltb (m.event_id e1) (m.event_id e2)
    else ltb (m.src_lp e1) (m.src_lp e2)

-- `StandardEventComparator`.
unfoldable pub standard_less : Events → Ptr → Ptr → Bool
standard_less m e1 e2 =
    if m.ts e1 == m.ts e2
    then (if m.src_lp e1 == m.src_lp e2
        then ltb (m.event_id e1) (m.event_id e2)
        else ltb (m.src_lp e1) (m.src_lp e2))
    else ltb (m.ts e1) (m.ts e2)

-- `e1->owner->compare(e1, e2)`: the method of the LP, over the memory of events.
abbrev pub Compare : Type 0
Compare = Ptr → Events → Ptr → Ptr → Bool

-- `CustomEventComparator`.
unfoldable pub custom_less : Compare → Events → Ptr → Ptr → Bool
custom_less compare m e1 e2 =
    if m.ts e1 == m.ts e2
    then (if m.dest_lp e1 == m.dest_lp e2 then compare (m.lp e1) m e1 e2 else false)
    else ltb (m.ts e1) (m.ts e2)
