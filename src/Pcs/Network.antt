-- ===== src/Pcs/Network.antt =====
-- All cells and the events between them: the events may be handled in any order.
use charades.Prelude.{
  ℕ, ◌+◌, ◌<◌, ◌≡◌, refl, ap, ◌∙◌, Bool, true, ◌==◌, if◌then◌else◌, some, List, [], ◌∷◌, ◌++◌,
  write, arith,
}
use charades.Clcg4.{Clcg4}
use charades.Pcs.{
  Send, Cell, Trace, inc, Channel, no_channel, normal_ch, is_normal_ch, is_reserve,
  completioncall_method,
}
use charades.Random.{Floats}
use charades.Pcs.Channels.{held, event_handler-IsKept}
use charades.Pcs.StartUp.{start_up, init_state, total, start_up-held}
use charades.Pcs.Handlers.{Outcome, event_handler, completion_call, idle}

pub record Network (f : Floats) : Type 0 where
  pub cells : ℕ → Cell
  pub pending : List (Send f)

-- An event is handled at its cell, and the event that the handler sends is under way.
pub data Step (f : Floats) : Network f → Network f → Type 0 where
  handle :
      (fuel : ℕ) (now : f.Double) (cells : ℕ → Cell) (before after : List (Send f)) (e : Send f)
      (o : Outcome f)
      → event_handler f fuel now e.dest (cells e.dest) e.msg ≡ some o
      → Step f
          (record { cells = cells; pending = before ++ e ∷ after })
          (record { cells = write cells e.dest o.cell; pending = o.sent ∷ (before ++ after) })

pub data Reached (f : Floats) (n : Network f) : Network f → Type 0 where
  here : Reached f n n
  there : (m k : Network f) → Reached f n m → Step f m k → Reached f n k

-- The events that cells send at the start.
pub data Started (f : Floats) : List (Send f) → Type 0 where
  no_cell : Started f []
  one_cell :
      (fuel : ℕ) (now : f.Double) (unset : Channel) (gid : ℕ) (g : Clcg4) (c : Cell)
      (sent rest : List (Send f))
      → start_up f fuel now unset gid g ≡ some (c, sent)
      → Started f rest
      → Started f (sent ++ rest)

-- Every channel of every cell is free, or held by one event on its way to the cell.
abbrev pub IsBalanced : (f : Floats) → Network f → Type 0
IsBalanced f n =
    (c : ℕ)
    → ((n.cells c).sv.normal_channels + total f is_normal_ch c n.pending ≡ 10)
      × ((n.cells c).sv.reserve_channels + total f is_reserve c n.pending ≡ 0)

module _ (f : Floats) where
  total-append :
      (kind : Channel → Bool) (c : ℕ) (es es' : List (Send f))
      → total f kind c (es ++ es') ≡ total f kind c es + total f kind c es'
  unfolding total
  total-append kind c [] es' = omega arith
  total-append kind c (e ∷ es) es' = omega (arith, total-append kind c es es')

  total-middle :
      (kind : Channel → Bool) (c : ℕ) (before after : List (Send f)) (e : Send f)
      → total f kind c (before ++ e ∷ after)
        ≡ (if e.dest == c then held f kind e.msg else 0) + total f kind c (before ++ after)
  unfolding total
  total-middle kind c before after e =
      omega (arith, total-append kind c before (e ∷ after), total-append kind c before after)

  start-held :
      (es : List (Send f))
      → Started f es
      → (c : ℕ) → (total f is_normal_ch c es ≡ 0) × (total f is_reserve c es ≡ 0)
  unfolding total
  start-held _ no_cell c = (refl, refl)
  start-held _ (one_cell fuel now unset gid g d sent rest h s) c =
      let (_, k) = start_up-held f fuel now unset gid g d sent h in
      let (kn, kr) = k c in
      let (rn, rr) = start-held rest s c in
      (
        omega (arith, total-append is_normal_ch c sent rest),
        omega (arith, total-append is_reserve c sent rest),
      )

  handle-IsBalanced :
      (fuel : ℕ) (now : f.Double) (cells : ℕ → Cell) (before after : List (Send f)) (e : Send f)
      (o : Outcome f)
      → event_handler f fuel now e.dest (cells e.dest) e.msg ≡ some o
      → IsBalanced f (record { cells = cells; pending = before ++ e ∷ after })
      → IsBalanced f
          (record { cells = write cells e.dest o.cell; pending = o.sent ∷ (before ++ after) })
  unfolding total
  handle-IsBalanced fuel now cells before after e o h b c =
      let (bn, br) = b e.dest in
      let (bn', br') = b c in
      let mn = total-middle is_normal_ch e.dest before after e in
      let mr = total-middle is_reserve e.dest before after e in
      let mn' = total-middle is_normal_ch c before after e in
      let mr' = total-middle is_reserve c before after e in
      let (kn, kr, kd) =
        event_handler-IsKept f fuel now e.dest (cells e.dest) e.msg o (ground arith) (ground arith)
          h in
      (ground arith, ground arith)

  -- No channel is lost, and none is given twice. Where every cell starts as Cell_StartUp leaves it, and
  -- the events under way are those that cells send there, in whatever order events are handled: each
  -- channel of each cell is either free, or held by one event on its way to the cell.
  pub Reached-IsBalanced :
      (n m : Network f)
      → ((c : ℕ) → (n.cells c).sv ≡ init_state c)
      → Started f n.pending
      → Reached f n m
      → IsBalanced f m
  unfolding init_state
  Reached-IsBalanced n _ h s here = λ c. (
    ground (arith, h c, (start-held n.pending s c).0),
    ground (arith, h c, (start-held n.pending s c).1),
  )
  Reached-IsBalanced n _ h s (there _ _ r (handle fuel now cells before after e o w)) =
      handle-IsBalanced fuel now cells before after e o w
        (Reached-IsBalanced n (record { cells = cells; pending = before ++ e ∷ after }) h s r)

  -- The assertion on the numbers of free channels in Cell_CompletionCall never fails. In any network
  -- that is reached from the start, as above, when the end of a call with a normal channel is handled, the
  -- channel is freed and the portable goes on as one that is in no call.
  pub completion_call_accepts :
      (n m : Network f)
      → ((c : ℕ) → (n.cells c).sv ≡ init_state c)
      → Started f n.pending
      → Reached f n m
      → (before after : List (Send f)) (e : Send f) → m.pending ≡ before ++ e ∷ after
      → e.msg.method ≡ completioncall_method
      → e.msg.channel ≡ normal_ch
      → (fuel : ℕ) (now : f.Double) (t : Trace)
      → let c = m.cells e.dest in
        completion_call f fuel now e.dest c t e.msg
        ≡ idle f fuel now e.dest
            (record c { sv = record c.sv { normal_channels = c.sv.normal_channels + 1 } })
            (record t { c1 = true })
            (record e.msg { completion_ts = f.huge_val; channel = no_channel })
  unfolding completion_call held
  completion_call_accepts n m h s r before after e p k kc fuel now t =
      let (bn, br) = Reached-IsBalanced n m h s r e.dest in
      let en =
        ap (total f is_normal_ch e.dest) p ∙ total-middle is_normal_ch e.dest before after e in
      let below : (m.cells e.dest).sv.normal_channels < 10 = ground arith in
      let one : inc (m.cells e.dest).sv.normal_channels ≡ (m.cells e.dest).sv.normal_channels + 1 =
        omega arith in
      ground (arith, one)
