-- ===== src/Pcs/Ties.antt =====
-- A portable whose next move and next call fall on the same time.
use charades.Prelude.{ℕ, suc, ◌≡◌, false, some, arith}
use charades.Random.{Floats}
use charades.Pcs.{Cell, Trace, Msg, min_ts}
use charades.Pcs.Moves.{move_loop}
use charades.Pcs.Idle.{start}
use charades.Pcs.Handlers.{Outcome, after_moves, idle}

-- The branches for a portable that is not in a call go wrong at a tie: where neither the next move nor the
-- next call is less than the other, and the end of a call is not less than the next call, the handler sends the event for the
-- next call to cell 0, whichever the cell of the portable is.
pub idle_tie :
    (f : Floats) (fuel : ℕ) (now : f.Double) (gid : ℕ) (c : Cell) (t : Trace) (m : Msg f)
    → f.less m.completion_ts m.next_ts ≡ false
    → f.less m.next_ts m.move_ts ≡ false
    → f.less m.move_ts m.next_ts ≡ false
    → (o : Outcome f) × (idle f (suc fuel) now gid c t m ≡ some o) × (o.sent.dest ≡ 0)
unfolding idle min_ts move_loop after_moves
idle_tie f fuel now gid c t m h k l =
    let s = start f (suc fuel) now gid c t m in
    (after_moves f (suc fuel) now gid c.sv t s, ground arith, ground arith)
