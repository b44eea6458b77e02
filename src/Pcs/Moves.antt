-- ===== src/Pcs/Moves.antt =====
-- Part of models/pcs/pcs.C: the loop in which a portable without a call moves from cell to cell until
-- its next call, and the loop that takes back the random numbers of it.
-- The loop takes fuel, and `none` is running out of it, or `tw_error`.
use charades.Prelude.{◌>>=◌, ℕ, zero, suc, ◌^◌, ltb, if◌then◌else◌, Option, none, some}
use charades.Clcg4.{Clcg4}
use charades.Random.{Floats, tw_rand_exponential, tw_rand_integer}
use charades.Pcs.{Msg, compute_move, inc}

-- What the loop changes: `M->RC.wl1`, the generator, the cells and the data `TMsg`.
pub record Moves (f : Floats) : Type 0 where
  pub wl1 : ℕ
  pub rng : Clcg4
  pub currentcell : ℕ
  pub newcell : ℕ
  pub tmsg : Msg f

module _ (f : Floats) where
  -- The end of a round of the loop, in the cell that `Cell_ComputeMove` returned.
  unfoldable pub moved : Moves f → f.Double → Clcg4 → ℕ → Moves f
  moved s result rng newcell = record s {
    wl1 = inc s.wl1;
    rng = rng;
    currentcell = s.newcell;
    newcell = newcell;
    tmsg = record s.tmsg { move_ts = f.plus s.tmsg.move_ts result };
  }

  unfoldable pub move_round : Moves f → Option (Moves f)
  move_round s = do
    let (dest_index, rng) = tw_rand_integer f s.rng 0 3
    let (result, rng') = tw_rand_exponential f rng (f.of_int 4500)
    newcell ← compute_move s.newcell dest_index
    some (moved s result rng' newcell)

  unfoldable pub move_loop : ℕ → Moves f → Option (Moves f)
  move_loop zero s = none
  move_loop (suc fuel) s =
      let rest = (do s' ← move_round s; move_loop fuel s') in
      if f.less s.tmsg.move_ts s.tmsg.next_ts then rest else some s

-- `i < wl1` of signed words: how often the loops of the reverse handlers run.
abbrev pub rounds : ℕ → ℕ
rounds wl1 = if ltb wl1 (2 ^ 31) then wl1 else 0

module _ (tw_rand_reverse_unif : Clcg4 → Clcg4) where
  -- Two random numbers are taken back in each round.
  unfoldable pub reverse_moves : ℕ → Clcg4 → Clcg4
  reverse_moves zero g = g
  reverse_moves (suc n) g = tw_rand_reverse_unif (tw_rand_reverse_unif (reverse_moves n g))
