-- ===== src/Pcs/Handlers.antt =====
-- Part of models/pcs/pcs.C: the handlers of events. `none` is `tw_error`, or a loop that runs out of fuel.
-- Each handler sends one event. `now` is `tw_now(lp)` and `gid` is `lp->gid`.
use charades.Prelude.{
  ◌>>=◌, ℕ, true, false, ◌&&◌, ◌||◌, not, ◌==◌, if◌then◌else◌, Option, none, some,
}
use charades.Clcg4.{Clcg4}
use charades.Random.{Floats, tw_rand_exponential, tw_rand_integer}
use charades.Pcs.{
  Msg, Send, completecall, nextcall, movecall, min_ts, State, Cell, Trace, Method, nextcall_method,
  completioncall_method, movecallin_method, movecallout_method, invalid_method, no_channel,
  normal_ch, reserve, is_normal_ch, is_reserve, inc, dec, exceeds, max_normal_channels,
  max_reserve_channels, compute_move,
}
use charades.Pcs.Moves.{Moves, move_loop, rounds, reverse_moves}
use charades.Pcs.Calls.{Ending, call_loop, reverse_calls}

pub record Outcome (f : Floats) : Type 0 where
  pub cell : Cell
  pub trace : Trace
  pub sent : Send f

module _ (f : Floats) (fuel : ℕ) (now : f.Double) (gid : ℕ) where
  -- `max(0.0, ts - tw_now(lp))`.
  unfoldable pub until : f.Double → f.Double
  until ts = f.fmax (f.of_int 0) (f.minus ts now)

  -- The end of the loop over moves: the event goes to the cell that the portable was in last, which is
  -- 0 where the loop did not run.
  unfoldable pub after_moves : State → Trace → Moves f → Outcome f
  unfolding until
  after_moves sv trace r = record {
    cell = record { sv = sv; rng = r.rng };
    trace = record trace { wl1 = r.wl1 };
    sent = record {
      dest = r.currentcell;
      offset = until r.tmsg.next_ts;
      msg = record r.tmsg { method = nextcall_method };
    };
  }

  -- The branches of a handler for a portable that is not in a call.
  unfoldable pub idle : Cell → Trace → Msg f → Option (Outcome f)
  unfolding until
  idle c trace tmsg =
      let stay : Option (Outcome f) = some (record {
        cell = c;
        trace = trace;
        sent = record {
          dest = gid;
          offset = until tmsg.next_ts;
          msg = record tmsg { method = nextcall_method };
        };
      }) in
      let leave : Option (Outcome f) = do
        r ←
            move_loop f fuel
              (record { wl1 = trace.wl1; rng = c.rng; currentcell = 0; newcell = gid; tmsg = tmsg })
        some (after_moves c.sv trace r)
      in elim (min_ts f tmsg) [ completecall ↦ none | nextcall ↦ stay | movecall ↦ leave ]

  unfoldable pub after_calls : Trace → Ending f → Outcome f
  unfolding until
  after_calls trace e = record {
    cell = e.calls.cell;
    trace = record trace { wl1 = e.calls.wl1 };
    sent = record {
      dest = gid;
      offset = until e.ts;
      msg = record e.calls.tmsg { method = e.method };
    };
  }

  -- The branches of a handler for a portable in a call that has a channel of this cell.
  unfoldable pub in_call : Cell → Trace → Msg f → Option (Outcome f)
  in_call c trace tmsg = do
    r ← call_loop f fuel (record { wl1 = trace.wl1; cell = c; tmsg = tmsg })
    some (after_calls trace r)

  -- `Cell_NextCall`.
  unfoldable pub next_call : Cell → Trace → Msg f → Option (Outcome f)
  unfolding tw_rand_exponential
  next_call c trace m =
      let busy = c.sv.normal_channels == 0 in
      let sv = record c.sv { call_attempts = inc c.sv.call_attempts } in
      let trace' = record trace { c1 = busy } in
      let (wait, rng) = tw_rand_exponential f c.rng (f.of_int 360) in
      let blocked =
        idle (record { sv = record sv { channel_blocks = inc sv.channel_blocks }; rng = rng })
          trace' (record m { next_ts = f.plus m.next_ts wait }) in
      let (talk, rng1) = tw_rand_exponential f c.rng (f.of_int 180) in
      let (next, rng2) = tw_rand_exponential f rng1 (f.of_int 360) in
      let served =
        in_call (record { sv = record sv { normal_channels = dec sv.normal_channels }; rng = rng2 })
          trace'
          (record m {
            channel = normal_ch;
            completion_ts = f.plus talk m.next_ts;
            next_ts = f.plus m.next_ts next;
          }) in
      if busy then blocked else served

  -- `Cell_CompletionCall`.
  unfoldable pub completion_call : Cell → Trace → Msg f → Option (Outcome f)
  completion_call c trace m =
      let normal = is_normal_ch m.channel in
      let res = is_reserve m.channel in
      let trace' =
        if normal then record trace { c1 = true } else record trace { c1 = false; c2 = res } in
      let sv =
        if normal
        then record c.sv { normal_channels = inc c.sv.normal_channels }
        else record c.sv { reserve_channels = inc c.sv.reserve_channels } in
      let onward =
        idle (record c { sv = sv }) trace'
          (record m { completion_ts = f.huge_val; channel = no_channel }) in
      if not (normal || res)
      then none
      else if exceeds sv.normal_channels max_normal_channels
          || exceeds sv.reserve_channels max_reserve_channels
      then none
      else onward

  -- `Cell_MoveCallIn`.
  unfoldable pub move_call_in : Cell → Trace → Msg f → Option (Outcome f)
  unfolding tw_rand_exponential
  move_call_in c trace m =
      let (result, rng) = tw_rand_exponential f c.rng (f.of_int 4500) in
      let tmsg = record m { move_ts = f.plus m.move_ts result } in
      let normal_busy = c.sv.normal_channels == 0 in
      let busy = normal_busy && (c.sv.reserve_channels == 0) in
      let blocked =
        idle (record { sv = record c.sv { handoff_blocks = inc c.sv.handoff_blocks }; rng = rng })
          (record trace { c1 = true; c2 = true }) (record tmsg { completion_ts = f.huge_val }) in
      let sv =
        if not normal_busy
        then record c.sv { normal_channels = dec c.sv.normal_channels }
        else record c.sv { reserve_channels = dec c.sv.reserve_channels } in
      let served =
        in_call (record { sv = sv; rng = rng })
          (record trace { c1 = true; c2 = false; c3 = not normal_busy })
          (record tmsg { channel = if not normal_busy then normal_ch else reserve }) in
      if not (f.differs m.completion_ts f.huge_val) then none else if busy then blocked else served

  -- The event that a call leaves with, for the cell `newcell`.
  unfoldable pub moving : Cell → Trace → Msg f → ℕ → Outcome f
  unfolding until
  moving c trace m newcell = record {
    cell = c;
    trace = trace;
    sent = record {
      dest = newcell;
      offset = until m.move_ts;
      msg = record m { method = movecallin_method; channel = no_channel };
    };
  }

  -- `Cell_MoveCallOut`.
  unfoldable pub move_call_out : Cell → Trace → Msg f → Option (Outcome f)
  unfolding tw_rand_integer
  move_call_out c trace m =
      let normal = is_normal_ch m.channel in
      let sv =
        if normal
        then record c.sv { normal_channels = inc c.sv.normal_channels }
        else record c.sv { reserve_channels = inc c.sv.reserve_channels } in
      let (dest_index, rng) = tw_rand_integer f c.rng 0 3 in
      let onward : Option (Outcome f) = do
        newcell ← compute_move gid dest_index
        some (
            moving (record { sv = sv; rng = rng }) (record trace { c1 = true; c2 = normal }) m
              newcell)
      in if not (f.differs m.completion_ts f.huge_val)
        then none
        else if not (normal || is_reserve m.channel)
        then none
        else onward

  -- `Cell_EventHandler`, which clears the bits and the counter first.
  unfoldable pub event_handler : Cell → Msg f → Option (Outcome f)
  event_handler c m =
      let trace : Trace = record { c1 = false; c2 = false; c3 = false; wl1 = 0 } in
      elim m.method [
        | nextcall_method ↦ next_call c trace m
        | completioncall_method ↦ completion_call c trace m
        | movecallin_method ↦ move_call_in c trace m
        | movecallout_method ↦ move_call_out c trace m
        | invalid_method ↦ none
      ]

module _ (tw_rand_reverse_unif : Clcg4 → Clcg4) where
  -- `RC_Cell_NextCall`.
  unfoldable pub rc_next_call : Cell → Trace → Cell
  rc_next_call c trace =
      let sv = record c.sv { call_attempts = dec c.sv.call_attempts } in
      let g = tw_rand_reverse_unif c.rng in
      if trace.c1
      then record {
        sv = record sv { channel_blocks = dec sv.channel_blocks };
        rng = reverse_moves tw_rand_reverse_unif (rounds trace.wl1) g;
      }
      else reverse_calls tw_rand_reverse_unif (rounds trace.wl1) (record {
        sv = record sv { normal_channels = inc sv.normal_channels };
        rng = tw_rand_reverse_unif g;
      })

  -- `RC_Cell_CompletionCall`.
  unfoldable pub rc_completion_call : Cell → Trace → Cell
  rc_completion_call c trace = record {
    sv =
        if trace.c1
        then record c.sv { normal_channels = dec c.sv.normal_channels }
        else if trace.c2
        then record c.sv { reserve_channels = dec c.sv.reserve_channels }
        else c.sv;
    rng = reverse_moves tw_rand_reverse_unif (rounds trace.wl1) c.rng;
  }

  -- `RC_Cell_MoveCallIn`.
  unfoldable pub rc_move_call_in : Cell → Trace → Cell
  rc_move_call_in c trace =
      let g = tw_rand_reverse_unif c.rng in
      let sv =
        if trace.c3
        then record c.sv { normal_channels = inc c.sv.normal_channels }
        else record c.sv { reserve_channels = inc c.sv.reserve_channels } in
      if not trace.c1
      then record c { rng = g }
      else if trace.c2
      then record {
        sv = record c.sv { handoff_blocks = dec c.sv.handoff_blocks };
        rng = reverse_moves tw_rand_reverse_unif (rounds trace.wl1) g;
      }
      else reverse_calls tw_rand_reverse_unif (rounds trace.wl1) (record { sv = sv; rng = g })

  -- `RC_Cell_MoveCallOut`.
  unfoldable pub rc_move_call_out : Cell → Trace → Cell
  rc_move_call_out c trace = record {
    sv =
        if not trace.c1
        then c.sv
        else if trace.c2
        then record c.sv { normal_channels = dec c.sv.normal_channels }
        else record c.sv { reserve_channels = dec c.sv.reserve_channels };
    rng = tw_rand_reverse_unif c.rng;
  }

  -- `RC_Cell_EventHandler`.
  unfoldable pub rc_event_handler : Method → Cell → Trace → Cell
  rc_event_handler method c trace = elim method [
    | nextcall_method ↦ rc_next_call c trace
    | completioncall_method ↦ rc_completion_call c trace
    | movecallin_method ↦ rc_move_call_in c trace
    | movecallout_method ↦ rc_move_call_out c trace
    | invalid_method ↦ c
  ]
