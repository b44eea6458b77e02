-- ===== src/Pcs/Calls.antt =====
-- Part of models/pcs/pcs.C: the loop in which a cell serves a call, until the call ends or moves out.
-- The loop takes fuel, and `none` is running out of it.
use charades.Prelude.{ℕ, zero, suc, Option, none, some}
use charades.Clcg4.{Clcg4}
use charades.Random.{Floats, tw_rand_exponential}
use charades.Pcs.{
  Msg, completecall, nextcall, movecall, min_ts, Cell, Method, completioncall_method,
  movecallout_method, inc, dec,
}

-- What the loop changes: `M->RC.wl1`, the state of the cell with the generator, and the data `TMsg`.
pub record Calls (f : Floats) : Type 0 where
  pub wl1 : ℕ
  pub cell : Cell
  pub tmsg : Msg f

-- The event that ends the loop: its method, and the timestamp that its offset is computed from.
pub record Ending (f : Floats) : Type 0 where
  pub calls : Calls f
  pub method : Method
  pub ts : f.Double

module _ (f : Floats) where
  -- A call comes in while the line is busy.
  unfoldable pub call_round : Calls f → Calls f
  unfolding tw_rand_exponential
  call_round s =
      let (result, rng) = tw_rand_exponential f s.cell.rng (f.of_int 360) in
      record s {
        wl1 = inc s.wl1;
        cell = record {
          sv = record s.cell.sv {
            busy_lines = inc s.cell.sv.busy_lines;
            call_attempts = inc s.cell.sv.call_attempts;
          };
          rng = rng;
        };
        tmsg = record s.tmsg { next_ts = f.plus s.tmsg.next_ts result };
      }

  unfoldable pub call_loop : ℕ → Calls f → Option (Ending f)
  call_loop zero s = none
  call_loop (suc fuel) s =
      let rest = call_loop fuel (call_round s) in
      elim (min_ts f s.tmsg) [
        | completecall ↦
            some (record { calls = s; method = completioncall_method; ts = s.tmsg.completion_ts })
        | nextcall ↦ rest
        | movecall ↦ some (record { calls = s; method = movecallout_method; ts = s.tmsg.move_ts })
      ]

module _ (tw_rand_reverse_unif : Clcg4 → Clcg4) where
  -- A busy line and a random number are taken back in each round.
  unfoldable pub reverse_call : Cell → Cell
  reverse_call c = record {
    sv = record c.sv { busy_lines = dec c.sv.busy_lines; call_attempts = dec c.sv.call_attempts };
    rng = tw_rand_reverse_unif c.rng;
  }

  unfoldable pub reverse_calls : ℕ → Cell → Cell
  reverse_calls zero c = c
  reverse_calls (suc n) c = reverse_call (reverse_calls n c)
