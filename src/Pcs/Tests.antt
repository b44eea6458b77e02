-- ===== src/Pcs/Tests.antt =====
-- Runs of the portables on numbers in place of floating-point numbers, and the theorems there.
use charades.Prelude.{
  ℕ, ◌+◌, ◌-◌, ◌*◌, ◌/◌, ◌%◌, ◌<◌, ◌≡◌, refl, true, false, not, ◌&&◌, ltb, ◌==◌, if◌then◌else◌, inl,
  Option, none, some, List, [], ◌∷◌, ◌++◌, write, arith,
}
use charades.Clcg4.{Clcg4, draw, prev, step}
use charades.Clcg4.Streams.{IsSeeded, prev-draw}
use charades.Random.{Floats, tw_rand_exponential, tw_rand_integer, tw_rand_unif}
use charades.Pcs.{
  compute_move, grid_map, local_map, init_map, Cell, Msg, Send, min_ts, nextcall_method,
  completioncall_method, no_channel, normal_ch,
}
use charades.Pcs.Grid.{init-maps, compute_move_back, opposite}
use charades.Pcs.Moves.{moved, move_round, move_loop}
use charades.Pcs.Calls.{call_round, call_loop}
use charades.Pcs.Handlers.{
  Outcome, until, after_moves, idle, after_calls, in_call, next_call, completion_call,
  event_handler, rc_event_handler,
}
use charades.Pcs.Rollback.{rc_event_handler-event_handler}
use charades.Pcs.StartUp.{init_state, start_portable, start_loop, start_up}
use charades.Pcs.Network.{
  Network, Step, handle, here, there, no_cell, one_cell, IsBalanced, Reached-IsBalanced,
  completion_call_accepts,
}
use charades.Pcs.Returns.{event_handler_returns}
use charades.Pcs.Ties.{idle_tie}

-- Whole numbers, with the largest for HUGE_VAL, and thousandths for the numbers below 1.
abbrev whole : Floats
whole = record {
  Double = ℕ;
  less = λ x y. ltb x y && ltb x 1000000000;
  differs = λ x y. not (x == y);
  plus = λ x y. x + y;
  minus = λ x y. x - y;
  fmax = λ x y. if ltb x y then y else x;
  of_int = λ n. n;
  huge_val = 1000000000;
  output = λ g. g.cg.s0 % 1000;
  log_scaled = λ l u. (l * u) / 1000;
  scaled = λ u n. (u * n) / 1000;
}

abbrev seeded : Clcg4
seeded = record {
  cg = record { s0 = 11111111; s1 = 22222222; s2 = 33333333; s3 = 44444444 };
  count = 0;
}

seeded-IsSeeded : IsSeeded seeded
seeded-IsSeeded = (omega arith, omega arith, omega arith, omega arith, omega arith)

abbrev cell : Cell
cell = record { sv = init_state 257; rng = seeded }

abbrev next : Msg whole
next = record {
  method = nextcall_method;
  completion_ts = 1000000000;
  next_ts = 20;
  move_ts = 700;
  channel = no_channel;
}

-- The outcome of a run.
abbrev of_run : Option (Outcome whole) → Outcome whole
of_run (some o) = o
of_run none = record {
  cell = cell;
  trace = record { c1 = false; c2 = false; c3 = false; wl1 = 0 };
  sent = record { dest = 0; offset = 0; msg = next };
}

abbrev first : Outcome whole
first = of_run (event_handler whole 100 20 257 cell next)

-- The first call is served here, with another that comes in while the line is busy.
first_run : event_handler whole 100 20 257 cell next ≡ some first
unfolding init_state event_handler next_call in_call after_calls idle call_loop call_round until
    tw_rand_exponential tw_rand_unif draw step min_ts
first_run = refl

first_calls : first.trace.wl1 ≡ 1
unfolding init_state event_handler next_call in_call after_calls idle call_loop call_round until
    tw_rand_exponential tw_rand_unif draw step min_ts
first_calls = refl

undo : (g : Clcg4) → IsSeeded g → prev (draw g) ≡ g
undo g w = (prev-draw g w).1

rc_event_handler-event_handler_example :
    rc_event_handler prev nextcall_method first.cell first.trace ≡ cell
unfolding init_state
rc_event_handler-event_handler_example =
    rc_event_handler-event_handler whole prev undo 100 (omega arith) 20 257 cell next first
      (
        seeded-IsSeeded,
        omega arith,
        omega arith,
        omega arith,
        omega arith,
        omega arith,
        omega arith,
      )
      first_run

init-maps_example :
    (grid_map 1000 < 4096)
    × (local_map 1000 < 16)
    × (init_map (grid_map 1000) (local_map 1000) ≡ 1000)
init-maps_example = init-maps 1000 (omega arith)

compute_move_back_example :
    (n : ℕ) × (compute_move 0 2 ≡ some n) × (n < 65536) × (compute_move n (opposite 2) ≡ some 0)
compute_move_back_example = compute_move_back 0 2 (omega arith) (omega arith)

-- Four exponential times bring the next call past the next move.
event_handler_returns_example :
    (o : Outcome whole) × (event_handler whole 5 20 257 cell next ≡ some o)
unfolding init_state draw step
event_handler_returns_example =
    event_handler_returns whole (λ g. omega arith) (λ x. ground arith) 5 4 20 257 (omega arith) cell
      next (omega arith) (inl (refl, refl)) refl

idle_tie_example :
    (o : Outcome whole) × (idle whole 3 20 257 cell
        (record { c1 = false; c2 = false; c3 = false; wl1 = 0 })
        (record next { move_ts = 20 })
      ≡ some o)
    × (o.sent.dest ≡ 0)
idle_tie_example =
    idle_tie whole 2 20 257 cell (record { c1 = false; c2 = false; c3 = false; wl1 = 0 })
      (record next { move_ts = 20 }) refl refl refl

-- The events that cell 257 starts with.
abbrev opening : List (Send whole)
opening = elim (start_up whole 5000 0 no_channel 257 seeded) as (λ r. List (Send whole)) [
  | some r ↦ r.1
  | none ↦ []
]

abbrev opening_cell : Cell
opening_cell = elim (start_up whole 5000 0 no_channel 257 seeded) as (λ r. Cell) [
  | some r ↦ r.0
  | none ↦ cell
]

opened : start_up whole 5000 0 no_channel 257 seeded ≡ some (opening_cell, opening)
unfolding start_up start_loop start_portable init_state after_moves idle move_loop move_round moved
    compute_move until tw_rand_exponential tw_rand_integer tw_rand_unif draw step min_ts
opened = refl

abbrev head_of : List (Send whole) → Send whole
head_of [] = first.sent
head_of (e ∷ es) = e

abbrev tail_of : List (Send whole) → List (Send whole)
tail_of [] = []
tail_of (e ∷ es) = es

abbrev start_cells : ℕ → Cell
start_cells c = record { sv = init_state c; rng = seeded }

abbrev start_network : Network whole
start_network = record { cells = start_cells; pending = opening ++ [] }

abbrev second : Outcome whole
second = of_run (event_handler whole 100 20 257 (start_cells 257) (head_of opening).msg)

abbrev next_network : Network whole
next_network = record {
  cells = write start_cells 257 second.cell;
  pending = second.sent ∷ tail_of opening;
}

next_Step : Step whole start_network next_network
unfolding event_handler next_call in_call after_calls call_loop call_round start_up start_loop
    start_portable init_state after_moves idle move_loop move_round moved compute_move until
    tw_rand_exponential tw_rand_integer tw_rand_unif draw step min_ts
next_Step = handle 100 20 start_cells [] (tail_of opening) (head_of opening) second refl

Reached-IsBalanced_example : IsBalanced whole next_network
Reached-IsBalanced_example =
    Reached-IsBalanced whole start_network next_network (λ c. refl)
      (one_cell 5000 0 no_channel 257 seeded opening_cell opening [] opened no_cell)
      (there start_network next_network here next_Step)

second_completes :
    (second.sent.msg.method ≡ completioncall_method) × (second.sent.msg.channel ≡ normal_ch)
unfolding event_handler next_call in_call after_calls call_loop call_round start_up start_loop
    start_portable init_state after_moves idle move_loop move_round moved compute_move until
    tw_rand_exponential tw_rand_integer tw_rand_unif draw step min_ts
second_completes = (refl, refl)

completion_call_accepts_example :
    completion_call whole 5000 200 second.sent.dest
      (next_network.cells second.sent.dest)
      first.trace
      second.sent.msg
    ≡ idle whole 5000 200 second.sent.dest
        (record (next_network.cells second.sent.dest) {
          sv = record (next_network.cells second.sent.dest).sv {
            normal_channels = (next_network.cells second.sent.dest).sv.normal_channels + 1;
          };
        })
        (record first.trace { c1 = true })
        (record second.sent.msg { completion_ts = 1000000000; channel = no_channel })
completion_call_accepts_example =
    completion_call_accepts whole start_network next_network (λ c. refl)
      (one_cell 5000 0 no_channel 257 seeded opening_cell opening [] opened no_cell)
      (there start_network next_network here next_Step) [] (tail_of opening) second.sent refl
      second_completes.0 second_completes.1 5000 200 first.trace
