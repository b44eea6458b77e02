-- ===== src/Pcs/Loops.antt =====
-- The loops over moves and over calls, and how many exponential times they need.
use charades.Prelude.{
  ℕ, zero, suc, ◌+◌, ◌<◌, ◌≡◌, Bool, true, false, not, Bool-cases, ◌⊎◌, inl, inr, some, arith,
}
use charades.Clcg4.{Clcg4, draw}
use charades.Random.{Floats, tw_rand_exponential, tw_rand_integer, tw_rand_unif}
use charades.Pcs.{
  Cell, Trace, Msg, min_ts, completecall, nextcall, movecall, nextcall_method,
  completioncall_method, movecallout_method,
}
use charades.Pcs.Grid.{compute_move_back}
use charades.Pcs.Moves.{Moves, moved, move_round, move_loop}
use charades.Pcs.Calls.{Calls, Ending, call_round, call_loop}
use charades.Pcs.Idle.{start}
use charades.Pcs.Handlers.{Outcome, until, after_moves, idle, after_calls, in_call}

-- The product of a random number and 4, truncated, is below 4.
abbrev pub IsScaled : Floats → Type 0
IsScaled f = (g : Clcg4) → f.scaled (f.output g) 4 < 4

-- A time after `n` exponential times have been added to it, one after the other; `advance` takes the random
-- numbers from one of these times to the next.
abbrev rise : (f : Floats) → (Clcg4 → Clcg4) → f.Double → ℕ → f.Double → Clcg4 → f.Double
rise f advance mean zero ts g = ts
rise f advance mean (suc n) ts g =
    rise f advance mean n (f.plus ts (f.log_scaled mean (f.output (advance g)))) (advance g)

-- A move draws its direction first.
abbrev move_draws : Clcg4 → Clcg4
move_draws g = draw (draw g)

module _ (f : Floats) (is : IsScaled f) where
  -- The next moves come to a time, and the next calls do.
  abbrev pub moves_reach : ℕ → f.Double → Clcg4 → f.Double → Bool
  moves_reach n ts g to = not (f.less (rise f move_draws (f.of_int 4500) n ts g) to)

  abbrev pub calls_reach : ℕ → f.Double → Clcg4 → f.Double → Bool
  calls_reach n ts g to = not (f.less (rise f draw (f.of_int 360) n ts g) to)

  round_returns :
      (s : Moves f)
      → s.newcell < 65536
      → (n : ℕ) × (n < 65536)
        × (move_round f s
            ≡ some (
                moved f s
                  (f.log_scaled (f.of_int 4500) (f.output (draw (draw s.rng))))
                  (draw (draw s.rng))
                  n))
  unfolding move_round tw_rand_exponential tw_rand_integer tw_rand_unif
  round_returns s h =
      let (n, e, k, _) =
        compute_move_back s.newcell (0 + f.scaled (f.output (draw s.rng)) 4) h
          (omega (arith, is (draw s.rng))) in
      (n, k, ground (arith, e))

  move_loop_returns :
      (fuel n : ℕ) (s : Moves f)
      → s.newcell < 65536
      → moves_reach n s.tmsg.move_ts s.rng s.tmsg.next_ts ≡ true
      → n < fuel
      → (r : Moves f) × (move_loop f fuel s ≡ some r)
  unfolding move_loop moved
  move_loop_returns zero n s h w b = absurd (omega arith)
  move_loop_returns (suc fuel) zero s h w b = (s, ground arith)
  move_loop_returns (suc fuel) (suc n) s h w b =
      elim (Bool-cases (f.less s.tmsg.move_ts s.tmsg.next_ts)) [
        | inl e ↦
            (let (k, l, q) = round_returns s h in
              let x = f.log_scaled (f.of_int 4500) (f.output (draw (draw s.rng))) in
              let s' = moved f s x (draw (draw s.rng)) k in
              let (r, hr) = move_loop_returns fuel n s' l w (omega arith) in
              (r, ground (arith, q, hr)))
        | inr e ↦ (s, ground arith)
      ]

  pub idle_returns :
      (fuel n : ℕ) (now : f.Double) (gid : ℕ) (c : Cell) (t : Trace) (m : Msg f)
      → gid < 65536
      → f.less m.completion_ts m.next_ts ≡ false
      → moves_reach n m.move_ts c.rng m.next_ts ≡ true
      → n < fuel
      → (o : Outcome f) × (idle f fuel now gid c t m ≡ some o)
  unfolding idle min_ts
  idle_returns fuel n now gid c t m h l w b =
      let (r, e) = move_loop_returns fuel n (start f fuel now gid c t m) h w b in
      elim (Bool-cases (f.less m.next_ts m.move_ts)) [
        | inl k ↦ (
          record {
            cell = c;
            trace = t;
            sent = record {
              dest = gid;
              offset = until f fuel now gid m.next_ts;
              msg = record m { method = nextcall_method };
            };
          },
          ground arith,
        )
        | inr k ↦ (after_moves f fuel now gid c.sv t r, ground (arith, e))
      ]

  min_ts-cases :
      (m : Msg f)
      → (min_ts f m ≡ completecall)
        ⊎ ((min_ts f m ≡ movecall)
            ⊎ ((min_ts f m ≡ nextcall) × (f.less m.next_ts m.move_ts ≡ true)))
  unfolding min_ts
  min_ts-cases m = ground arith

  call_loop_returns :
      (fuel n : ℕ) (s : Calls f)
      → calls_reach n s.tmsg.next_ts s.cell.rng s.tmsg.move_ts ≡ true
      → n < fuel
      → (e : Ending f) × (call_loop f fuel s ≡ some e)
  unfolding call_loop call_round tw_rand_exponential tw_rand_unif
  call_loop_returns zero n s w b = absurd (omega arith)
  call_loop_returns (suc fuel) zero s w b = elim (min_ts-cases s.tmsg) [
    | inl k ↦ (
      record { calls = s; method = completioncall_method; ts = s.tmsg.completion_ts },
      ground (arith, k),
    )
    | inr (inl k) ↦
        (record { calls = s; method = movecallout_method; ts = s.tmsg.move_ts }, ground (arith, k))
    | inr (inr (k, l)) ↦ absurd (ground arith)
  ]
  call_loop_returns (suc fuel) (suc n) s w b = elim (min_ts-cases s.tmsg) [
    | inl k ↦ (
      record { calls = s; method = completioncall_method; ts = s.tmsg.completion_ts },
      ground (arith, k),
    )
    | inr (inl k) ↦
        (record { calls = s; method = movecallout_method; ts = s.tmsg.move_ts }, ground (arith, k))
    | inr (inr (k, l)) ↦
        (let (e, he) = call_loop_returns fuel n (call_round f s) w (omega arith) in
          (e, ground (arith, k, he)))
  ]

  pub in_call_returns :
      (fuel n : ℕ) (now : f.Double) (gid : ℕ) (c : Cell) (t : Trace) (m : Msg f)
      → calls_reach n m.next_ts c.rng m.move_ts ≡ true
      → n < fuel
      → (o : Outcome f) × (in_call f fuel now gid c t m ≡ some o)
  unfolding in_call
  in_call_returns fuel n now gid c t m w b =
      let (e, h) = call_loop_returns fuel n (record { wl1 = t.wl1; cell = c; tmsg = m }) w b in
      (after_calls f fuel now gid t e, ground (arith, h))
