-- ===== src/Pcs/Returns.antt =====
-- When the handlers of the portables return, for events with what the handlers assert.
use charades.Prelude.{
  ℕ, ◌+◌, ◌<◌, ◌≡◌, Bool, true, false, ◌&&◌, not, Bool-cases, ◌==◌, ◌⊎◌, inl, inr, if◌then◌else◌,
  some, arith,
}
use charades.Clcg4.{Clcg4, draw}
use charades.Random.{Floats, tw_rand_exponential, tw_rand_integer, tw_rand_unif}
use charades.Pcs.{
  Cell, Trace, Msg, inc, dec, normal_ch, reserve, no_channel, nextcall_method,
  completioncall_method, movecallin_method, movecallout_method, invalid_method,
}
use charades.Pcs.Grid.{compute_move_back}
use charades.Pcs.Handlers.{
  Outcome, next_call, completion_call, move_call_in, moving, move_call_out, event_handler,
}
use charades.Pcs.Loops.{IsScaled, moves_reach, calls_reach, idle_returns, in_call_returns}

module _ (f : Floats) (is : IsScaled f) where
  -- The timestamps of a call: the next call after it, and its end.
  abbrev later : f.Double → f.Double → Clcg4 → f.Double
  later ts mean g = f.plus ts (f.log_scaled mean (f.output g))

  -- The handler of an event takes no more than `n` rounds: the moves of a portable that is not in a call come to
  -- its next call, or the calls to a busy line come to its next move.
  abbrev pub IsReached : ℕ → Cell → Msg f → Type 0
  IsReached n c m =
      let move = later m.move_ts (f.of_int 4500) (draw c.rng) in
      let call = later m.next_ts (f.of_int 360) in
      let full = c.sv.normal_channels == 0 in
      (elim m.method as (λ x. Bool) [
        | nextcall_method ↦
            if full
            then moves_reach f is n m.move_ts (draw c.rng) (call (draw c.rng))
            else calls_reach f is n (call (draw (draw c.rng))) (draw (draw c.rng)) m.move_ts
        | completioncall_method ↦ moves_reach f is n m.move_ts c.rng m.next_ts
        | movecallin_method ↦
            if full && (c.sv.reserve_channels == 0)
            then moves_reach f is n move (draw c.rng) m.next_ts
            else calls_reach f is n m.next_ts (draw c.rng) move
        | movecallout_method ↦ true
        | invalid_method ↦ true
      ])
      ≡ true

  -- What the handlers assert of an event: one for the next call is in no call, one for the end of a call holds a
  -- normal channel, of which one is taken, and no reserved one is, and one that moves is in a call.
  abbrev pub IsAccepted : Cell → Msg f → Type 0
  IsAccepted c m =
      ((m.method ≡ nextcall_method) × (m.completion_ts ≡ f.huge_val))
      ⊎ (((m.method ≡ completioncall_method)
            × (m.channel ≡ normal_ch)
            × (c.sv.normal_channels < 10)
            × (c.sv.reserve_channels ≡ 0))
          ⊎ (((m.method ≡ movecallin_method) × (f.differs m.completion_ts f.huge_val ≡ true))
              ⊎ ((m.method ≡ movecallout_method)
                  × (f.differs m.completion_ts f.huge_val ≡ true)
                  × (m.channel ≡ normal_ch))))

  abbrev clear : Trace
  clear = record { c1 = false; c2 = false; c3 = false; wl1 = 0 }

  module _ (huge : (x : f.Double) → f.less f.huge_val x ≡ false) (fuel n : ℕ) (now : f.Double)
      (gid : ℕ) (b : n < fuel) where
    next_call_returns :
        (c : Cell) (m : Msg f)
        → gid < 65536
        → m.method ≡ nextcall_method
        → m.completion_ts ≡ f.huge_val
        → IsReached n c m
        → (o : Outcome f) × (next_call f fuel now gid c clear m ≡ some o)
    unfolding next_call tw_rand_exponential tw_rand_unif
    next_call_returns c m g k h w =
        let busy = c.sv.normal_channels == 0 in
        let sv = record c.sv { call_attempts = inc c.sv.call_attempts } in
        elim (Bool-cases busy) [
          | inl e ↦
              (let (o, ho) =
                  idle_returns f is fuel n now gid
                    (record {
                      sv = record sv { channel_blocks = inc sv.channel_blocks };
                      rng = draw c.rng;
                    })
                    (record clear { c1 = busy })
                    (record m { next_ts = later m.next_ts (f.of_int 360) (draw c.rng) }) g
                    (ground (arith, huge (later m.next_ts (f.of_int 360) (draw c.rng))))
                    (ground arith) b in
                (o, ground (arith, ho)))
          | inr e ↦
              (let (o, ho) =
                  in_call_returns f is fuel n now gid
                    (record {
                      sv = record sv { normal_channels = dec sv.normal_channels };
                      rng = draw (draw c.rng);
                    })
                    (record clear { c1 = busy })
                    (record m {
                      channel = normal_ch;
                      completion_ts =
                          f.plus (f.log_scaled (f.of_int 180) (f.output (draw c.rng))) m.next_ts;
                      next_ts = later m.next_ts (f.of_int 360) (draw (draw c.rng));
                    })
                    (ground arith) b in
                (o, ground (arith, ho)))
        ]

    completion_call_returns :
        (c : Cell) (m : Msg f)
        → gid < 65536
        → m.method ≡ completioncall_method
        → m.channel ≡ normal_ch
        → c.sv.normal_channels < 10
        → c.sv.reserve_channels ≡ 0
        → IsReached n c m
        → (o : Outcome f) × (completion_call f fuel now gid c clear m ≡ some o)
    unfolding completion_call
    completion_call_returns c m g k h l r w =
        let (o, ho) =
          idle_returns f is fuel n now gid
            (record c { sv = record c.sv { normal_channels = inc c.sv.normal_channels } })
            (record clear { c1 = true })
            (record m { completion_ts = f.huge_val; channel = no_channel }) g (huge m.next_ts)
            (ground arith) b in
        (o, ground (arith, ho))

    move_call_in_returns :
        (c : Cell) (m : Msg f)
        → gid < 65536
        → m.method ≡ movecallin_method
        → f.differs m.completion_ts f.huge_val ≡ true
        → IsReached n c m
        → (o : Outcome f) × (move_call_in f fuel now gid c clear m ≡ some o)
    unfolding move_call_in tw_rand_exponential tw_rand_unif
    move_call_in_returns c m g k d w =
        let busy = (c.sv.normal_channels == 0) && (c.sv.reserve_channels == 0) in
        let normal = not (c.sv.normal_channels == 0) in
        let tmsg : Msg f = record m { move_ts = later m.move_ts (f.of_int 4500) (draw c.rng) } in
        elim (Bool-cases busy) [
          | inl e ↦
              (let (o, ho) =
                  idle_returns f is fuel n now gid
                    (record {
                      sv = record c.sv { handoff_blocks = inc c.sv.handoff_blocks };
                      rng = draw c.rng;
                    })
                    (record clear { c1 = true; c2 = true })
                    (record tmsg { completion_ts = f.huge_val }) g (huge m.next_ts) (ground arith)
                    b in
                (o, ground (arith, ho)))
          | inr e ↦
              (let (o, ho) =
                  in_call_returns f is fuel n now gid
                    (record {
                      sv =
                          if normal
                          then record c.sv { normal_channels = dec c.sv.normal_channels }
                          else record c.sv { reserve_channels = dec c.sv.reserve_channels };
                      rng = draw c.rng;
                    })
                    (record clear { c1 = true; c2 = false; c3 = normal })
                    (record tmsg { channel = if normal then normal_ch else reserve }) (ground arith)
                    b in
                (o, ground (arith, ho)))
        ]

    move_call_out_returns :
        (c : Cell) (m : Msg f)
        → gid < 65536
        → f.differs m.completion_ts f.huge_val ≡ true
        → m.channel ≡ normal_ch
        → (o : Outcome f) × (move_call_out f fuel now gid c clear m ≡ some o)
    unfolding move_call_out tw_rand_integer tw_rand_unif
    move_call_out_returns c m g d h =
        let (n, e, k, _) =
          compute_move_back gid (0 + f.scaled (f.output (draw c.rng)) 4) g
            (omega (arith, is (draw c.rng))) in
        (
          moving f fuel now gid
              (record {
                sv = record c.sv { normal_channels = inc c.sv.normal_channels };
                rng = draw c.rng;
              })
              (record clear { c1 = true; c2 = true }) m n,
          ground (arith, e),
        )

    -- The handler returns, with any fuel above the number of exponential times that it needs. In a cell of the grid,
    -- for an event with what its handler asserts of it, and where n is such that the n exponential times drawn next
    -- bring the next move of a portable that is not in a call no less than to its next call, or the next call for
    -- one that is in a call no less than to its next move: with fuel above n the loops end and no assertion fails. It
    -- is assumed that HUGE_VAL is less than no number, and that a random number times 4, truncated, is below 4.
    pub event_handler_returns :
        (c : Cell) (m : Msg f)
        → gid < 65536
        → IsAccepted c m
        → IsReached n c m
        → (o : Outcome f) × (event_handler f fuel now gid c m ≡ some o)
    unfolding event_handler
    event_handler_returns c m g (inl (k, h)) w =
        let (o, e) = next_call_returns c m g k h w in (o, ground (arith, e))
    event_handler_returns c m g (inr (inl (k, h, l, r))) w =
        let (o, e) = completion_call_returns c m g k h l r w in (o, ground (arith, e))
    event_handler_returns c m g (inr (inr (inl (k, d)))) w =
        let (o, e) = move_call_in_returns c m g k d w in (o, ground (arith, e))
    event_handler_returns c m g (inr (inr (inr (k, d, h)))) w =
        let (o, e) = move_call_out_returns c m g d h in (o, ground (arith, e))
