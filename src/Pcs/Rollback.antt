-- ===== src/Pcs/Rollback.antt =====
-- Each handler of the portables is taken back by its reverse handler: the state of the cell and its
-- random numbers are what they were.
use charades.Prelude.{
  ℕ, ◌+◌, ◌^◌, ◌<◌, ◌≡◌, refl, sym, ap, ◌∙◌, Bool, true, false, not, ◌&&◌, Bool-cases, ◌==◌, inl,
  inr, if◌then◌else◌, none, some, bind-some, arith,
}
use mathlib.Core.Option.{some-injective}
use charades.Clcg4.{Clcg4, draw}
use charades.Clcg4.Streams.{IsSeeded, prev-draw}
use charades.Random.{Floats, tw_rand_exponential, tw_rand_integer, tw_rand_unif}
use charades.Pcs.{
  State, Cell, Trace, inc, dec, Msg, compute_move, normal_ch, no_channel, reserve, is_normal_ch,
  is_reserve, nextcall_method, completioncall_method, movecallin_method, movecallout_method,
  invalid_method,
}
use charades.Pcs.Handlers.{
  Outcome, next_call, completion_call, move_call_in, moving, move_call_out, event_handler,
  rc_next_call, rc_completion_call, rc_move_call_in, rc_move_call_out, rc_event_handler,
}
use charades.Pcs.Reverse.{dec-inc}
use charades.Pcs.Undo.{IsCell, idle-reverse, in_call-reverse}
use charades.Pcs.Commuting.{
  inc-dec, rc_next_call-true, rc_next_call-false, rc_move_call_in-true, rc_move_call_in-false,
  served, moved_in,
}

module _ (f : Floats) (rev : Clcg4 → Clcg4)
    (rev-draw : (g : Clcg4) → IsSeeded g → rev (draw g) ≡ g) where
  module _ (fuel : ℕ) (enough : fuel < 2 ^ 31) (now : f.Double) (gid : ℕ) where
    abbrev clear : Trace
    clear = record { c1 = false; c2 = false; c3 = false; wl1 = 0 }

    abbrev blocked : Cell → Cell
    blocked c = record {
      sv = record c.sv {
        call_attempts = inc c.sv.call_attempts;
        channel_blocks = inc c.sv.channel_blocks;
      };
      rng = draw c.rng;
    }

    abbrev taken : Cell → Cell
    taken c = record {
      sv = record c.sv {
        call_attempts = inc c.sv.call_attempts;
        normal_channels = dec c.sv.normal_channels;
      };
      rng = draw (draw c.rng);
    }

    next_call-reverse :
        (c : Cell) (m : Msg f) (o : Outcome f)
        → IsCell c
        → next_call f fuel now gid c clear m ≡ some o
        → rc_next_call rev o.cell o.trace ≡ c
    unfolding next_call tw_rand_exponential tw_rand_unif
    next_call-reverse c m o (w, nc, rc, ca, cb, bl, hb) h =
        elim (Bool-cases (c.sv.normal_channels == 0)) [
          | inl e ↦
              (let (esv, eg, e1, e2) =
                  idle-reverse f rev rev-draw fuel enough now gid (blocked c)
                    (record clear { c1 = true })
                    (record m {
                      next_ts =
                          f.plus m.next_ts (f.log_scaled (f.of_int 360) (f.output (draw c.rng)));
                    })
                    o (prev-draw c.rng w).0 refl (ground arith) in
                rc_next_call-true rev o.cell o.trace e1
                ∙ ground (
                  arith,
                  esv,
                  eg,
                  rev-draw c.rng w,
                  dec-inc c.sv.call_attempts ca,
                  dec-inc c.sv.channel_blocks cb,
                ))
          | inr e ↦
              (let (ec, e1, e2, e3) =
                  in_call-reverse f rev rev-draw fuel enough now gid (taken c) clear
                    (record m {
                      channel = normal_ch;
                      completion_ts =
                          f.plus (f.log_scaled (f.of_int 180) (f.output (draw c.rng))) m.next_ts;
                      next_ts =
                          f.plus m.next_ts
                            (f.log_scaled (f.of_int 360) (f.output (draw (draw c.rng))));
                    })
                    o (prev-draw _ (prev-draw c.rng w).0).0 bl (omega arith) refl (ground arith) in
                rc_next_call-false rev o.cell o.trace e1
                ∙ ap (served rev) ec
                ∙ ground (
                  arith,
                  rev-draw (draw c.rng) (prev-draw c.rng w).0,
                  rev-draw c.rng w,
                  dec-inc c.sv.call_attempts ca,
                  inc-dec c.sv.normal_channels nc,
                ))
        ]

    -- The channel of a call that ends here is free again.
    abbrev freed : Bool → State → State
    freed normal sv =
        if normal
        then record sv { normal_channels = inc sv.normal_channels }
        else record sv { reserve_channels = inc sv.reserve_channels }

    completion_call-reverse :
        (c : Cell) (m : Msg f) (o : Outcome f)
        → IsCell c
        → completion_call f fuel now gid c clear m ≡ some o
        → rc_completion_call rev o.cell o.trace ≡ c
    unfolding completion_call rc_completion_call
    completion_call-reverse c m o (w, nc, rc, ca, cb, bl, hb) h =
        let normal = is_normal_ch m.channel in
        let (esv, eg, e1, e2) =
          idle-reverse f rev rev-draw fuel enough now gid (record c { sv = freed normal c.sv })
            (if normal
              then record clear { c1 = true }
              else record clear { c1 = false; c2 = is_reserve m.channel })
            (record m { completion_ts = f.huge_val; channel = no_channel }) o w (ground arith)
            (ground arith) in
        ground (arith, dec-inc c.sv.normal_channels nc, dec-inc c.sv.reserve_channels rc)

    -- A call that moves in gets a channel.
    abbrev given : Bool → State → State
    given normal sv =
        if normal
        then record sv { normal_channels = dec sv.normal_channels }
        else record sv { reserve_channels = dec sv.reserve_channels }

    move_call_in-reverse :
        (c : Cell) (m : Msg f) (o : Outcome f)
        → IsCell c
        → move_call_in f fuel now gid c clear m ≡ some o
        → rc_move_call_in rev o.cell o.trace ≡ c
    unfolding move_call_in tw_rand_exponential tw_rand_unif
    move_call_in-reverse c m o (w, nc, rc, ca, cb, bl, hb) h =
        let busy = (c.sv.normal_channels == 0) && (c.sv.reserve_channels == 0) in
        let normal = not (c.sv.normal_channels == 0) in
        let tmsg : Msg f = record m {
          move_ts = f.plus m.move_ts (f.log_scaled (f.of_int 4500) (f.output (draw c.rng)));
        } in
        elim (Bool-cases busy) [
          | inl e ↦
              (let (esv, eg, e1, e2) =
                  idle-reverse f rev rev-draw fuel enough now gid
                    (record {
                      sv = record c.sv { handoff_blocks = inc c.sv.handoff_blocks };
                      rng = draw c.rng;
                    })
                    (record clear { c1 = true; c2 = true })
                    (record tmsg { completion_ts = f.huge_val }) o (prev-draw c.rng w).0 refl
                    (ground arith) in
                rc_move_call_in-true rev o.cell o.trace e1 e2
                ∙ ground (arith, esv, eg, rev-draw c.rng w, dec-inc c.sv.handoff_blocks hb))
          | inr e ↦
              (let (ec, e1, e2, e3) =
                  in_call-reverse f rev rev-draw fuel enough now gid
                    (record { sv = given normal c.sv; rng = draw c.rng })
                    (record clear { c1 = true; c2 = false; c3 = normal })
                    (record tmsg { channel = if normal then normal_ch else reserve }) o
                    (prev-draw c.rng w).0 (ground arith) (ground arith) refl (ground arith) in
                rc_move_call_in-false rev o.cell o.trace e1 e2
                ∙ ap (moved_in rev o.trace.c3) ec
                ∙ ground (
                  arith,
                  rev-draw c.rng w,
                  inc-dec c.sv.normal_channels nc,
                  inc-dec c.sv.reserve_channels rc,
                ))
        ]

    move_call_out-reverse :
        (c : Cell) (m : Msg f) (o : Outcome f)
        → IsCell c
        → move_call_out f fuel now gid c clear m ≡ some o
        → rc_move_call_out rev o.cell o.trace ≡ c
    unfolding move_call_out rc_move_call_out moving tw_rand_integer tw_rand_unif
    move_call_out-reverse c m o (w, nc, rc, ca, cb, bl, hb) h =
        let normal = is_normal_ch m.channel in
        let c' : Cell = record { sv = freed normal c.sv; rng = draw c.rng } in
        let (n, _, e) =
          bind-some (compute_move gid (0 + f.scaled (f.output (draw c.rng)) 4))
            (λ n. some (moving f fuel now gid c' (record clear { c1 = true; c2 = normal }) m n)) o
            (ground arith) in
        let after = sym (some-injective _ _ e) in
        ap (λ o. rc_move_call_out rev o.cell o.trace) after
        ∙ ground (
          arith,
          rev-draw c.rng w,
          dec-inc c.sv.normal_channels nc,
          dec-inc c.sv.reserve_channels rc,
        )

    -- The handlers are reversible. Where tw_rand_reverse_unif takes a draw back, on a cell whose counters
    -- are words, and for fewer than 2^31 rounds of the loops: if the handler of an event returns, then the
    -- reverse handler, with the bits and the counter that it left, gives the state of the cell and its random
    -- numbers as they were.
    pub rc_event_handler-event_handler :
        (c : Cell) (m : Msg f) (o : Outcome f)
        → IsCell c
        → event_handler f fuel now gid c m ≡ some o
        → rc_event_handler rev m.method o.cell o.trace ≡ c
    unfolding event_handler rc_event_handler
    rc_event_handler-event_handler c m o w h =
        elim m.method
            as (λ k.
              (elim k [
                | nextcall_method ↦ next_call f fuel now gid c clear m
                | completioncall_method ↦ completion_call f fuel now gid c clear m
                | movecallin_method ↦ move_call_in f fuel now gid c clear m
                | movecallout_method ↦ move_call_out f fuel now gid c clear m
                | invalid_method ↦ none
              ])
                ≡ some o
              → rc_event_handler rev k o.cell o.trace ≡ c) [
                | nextcall_method ↦ next_call-reverse c m o w
                | completioncall_method ↦ completion_call-reverse c m o w
                | movecallin_method ↦ move_call_in-reverse c m o w
                | movecallout_method ↦ move_call_out-reverse c m o w
                | invalid_method ↦ λ e. absurd (ground arith)
              ]
          h
