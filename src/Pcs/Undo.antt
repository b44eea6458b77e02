-- ===== src/Pcs/Undo.antt =====
-- Each handler of the portables is taken back by its reverse handler.
use charades.Prelude.{ℕ, ◌+◌, ◌^◌, ◌<◌, ◌≡◌, ap, ◌∙◌, inl, inr, some, arith}
use charades.Clcg4.{Clcg4, draw}
use charades.Clcg4.Streams.{IsSeeded}
use charades.Random.{Floats}
use charades.Pcs.{Cell, Trace, Msg}
use charades.Pcs.Moves.{rounds, reverse_moves}
use charades.Pcs.Calls.{reverse_calls}
use charades.Pcs.Handlers.{Outcome, after_moves, idle, after_calls, in_call}
use charades.Pcs.Idle.{start, idle-cases, in_call-ending}
use charades.Pcs.Reverse.{reverse_moves-move_loop, reverse_calls-call_loop}

-- The counters of a cell are words, and its seeds are below their moduli.
abbrev pub IsCell : Cell → Type 0
IsCell c =
    IsSeeded c.rng
    × (c.sv.normal_channels < 2 ^ 32)
    × (c.sv.reserve_channels < 2 ^ 32)
    × (c.sv.call_attempts < 2 ^ 32)
    × (c.sv.channel_blocks < 2 ^ 32)
    × (c.sv.busy_lines < 2 ^ 32)
    × (c.sv.handoff_blocks < 2 ^ 32)

counted : {z : ℕ} (k n : ℕ) → k < 2 ^ 31 → n ≡ z + k → z ≡ 0 → rounds n ≡ k
counted k n h e z = ground arith

module _ (f : Floats) (rev : Clcg4 → Clcg4)
    (rev-draw : (g : Clcg4) → IsSeeded g → rev (draw g) ≡ g) where
  module _ (fuel : ℕ) (enough : fuel < 2 ^ 31) (now : f.Double) (gid : ℕ) where
    -- A portable that is not in a call leaves the state of the cell, and the bits.
    pub idle-reverse :
        (c : Cell) (t : Trace) (m : Msg f) (o : Outcome f)
        → IsSeeded c.rng
        → t.wl1 ≡ 0
        → idle f fuel now gid c t m ≡ some o
        → (o.cell.sv ≡ c.sv)
          × (reverse_moves rev (rounds o.trace.wl1) o.cell.rng ≡ c.rng)
          × (o.trace.c1 ≡ t.c1)
          × (o.trace.c2 ≡ t.c2)
    unfolding idle after_moves reverse_moves
    idle-reverse c t m o w z h = elim (idle-cases f fuel now gid c t m o h) [
      | inl (ec, et, _) ↦ (ap (λ c. c.sv) ec, ground arith, ap (λ t. t.c1) et, ap (λ t. t.c2) et)
      | inr (r, e, after) ↦
          (let (k, kw, kb, kr) =
              reverse_moves-move_loop f rev rev-draw fuel (start f fuel now gid c t m) r w
                (omega arith) e in
            (
              ap (λ o. o.cell.sv) after,
              ap (λ o. reverse_moves rev (rounds o.trace.wl1) o.cell.rng) after
                  ∙ ap (λ n. reverse_moves rev n r.rng) (counted k r.wl1 (omega arith) kw z)
                  ∙ kr,
              ap (λ o. o.trace.c1) after,
              ap (λ o. o.trace.c2) after,
            ))
    ]

    pub in_call-reverse :
        (c : Cell) (t : Trace) (m : Msg f) (o : Outcome f)
        → IsSeeded c.rng
        → c.sv.busy_lines < 2 ^ 32
        → c.sv.call_attempts < 2 ^ 32
        → t.wl1 ≡ 0
        → in_call f fuel now gid c t m ≡ some o
        → (reverse_calls rev (rounds o.trace.wl1) o.cell ≡ c)
          × (o.trace.c1 ≡ t.c1)
          × (o.trace.c2 ≡ t.c2)
          × (o.trace.c3 ≡ t.c3)
    unfolding in_call after_calls
    in_call-reverse c t m o w bl ca z h =
        let (e, r, after) = in_call-ending f fuel now gid c t m o h in
        let (k, kw, kb, kr) =
          reverse_calls-call_loop f rev rev-draw fuel (record { wl1 = t.wl1; cell = c; tmsg = m }) e
            w bl ca (omega arith) r in
        (
          ap (λ o. reverse_calls rev (rounds o.trace.wl1) o.cell) after
              ∙ ap (λ n. reverse_calls rev n e.calls.cell)
                  (counted k e.calls.wl1 (omega arith) kw z)
              ∙ kr,
          ap (λ o. o.trace.c1) after,
          ap (λ o. o.trace.c2) after,
          ap (λ o. o.trace.c3) after,
        )
