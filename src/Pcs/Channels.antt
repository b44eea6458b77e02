-- ===== src/Pcs/Channels.antt =====
-- Where the channels of a cell are: each is free, or held by an event on its way to the cell.
use charades.Prelude.{
  ℕ, zero, suc, ◌+◌, ◌^◌, ◌<◌, ◌≡◌, refl, sym, ap, ◌∙◌, Bool, true, false, not, ◌&&◌, Bool-cases,
  ◌==◌, ◌⊎◌, inl, inr, if◌then◌else◌, some, bind-some, arith,
}
use mathlib.Core.Option.{some-injective}
use charades.Clcg4.{draw}
use charades.Random.{Floats, tw_rand_exponential, tw_rand_integer, tw_rand_unif}
use charades.Pcs.{
  Cell, Trace, inc, dec, Msg, compute_move, normal_ch, no_channel, reserve, is_normal_ch,
  is_reserve, Channel, Method, nextcall_method, completioncall_method, movecallin_method,
  movecallout_method, invalid_method,
}
use charades.Pcs.Calls.{Calls, Ending, call_round, call_loop}
use charades.Pcs.Idle.{idle-cases, in_call-ending}
use charades.Pcs.Handlers.{
  Outcome, after_moves, idle, after_calls, in_call, next_call, completion_call, move_call_in,
  moving, move_call_out, event_handler,
}

-- The channels that an event holds, of the kind that the test selects: one while its call is under way.
unfoldable pub held : (f : Floats) → (Channel → Bool) → Msg f → ℕ
held f kind m = elim m.method [
  | completioncall_method ↦ if kind m.channel then 1 else 0
  | movecallout_method ↦ if kind m.channel then 1 else 0
  | nextcall_method ↦ 0
  | movecallin_method ↦ 0
  | invalid_method ↦ 0
]

-- The channels of a cell before and after an event are the same, counting those that the event held
-- and those that the event it sends holds; and only an event to the cell itself holds any.
abbrev pub IsKept : (f : Floats) → ℕ → Cell → Msg f → Outcome f → Type 0
IsKept f gid c m o =
    (o.cell.sv.normal_channels + held f is_normal_ch o.sent.msg
      ≡ c.sv.normal_channels + held f is_normal_ch m)
    × (o.cell.sv.reserve_channels + held f is_reserve o.sent.msg
        ≡ c.sv.reserve_channels + held f is_reserve m)
    × ((o.sent.dest ≡ gid)
        ⊎ ((held f is_normal_ch o.sent.msg ≡ 0) × (held f is_reserve o.sent.msg ≡ 0)))

method-cases :
    (k : Method)
    → (k ≡ nextcall_method)
      ⊎ ((k ≡ completioncall_method)
          ⊎ ((k ≡ movecallin_method) ⊎ ((k ≡ movecallout_method) ⊎ (k ≡ invalid_method))))
method-cases nextcall_method = inl refl
method-cases completioncall_method = inr (inl refl)
method-cases movecallin_method = inr (inr (inl refl))
method-cases movecallout_method = inr (inr (inr (inl refl)))
method-cases invalid_method = inr (inr (inr (inr refl)))

module _ (f : Floats) (fuel : ℕ) (now : f.Double) (gid : ℕ) where
  -- A portable that is not in a call holds no channel.
  pub idle-held :
      (c : Cell) (t : Trace) (m : Msg f) (o : Outcome f)
      → idle f fuel now gid c t m ≡ some o
      → (o.cell.sv ≡ c.sv)
        × (held f is_normal_ch o.sent.msg ≡ 0)
        × (held f is_reserve o.sent.msg ≡ 0)
  unfolding after_moves held
  idle-held c t m o h = elim (idle-cases f fuel now gid c t m o h) [
    | inl (ec, _, em) ↦ (ap (λ c. c.sv) ec, ground arith, ground arith)
    | inr (r, e, q) ↦ (
      ap (λ o. o.cell.sv) q,
      ap (λ o. held f is_normal_ch o.sent.msg) q,
      ap (λ o. held f is_reserve o.sent.msg) q,
    )
  ]

  held-is :
      (kind : Channel → Bool) (m : Msg f)
      → ((m.method ≡ completioncall_method) ⊎ (m.method ≡ movecallout_method))
      → held f kind m ≡ (if kind m.channel then 1 else 0)
  unfolding held
  held-is kind m h = ground arith

  call_loop-kept :
      (n : ℕ) (s : Calls f) (e : Ending f)
      → call_loop f n s ≡ some e
      → (e.calls.cell.sv.normal_channels ≡ s.cell.sv.normal_channels)
        × (e.calls.cell.sv.reserve_channels ≡ s.cell.sv.reserve_channels)
        × (e.calls.tmsg.channel ≡ s.tmsg.channel)
        × ((e.method ≡ completioncall_method) ⊎ (e.method ≡ movecallout_method))
  unfolding call_loop call_round
  call_loop-kept zero s e h = absurd (ground arith)
  call_loop-kept (suc n) s e h = ground (arith, call_loop-kept n (call_round f s) e)

  -- A call under way keeps the channels of the cell, and its event to the cell holds the channel.
  in_call-held :
      (c : Cell) (t : Trace) (m : Msg f) (o : Outcome f)
      → in_call f fuel now gid c t m ≡ some o
      → (o.cell.sv.normal_channels ≡ c.sv.normal_channels)
        × (o.cell.sv.reserve_channels ≡ c.sv.reserve_channels)
        × (held f is_normal_ch o.sent.msg ≡ (if is_normal_ch m.channel then 1 else 0))
        × (held f is_reserve o.sent.msg ≡ (if is_reserve m.channel then 1 else 0))
        × (o.sent.dest ≡ gid)
  unfolding after_calls
  in_call-held c t m o h =
      let (e, r, q) = in_call-ending f fuel now gid c t m o h in
      let (en, er, ec, em) = call_loop-kept fuel (record { wl1 = t.wl1; cell = c; tmsg = m }) e r in
      let m' : Msg f = record e.calls.tmsg { method = e.method } in
      (
        ap (λ o. o.cell.sv.normal_channels) q ∙ en,
        ap (λ o. o.cell.sv.reserve_channels) q ∙ er,
        ap (λ o. held f is_normal_ch o.sent.msg) q
            ∙ held-is is_normal_ch m' em
            ∙ ap (λ c. if is_normal_ch c then 1 else 0) ec,
        ap (λ o. held f is_reserve o.sent.msg) q
            ∙ held-is is_reserve m' em
            ∙ ap (λ c. if is_reserve c then 1 else 0) ec,
        ap (λ o. o.sent.dest) q,
      )

  abbrev clear : Trace
  clear = record { c1 = false; c2 = false; c3 = false; wl1 = 0 }

  next_call-IsKept :
      (c : Cell) (m : Msg f) (o : Outcome f)
      → m.method ≡ nextcall_method
      → c.sv.normal_channels < 2 ^ 32
      → next_call f fuel now gid c clear m ≡ some o
      → IsKept f gid c m o
  unfolding next_call tw_rand_exponential tw_rand_unif held
  next_call-IsKept c m o k b h =
      let busy = c.sv.normal_channels == 0 in
      let sv = record c.sv { call_attempts = inc c.sv.call_attempts } in
      elim (Bool-cases busy) [
        | inl e ↦
            (let (esv, hn, hr) =
                idle-held
                  (record {
                    sv = record sv { channel_blocks = inc sv.channel_blocks };
                    rng = draw c.rng;
                  })
                  (record clear { c1 = busy })
                  (record m {
                    next_ts =
                        f.plus m.next_ts (f.log_scaled (f.of_int 360) (f.output (draw c.rng)));
                  })
                  o (ground arith) in
              (ground arith, ground arith, inr (hn, hr)))
        | inr e ↦
            (let (en, er, hn, hr, ed) =
                in_call-held
                  (record {
                    sv = record sv { normal_channels = dec sv.normal_channels };
                    rng = draw (draw c.rng);
                  })
                  (record clear { c1 = busy })
                  (record m {
                    channel = normal_ch;
                    completion_ts =
                        f.plus (f.log_scaled (f.of_int 180) (f.output (draw c.rng))) m.next_ts;
                    next_ts =
                        f.plus m.next_ts
                          (f.log_scaled (f.of_int 360) (f.output (draw (draw c.rng))));
                  })
                  o (ground arith) in
              (ground arith, ground arith, inl ed))
      ]

  completion_call-IsKept :
      (c : Cell) (m : Msg f) (o : Outcome f)
      → m.method ≡ completioncall_method
      → c.sv.normal_channels + held f is_normal_ch m < 2 ^ 32
      → c.sv.reserve_channels + held f is_reserve m < 2 ^ 32
      → completion_call f fuel now gid c clear m ≡ some o
      → IsKept f gid c m o
  unfolding completion_call
  completion_call-IsKept c m o k b b' h =
      let normal = is_normal_ch m.channel in
      let res = is_reserve m.channel in
      let (esv, hn, hr) =
        idle-held
          (record c {
            sv =
                if normal
                then record c.sv { normal_channels = inc c.sv.normal_channels }
                else record c.sv { reserve_channels = inc c.sv.reserve_channels };
          })
          (if normal
            then record clear { c1 = true }
            else record clear { c1 = false; c2 = is_reserve m.channel })
          (record m { completion_ts = f.huge_val; channel = no_channel }) o (ground arith) in
      (
        ground (arith, held-is is_normal_ch m (inl k)),
        ground (arith, held-is is_reserve m (inl k), held-is is_normal_ch m (inl k)),
        inr (hn, hr),
      )

  move_call_in-IsKept :
      (c : Cell) (m : Msg f) (o : Outcome f)
      → m.method ≡ movecallin_method
      → c.sv.normal_channels < 2 ^ 32
      → c.sv.reserve_channels < 2 ^ 32
      → move_call_in f fuel now gid c clear m ≡ some o
      → IsKept f gid c m o
  unfolding move_call_in tw_rand_exponential tw_rand_unif held
  move_call_in-IsKept c m o k b b' h =
      let normal = not (c.sv.normal_channels == 0) in
      let busy = (c.sv.normal_channels == 0) && (c.sv.reserve_channels == 0) in
      let tmsg : Msg f = record m {
        move_ts = f.plus m.move_ts (f.log_scaled (f.of_int 4500) (f.output (draw c.rng)));
      } in
      elim (Bool-cases busy) [
        | inl e ↦
            (let (esv, hn, hr) =
                idle-held
                  (record {
                    sv = record c.sv { handoff_blocks = inc c.sv.handoff_blocks };
                    rng = draw c.rng;
                  })
                  (record clear { c1 = true; c2 = true })
                  (record tmsg { completion_ts = f.huge_val }) o (ground arith) in
              (ground arith, ground arith, inr (hn, hr)))
        | inr e ↦
            (let (en, er, hn, hr, ed) =
                in_call-held
                  (record {
                    sv =
                        if normal
                        then record c.sv { normal_channels = dec c.sv.normal_channels }
                        else record c.sv { reserve_channels = dec c.sv.reserve_channels };
                    rng = draw c.rng;
                  })
                  (record clear { c1 = true; c2 = false; c3 = normal })
                  (record tmsg { channel = if normal then normal_ch else reserve }) o
                  (ground arith) in
              (ground arith, ground arith, inl ed))
      ]

  move_call_out-IsKept :
      (c : Cell) (m : Msg f) (o : Outcome f)
      → m.method ≡ movecallout_method
      → c.sv.normal_channels + held f is_normal_ch m < 2 ^ 32
      → c.sv.reserve_channels + held f is_reserve m < 2 ^ 32
      → move_call_out f fuel now gid c clear m ≡ some o
      → IsKept f gid c m o
  unfolding move_call_out moving tw_rand_integer tw_rand_unif held
  move_call_out-IsKept c m o k b b' h =
      let normal = is_normal_ch m.channel in
      let sv =
        if normal
        then record c.sv { normal_channels = inc c.sv.normal_channels }
        else record c.sv { reserve_channels = inc c.sv.reserve_channels } in
      let (n, _, e) =
        bind-some (compute_move gid (0 + f.scaled (f.output (draw c.rng)) 4))
          (λ n. some (
            moving f fuel now gid (record { sv = sv; rng = draw c.rng })
              (record clear { c1 = true; c2 = normal }) m n))
          o (ground arith) in
      let q = sym (some-injective _ _ e) in
      (
        ground (arith, held-is is_normal_ch m (inr k)),
        ground (arith, held-is is_reserve m (inr k), held-is is_normal_ch m (inr k)),
        inr (ground arith, ground arith),
      )

  pub event_handler-IsKept :
      (c : Cell) (m : Msg f) (o : Outcome f)
      → c.sv.normal_channels + held f is_normal_ch m < 2 ^ 32
      → c.sv.reserve_channels + held f is_reserve m < 2 ^ 32
      → event_handler f fuel now gid c m ≡ some o
      → IsKept f gid c m o
  unfolding event_handler
  event_handler-IsKept c m o b b' h = elim (method-cases m.method) [
    | inl k ↦ next_call-IsKept c m o k (omega arith) (ground arith)
    | inr (inl k) ↦ completion_call-IsKept c m o k b b' (ground arith)
    | inr (inr (inl k)) ↦ move_call_in-IsKept c m o k (omega arith) (omega arith) (ground arith)
    | inr (inr (inr (inl k))) ↦ move_call_out-IsKept c m o k b b' (ground arith)
    | inr (inr (inr (inr k))) ↦ absurd (ground arith)
  ]
