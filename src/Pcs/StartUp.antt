-- ===== src/Pcs/StartUp.antt =====
-- Part of models/pcs/pcs.C: the state of a cell at the start, and its portables.
use charades.Prelude.{
  ℕ, zero, suc, ◌+◌, ◌/◌, ◌%◌, Bool, false, ltb, ◌==◌, if◌then◌else◌, ◌≡◌, ap, sym, ◌∙◌, Option,
  none, some, ◌>>=◌, bind-some, List, [], ◌∷◌, arith,
}
use mathlib.Core.Option.{some-injective}
use charades.Clcg4.{Clcg4}
use charades.Random.{Floats, tw_rand_exponential}
use charades.Pcs.{
  Send, State, Cell, Channel, nextcall_method, num_cells, max_normal_channels, max_reserve_channels,
  is_normal_ch, is_reserve,
}
use charades.Pcs.Handlers.{Outcome, idle}
use charades.Pcs.Channels.{held, idle-held}

-- `GenInitPortables` returns 16. Where a cell lies beyond the grid in the second direction,
-- `Cell_StartUp` ends with `tw_error`.
unfoldable pub init_state : ℕ → State
init_state gid = record {
  normal_channels = max_normal_channels;
  reserve_channels = max_reserve_channels;
  portables_in = 16;
  portables_out = 0;
  call_attempts = 0;
  channel_blocks = 0;
  busy_lines = 0;
  handoff_blocks = 0;
  cell_location_x = gid % num_cells;
  cell_location_y = gid / num_cells;
}

-- `unset` is what the source leaves in the field `ChannelType`, which it does not set.
module _ (f : Floats) (fuel : ℕ) (now : f.Double) (unset : Channel) (gid : ℕ) where
  -- A round of the loop over portables: its branches are those of a portable that is not in a call.
  unfoldable pub start_portable : Cell → Option (Outcome f)
  unfolding tw_rand_exponential
  start_portable c =
      let (move, g) = tw_rand_exponential f c.rng (f.of_int 4500) in
      let (next, g') = tw_rand_exponential f g (f.of_int 360) in
      idle f fuel now gid (record c { rng = g' })
        (record { c1 = false; c2 = false; c3 = false; wl1 = 0 })
        (record {
          method = nextcall_method;
          completion_ts = f.huge_val;
          next_ts = next;
          move_ts = move;
          channel = unset;
        })

  unfoldable pub start_loop : ℕ → Cell → Option (Cell × List (Send f))
  start_loop zero c = some (c, [])
  start_loop (suc n) c = do o ← start_portable c; r ← start_loop n o.cell; some (r.0, o.sent ∷ r.1)

  -- `Cell_StartUp`.
  unfoldable pub start_up : Clcg4 → Option (Cell × List (Send f))
  start_up g =
      if ltb (gid / num_cells) num_cells
      then start_loop 16 (record { sv = init_state gid; rng = g })
      else none

-- The channels of a kind that the events of a list hold at a cell.
unfoldable pub total : (f : Floats) → (Channel → Bool) → ℕ → List (Send f) → ℕ
total f kind c [] = 0
total f kind c (e ∷ es) = (if e.dest == c then held f kind e.msg else 0) + total f kind c es

module _ (f : Floats) (fuel : ℕ) (now : f.Double) (unset : Channel) (gid : ℕ) where
  start_loop-held :
      (n : ℕ) (c c' : Cell) (sent : List (Send f))
      → start_loop f fuel now unset gid n c ≡ some (c', sent)
      → (c'.sv ≡ c.sv)
        × ((d : ℕ) → (total f is_normal_ch d sent ≡ 0) × (total f is_reserve d sent ≡ 0))
  unfolding start_loop start_portable total
  start_loop-held zero c c' sent h =
      let q = sym (some-injective _ _ h) in
      (
        ap (λ r. r.0.sv) q,
        λ d. (ap (λ r. total f is_normal_ch d r.1) q, ap (λ r. total f is_reserve d r.1) q),
      )
  start_loop-held (suc n) c c' sent h =
      let (o, ho, h') =
        bind-some (start_portable f fuel now unset gid c)
          (λ o. start_loop f fuel now unset gid n o.cell >>= (λ r. some (r.0, o.sent ∷ r.1)))
          (c', sent) h in
      let (r, hr, e) =
        bind-some (start_loop f fuel now unset gid n o.cell) (λ r. some (r.0, o.sent ∷ r.1))
          (c', sent) h' in
      let (es, en, er) = idle-held f fuel now gid _ _ _ o ho in
      let (is, id) = start_loop-held n o.cell r.0 r.1 hr in
      let q = sym (some-injective _ _ e) in
      (
        ap (λ r. r.0.sv) q ∙ is ∙ es,
        λ d. (
          ap (λ r. total f is_normal_ch d r.1) q ∙ ground (arith, en, (id d).0),
          ap (λ r. total f is_reserve d r.1) q ∙ ground (arith, er, (id d).1),
        ),
      )

  -- The events that a cell starts with hold no channel, and its channels are all free.
  pub start_up-held :
      (g : Clcg4) (c : Cell) (sent : List (Send f))
      → start_up f fuel now unset gid g ≡ some (c, sent)
      → (c.sv ≡ init_state gid)
        × ((d : ℕ) → (total f is_normal_ch d sent ≡ 0) × (total f is_reserve d sent ≡ 0))
  unfolding start_up
  start_up-held g c sent h =
      start_loop-held 16 (record { sv = init_state gid; rng = g }) c sent (ground arith)
