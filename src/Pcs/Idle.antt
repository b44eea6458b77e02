-- ===== src/Pcs/Idle.antt =====
-- The ways in which the handlers of the portables end: with the loop over moves, or with that of a call.
use charades.Prelude.{ℕ, ◌≡◌, sym, ◌⊎◌, inl, inr, some, bind-some, ◌>>=◌, arith}
use mathlib.Core.Option.{some-injective}
use charades.Random.{Floats}
use charades.Pcs.{Cell, Trace, Msg, nextcall_method}
use charades.Pcs.Moves.{Moves, move_loop}
use charades.Pcs.Calls.{Calls, Ending, call_loop}
use charades.Pcs.Handlers.{Outcome, after_moves, idle, after_calls, in_call}

module _ (f : Floats) (fuel : ℕ) (now : f.Double) (gid : ℕ) where
  -- Where the loop over moves starts.
  abbrev pub start : Cell → Trace → Msg f → Moves f
  start c t m = record { wl1 = t.wl1; rng = c.rng; currentcell = 0; newcell = gid; tmsg = m }

  idle-ways :
      (c : Cell) (t : Trace) (m : Msg f) (o : Outcome f)
      → idle f fuel now gid c t m ≡ some o
      → ((o.cell ≡ c) × (o.trace ≡ t) × (o.sent.msg.method ≡ nextcall_method))
        ⊎ ((move_loop f fuel (start c t m) >>= (λ r. some (after_moves f fuel now gid c.sv t r)))
            ≡ some o)
  unfolding idle
  idle-ways c t m o h = ground arith

  pub idle-cases :
      (c : Cell) (t : Trace) (m : Msg f) (o : Outcome f)
      → idle f fuel now gid c t m ≡ some o
      → ((o.cell ≡ c) × (o.trace ≡ t) × (o.sent.msg.method ≡ nextcall_method))
        ⊎ ((r : Moves f) × (move_loop f fuel (start c t m) ≡ some r)
            × (o ≡ after_moves f fuel now gid c.sv t r))
  idle-cases c t m o h = elim (idle-ways c t m o h) [
    | inl q ↦ inl q
    | inr h' ↦
        (let (r, e, q) =
            bind-some (move_loop f fuel (start c t m))
              (λ r. some (after_moves f fuel now gid c.sv t r)) o h' in
          inr (r, e, sym (some-injective _ _ q)))
  ]

  pub in_call-ending :
      (c : Cell) (t : Trace) (m : Msg f) (o : Outcome f)
      → in_call f fuel now gid c t m ≡ some o
      → (e : Ending f) × (call_loop f fuel (record { wl1 = t.wl1; cell = c; tmsg = m }) ≡ some e)
        × (o ≡ after_calls f fuel now gid t e)
  unfolding in_call
  in_call-ending c t m o h =
      let s : Calls f = record { wl1 = t.wl1; cell = c; tmsg = m } in
      let (e, r, q) =
        bind-some (call_loop f fuel s) (λ e. some (after_calls f fuel now gid t e)) o h in
      (e, r, sym (some-injective _ _ q))
