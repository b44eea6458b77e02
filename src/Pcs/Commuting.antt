-- ===== src/Pcs/Commuting.antt =====
-- The loops of the reverse handlers commute with what these change besides.
use charades.Prelude.{
  ℕ, zero, suc, ◌^◌, ◌<◌, ◌≡◌, refl, ap, ◌∙◌, Bool, true, false, if◌then◌else◌, arith,
}
use charades.Clcg4.{Clcg4}
use charades.Pcs.{Cell, Trace, inc, dec}
use charades.Pcs.Moves.{rounds, reverse_moves}
use charades.Pcs.Calls.{reverse_call, reverse_calls}
use charades.Pcs.Handlers.{rc_next_call, rc_move_call_in}

pub inc-dec : (n : ℕ) → n < 2 ^ 32 → inc (dec n) ≡ n
inc-dec n h = omega arith

module _ (rev : Clcg4 → Clcg4) where
  reverse_moves-rev :
      (n : ℕ) (g : Clcg4) → reverse_moves rev n (rev g) ≡ rev (reverse_moves rev n g)
  unfolding reverse_moves
  reverse_moves-rev zero g = refl
  reverse_moves-rev (suc n) g = ap (λ g. rev (rev g)) (reverse_moves-rev n g)

  -- The loop over busy lines commutes with a change of a cell that each round of it commutes with.
  reverse_calls-change :
      (change : Cell → Cell)
      → ((c : Cell) → reverse_call rev (change c) ≡ change (reverse_call rev c))
      → (n : ℕ) (c : Cell) → reverse_calls rev n (change c) ≡ change (reverse_calls rev n c)
  unfolding reverse_calls
  reverse_calls-change change h zero c = refl
  reverse_calls-change change h (suc n) c =
      ap (reverse_call rev) (reverse_calls-change change h n c) ∙ h (reverse_calls rev n c)

  -- What the reverse handlers change for a portable that got a channel.
  abbrev pub served : Cell → Cell
  served c = record {
    sv = record c.sv {
      call_attempts = dec c.sv.call_attempts;
      normal_channels = inc c.sv.normal_channels;
    };
    rng = rev (rev c.rng);
  }

  abbrev pub moved_in : Bool → Cell → Cell
  moved_in c3 c = record {
    sv =
        if c3
        then record c.sv { normal_channels = inc c.sv.normal_channels }
        else record c.sv { reserve_channels = inc c.sv.reserve_channels };
    rng = rev c.rng;
  }

  pub rc_next_call-true :
      (c : Cell) (t : Trace)
      → t.c1 ≡ true
      → rc_next_call rev c t ≡ record {
        sv = record c.sv {
          call_attempts = dec c.sv.call_attempts;
          channel_blocks = dec c.sv.channel_blocks;
        };
        rng = rev (reverse_moves rev (rounds t.wl1) c.rng);
      }
  unfolding rc_next_call
  rc_next_call-true c t h = ground (arith, reverse_moves-rev (rounds t.wl1) c.rng)

  served-reverse_call : (c : Cell) → reverse_call rev (served c) ≡ served (reverse_call rev c)
  unfolding reverse_call
  served-reverse_call c = refl

  moved_in-reverse_call :
      (c3 : Bool) (c : Cell) → reverse_call rev (moved_in c3 c) ≡ moved_in c3 (reverse_call rev c)
  unfolding reverse_call
  moved_in-reverse_call true c = refl
  moved_in-reverse_call false c = refl

  pub rc_next_call-false :
      (c : Cell) (t : Trace)
      → t.c1 ≡ false
      → rc_next_call rev c t ≡ served (reverse_calls rev (rounds t.wl1) c)
  unfolding rc_next_call
  rc_next_call-false c t h =
      ground (arith, reverse_calls-change served served-reverse_call (rounds t.wl1) c)

  pub rc_move_call_in-true :
      (c : Cell) (t : Trace)
      → t.c1 ≡ true
      → t.c2 ≡ true
      → rc_move_call_in rev c t ≡ record {
        sv = record c.sv { handoff_blocks = dec c.sv.handoff_blocks };
        rng = rev (reverse_moves rev (rounds t.wl1) c.rng);
      }
  unfolding rc_move_call_in
  rc_move_call_in-true c t h k = ground (arith, reverse_moves-rev (rounds t.wl1) c.rng)

  pub rc_move_call_in-false :
      (c : Cell) (t : Trace)
      → t.c1 ≡ true
      → t.c2 ≡ false
      → rc_move_call_in rev c t ≡ moved_in t.c3 (reverse_calls rev (rounds t.wl1) c)
  unfolding rc_move_call_in
  rc_move_call_in-false c t h k =
      ground
        (arith, reverse_calls-change (moved_in t.c3) (moved_in-reverse_call t.c3) (rounds t.wl1) c)
