-- ===== src/Pcs/Reverse.antt =====
-- The reverse handlers take back what the handlers did.
use charades.Prelude.{
  ℕ, zero, suc, ◌+◌, ◌^◌, ◌<◌, ◌≡◌, refl, sym, ap, subst, ◌∙◌, true, Bool-cases, ◌⊎◌, inl, inr,
  some, bind-some, ◌>>=◌, arith,
}
use charades.Clcg4.{Clcg4, draw}
use charades.Clcg4.Streams.{IsSeeded, prev-draw}
use charades.Random.{Floats, tw_rand_exponential, tw_rand_integer, tw_rand_unif}
use charades.Pcs.{inc, dec, compute_move}
use charades.Pcs.Moves.{Moves, moved, move_round, move_loop, reverse_moves}
use charades.Pcs.Calls.{Calls, Ending, call_round, call_loop, reverse_call, reverse_calls}

draw-IsSeeded : (g : Clcg4) → IsSeeded g → IsSeeded (draw g)
draw-IsSeeded g s = (prev-draw g s).0

pub dec-inc : (n : ℕ) → n < 2 ^ 32 → dec (inc n) ≡ n
dec-inc n h = omega arith

module _ (f : Floats) (rev : Clcg4 → Clcg4)
    (rev-draw : (g : Clcg4) → IsSeeded g → rev (draw g) ≡ g) where
  move_round-some :
      (s s' : Moves f)
      → move_round f s ≡ some s'
      → (s'.wl1 ≡ inc s.wl1) × (s'.rng ≡ draw (draw s.rng))
  unfolding move_round moved tw_rand_exponential tw_rand_integer tw_rand_unif
  move_round-some s s' h =
      let (d, g1) = tw_rand_integer f s.rng 0 3 in
      let (x, g2) = tw_rand_exponential f g1 (f.of_int 4500) in
      let (n, _, e) = bind-some (compute_move s.newcell d) (λ n. some (moved f s x g2 n)) s' h in
      ground arith

  go_on :
      (fuel : ℕ) (s s' : Moves f)
      → f.less s.tmsg.move_ts s.tmsg.next_ts ≡ true
      → move_loop f (suc fuel) s ≡ some s'
      → (move_round f s >>= move_loop f fuel) ≡ some s'
  unfolding move_loop
  go_on fuel s s' e h = ground arith

  reverse_two : (g : Clcg4) → IsSeeded g → rev (rev (draw (draw g))) ≡ g
  reverse_two g w = ap rev (rev-draw (draw g) (draw-IsSeeded g w)) ∙ rev-draw g w

  -- After the loop over moves, the loop of the reverse handler takes its random numbers back.
  pub reverse_moves-move_loop :
      (fuel : ℕ) (s s' : Moves f)
      → IsSeeded s.rng
      → s.wl1 + fuel < 2 ^ 31
      → move_loop f fuel s ≡ some s'
      → (k : ℕ) × (s'.wl1 ≡ s.wl1 + k) × (s.wl1 + k < 2 ^ 31) × (reverse_moves rev k s'.rng ≡ s.rng)
  unfolding move_loop reverse_moves
  reverse_moves-move_loop zero s s' w b h = absurd (ground arith)
  reverse_moves-move_loop (suc fuel) s s' w b h =
      elim (Bool-cases (f.less s.tmsg.move_ts s.tmsg.next_ts)) [
        | inl e ↦
            (let (s1, r, e') =
                bind-some (move_round f s) (move_loop f fuel) s' (go_on fuel s s' e h) in
              let (ew, er) = move_round-some s s1 r in
              let w1 = subst IsSeeded (sym er) (draw-IsSeeded _ (draw-IsSeeded s.rng w)) in
              let (k, kw, kb, kr) = reverse_moves-move_loop fuel s1 s' w1 (omega arith) e' in
              (
                suc k,
                omega arith,
                omega arith,
                ap (λ g. rev (rev g)) (kr ∙ er) ∙ reverse_two s.rng w,
              ))
        | inr e ↦ (0, ground arith, omega arith, ground arith)
      ]

  reverse_call-call_round :
      (s : Calls f)
      → IsSeeded s.cell.rng
      → s.cell.sv.busy_lines < 2 ^ 32
      → s.cell.sv.call_attempts < 2 ^ 32
      → reverse_call rev (call_round f s).cell ≡ s.cell
  unfolding reverse_call call_round tw_rand_exponential tw_rand_unif
  reverse_call-call_round s w bl ca = ground (
    arith,
    rev-draw s.cell.rng w,
    dec-inc s.cell.sv.busy_lines bl,
    dec-inc s.cell.sv.call_attempts ca,
  )

  call_round-fields :
      (s : Calls f)
      → IsSeeded s.cell.rng
      → IsSeeded (call_round f s).cell.rng
        × ((call_round f s).cell.sv.busy_lines < 2 ^ 32)
        × ((call_round f s).cell.sv.call_attempts < 2 ^ 32)
        × ((call_round f s).wl1 ≡ inc s.wl1)
  unfolding call_round tw_rand_exponential tw_rand_unif
  call_round-fields s w = (draw-IsSeeded s.cell.rng w, omega arith, omega arith, refl)

  call_loop-cases :
      (fuel : ℕ) (s : Calls f) (e : Ending f)
      → call_loop f (suc fuel) s ≡ some e
      → (e.calls ≡ s) ⊎ (call_loop f fuel (call_round f s) ≡ some e)
  unfolding call_loop
  call_loop-cases fuel s e h = ground arith

  -- After the loop of a call, the loop of the reverse handler takes back its counts and random numbers.
  pub reverse_calls-call_loop :
      (fuel : ℕ) (s : Calls f) (e : Ending f)
      → IsSeeded s.cell.rng
      → s.cell.sv.busy_lines < 2 ^ 32
      → s.cell.sv.call_attempts < 2 ^ 32
      → s.wl1 + fuel < 2 ^ 31
      → call_loop f fuel s ≡ some e
      → (k : ℕ) × (e.calls.wl1 ≡ s.wl1 + k)
        × (s.wl1 + k < 2 ^ 31)
        × (reverse_calls rev k e.calls.cell ≡ s.cell)
  unfolding call_loop reverse_calls
  reverse_calls-call_loop zero s e w bl ca b h = absurd (ground arith)
  reverse_calls-call_loop (suc fuel) s e w bl ca b h = elim (call_loop-cases fuel s e h) [
    | inl q ↦ (0, ground arith, omega arith, ground arith)
    | inr h' ↦
        (let (rw_, bl', ca', ew) = call_round-fields s w in
          let (k, kw, kb, kr) =
            reverse_calls-call_loop fuel (call_round f s) e rw_ bl' ca' (omega arith) h' in
          (
            suc k,
            omega arith,
            omega arith,
            ap (reverse_call rev) kr ∙ reverse_call-call_round s w bl ca,
          ))
  ]
