-- ===== src/Gvt/Tests.antt =====
-- A round of two processors, with a message that is received between two reductions.
use charades.Prelude.{
  ℕ, zero, suc, ◌+◌, ◌<◌, ◌≤◌, ◌≡◌, refl, arith, Bool, true, false, [], ◌∷◌, min, ◌==◌,
  if◌then◌else◌,
}
use charades.Event.{time_max}
use charades.Gvt.Trigger.{constant}
use charades.Gvt.Phased.{
  PhaseGvt, Contribution, nothing, counts, minimum, gvt_begin, begin_round, check_counts, consume,
  produce, u32, gvt_end,
}
use charades.Gvt.Network.{
  Msg, no_mail, counted, Pe, Network, total, put, Steps, send, receive, begin, reduce, check, stay,
  onward,
}
use charades.Gvt.Network.Totals.{All}
use charades.Gvt.Late.{late_message_lost}
use charades.Gvt.Network.Invariant.{IsDone}
use charades.Gvt.Network.Start.{IsStart}
use charades.Gvt.Network.Cut.{IsSeen, gvt_cut, lost_stuck}
use charades.Gvt.Network.Safe.{least, gvt_safe}

abbrev fresh : PhaseGvt
fresh = record {
  curr_gvt = 0;
  prev_gvt = 0;
  active = false;
  producing_phase = 0;
  active_phase = 1;
  sent = λ i. 0;
  received = λ i. 0;
  min_sent = time_max;
  lb_trigger = constant false;
  count_reductions = 0;
  min_reductions = 0;
  begin_successes = 0;
  begin_fails = 0;
}

abbrev pe : ℕ → Pe
pe t = record { gvt = fresh; local = t; given = nothing; mail = no_mail }

-- The least times of the processors are 5 and 7.
abbrev s0 : Network
s0 = record { pes = λ i. if i == 0 then pe 5 else pe 7; flying = [] }

abbrev sent_to : Network → ℕ → ℕ → Network
sent_to s i t =
    put s i (record (s.pes i) { gvt = produce t (s.pes i).gvt })
      (record { phase = (s.pes i).gvt.producing_phase; ts = t } ∷ s.flying)

abbrev begun : Network → ℕ → Network
begun s i =
    put s i
      (record (s.pes i) {
        gvt = (gvt_begin true (s.pes i).gvt).0;
        given = (gvt_begin true (s.pes i).gvt).1;
      })
      s.flying

abbrev reduced : Network → (ℕ → ℕ) → (ℕ → ℕ) → Network
reduced s a b = record {
  pes = λ i. record (s.pes i) { given = nothing; mail = counted (total 2 a) (total 2 b) };
  flying = s.flying;
}

abbrev again : PhaseGvt → PhaseGvt
again g = record g { count_reductions = u32 (g.count_reductions + 1) }

-- Processor 0 sends at 6, both begin, and the sums are 1 and 0.
abbrev s3 : Network
s3 = begun (begun (sent_to s0 0 6) 0) 1

abbrev one_if : ℕ → ℕ → ℕ
one_if k i = if i == k then 1 else 0

given_3 : (i : ℕ) → i < 2 → (s3.pes i).given ≡ counts (one_if 0 i) 0
unfolding gvt_begin produce begin_round
given_3 zero h = refl
given_3 (suc zero) h = refl
given_3 (suc (suc i)) h = absurd (omega arith)

abbrev msg : Msg
msg = record { phase = 0; ts = 6 }

-- Processor 1 receives the message after the first reduction.
abbrev s5 : Network
s5 =
    let s4 = reduced s3 (one_if 0) (λ i. 0) in
    put s4 1 (record (s4.pes 1) { gvt = consume 0 (s4.pes 1).gvt; local = min 6 (s4.pes 1).local })
      []

abbrev checked : Network → ℕ → Contribution → Network
checked s i c =
    put s i (record (s.pes i) { gvt = again (s.pes i).gvt; given = c; mail = no_mail }) s.flying

abbrev s7 : Network
s7 = checked (checked s5 0 (counts 1 0)) 1 (counts 0 1)

abbrev s8 : Network
s8 = reduced s7 (one_if 0) (one_if 1)

abbrev s10 : Network
s10 = checked (checked s8 0 (minimum 5)) 1 (minimum 6)

given_7 : (i : ℕ) → i < 2 → (s7.pes i).given ≡ counts (one_if 0 i) (one_if 1 i)
given_7 zero h = refl
given_7 (suc zero) h = refl
given_7 (suc (suc i)) h = absurd (omega arith)

round_run : (expected : Bool) → Steps 2 true expected s0 s10
unfolding gvt_begin produce begin_round consume check_counts
round_run expected = onward _ _ _ (send s0 0 6 (omega arith) (λ q. omega arith) (omega arith)) (
    onward _ _ _ (begin (sent_to s0 0 6) 0 (omega arith) refl) (
      onward _ _ _ (begin (begun (sent_to s0 0 6) 0) 1 (omega arith) refl) (
        onward _ _ _ (reduce s3 (one_if 0) (λ i. 0) given_3 (omega arith) (omega arith)) (
          onward _ _ _
            (receive (reduced s3 (one_if 0) (λ i. 0)) 1 6 [] msg [] (omega arith) refl (omega arith)
              (λ q. omega arith))
            (onward _ _ _
              (check s5 0 1 0 (again (s5.pes 0).gvt) (counts 1 0) (omega arith) refl refl)
              (onward _ _ _
                (check (checked s5 0 (counts 1 0)) 1 1 0 (again (s5.pes 1).gvt) (counts 0 1)
                  (omega arith) refl refl)
                (onward _ _ _ (reduce s7 (one_if 0) (one_if 1) given_7 (omega arith) (omega arith))
                  (onward _ _ _
                    (check s8 0 1 1 (again (s8.pes 0).gvt) (minimum 5) (omega arith) refl refl)
                    (onward _ _ _
                      (check (checked s8 0 (minimum 5)) 1 1 1 (again (s8.pes 1).gvt) (minimum 6)
                        (omega arith) refl refl)
                      (stay s10))))))))))

s0-IsStart : IsStart 2 0 0 s0
s0-IsStart = record { phase = omega arith; idle = λ i h. ground arith; balance = refl; flying = tt }

abbrev minima : ℕ → ℕ
minima i = if i == 0 then 5 else 6

given_10 : (i : ℕ) → i < 2 → (s10.pes i).given ≡ minimum (minima i)
given_10 zero h = refl
given_10 (suc zero) h = refl
given_10 (suc (suc i)) h = absurd (omega arith)

gvt_safe_example :
    All (λ m. least 2 minima ≤ m.ts) s10.flying
    × ((i : ℕ) → i < 2 → least 2 minima ≤ (s10.pes i).local)
gvt_safe_example =
    gvt_safe 2 0 true s0 s10 minima s0-IsStart (round_run true) (omega arith) given_10

gvt_cut_example :
    ((j : ℕ) → j < 2 → (s10.pes j).gvt.active ≡ true)
    × (total 2 (λ j. (s10.pes j).gvt.sent 0) ≡ total 2 (λ j. (s10.pes j).gvt.received 0))
    × All (IsSeen 2 0 s10) s10.flying
gvt_cut_example =
    gvt_cut 2 0 true s0 s10 1 s0-IsStart (round_run false) (omega arith)
      (6, given_10 1 (omega arith))

-- The message of processor 0 is in no count of received ones, and not in flight.
abbrev l0 : Network
l0 = record { pes = (sent_to s0 0 6).pes; flying = [] }

abbrev l2 : Network
l2 = begun (begun l0 0) 1

given_l2 : (i : ℕ) → i < 2 → (l2.pes i).given ≡ counts (one_if 0 i) 0
unfolding gvt_begin produce begin_round
given_l2 zero h = refl
given_l2 (suc zero) h = refl
given_l2 (suc (suc i)) h = absurd (omega arith)

abbrev l3 : Network
l3 = reduced l2 (one_if 0) (λ i. 0)

abbrev l4 : Network
l4 = checked l3 0 (counts 1 0)

lost_run : Steps 2 true false l0 l4
unfolding gvt_begin produce begin_round consume check_counts
lost_run = onward _ _ _ (begin l0 0 (omega arith) refl) (
    onward _ _ _ (begin (begun l0 0) 1 (omega arith) refl) (
      onward _ _ _ (reduce l2 (one_if 0) (λ i. 0) given_l2 (omega arith) (omega arith)) (
        onward _ _ _ (check l3 0 1 0 (again (l3.pes 0).gvt) (counts 1 0) (omega arith) refl refl)
          (stay l4))))

l0-IsStart : IsStart 2 0 1 l0
unfolding produce
l0-IsStart = record { phase = omega arith; idle = λ i h. ground arith; balance = refl; flying = tt }

lost_stuck_example : ¬ IsDone (l4.pes 0)
lost_stuck_example = lost_stuck 2 0 1 true l0 l4 0 l0-IsStart (omega arith) lost_run (omega arith)

-- A processor in a round that counts phase 0.
abbrev busy : PhaseGvt
busy = record fresh { active = true; active_phase = 0; producing_phase = 1 }

late_message_lost_example :
    ((gvt_begin true (gvt_end 9 busy).0).0.producing_phase ≡ 0)
    × ((produce 12 (gvt_begin true (gvt_end 9 busy).0).0).sent 0 ≡ 1)
    × ((gvt_end 9 (consume 0 busy)).0.received 0 ≡ 0)
    × ((consume 0 (gvt_end 9 busy).0).received 0 ≡ 1)
late_message_lost_example = late_message_lost true 0 9 12 busy busy (omega arith) refl refl refl

-- A scheduler that does not do as expected: it gives 20, the minimum of the only processor, which then sends at 16.
abbrev u0 : Network
u0 = record { pes = λ i. pe 20; flying = [] }

abbrev u1 : Network
u1 = begun u0 0

abbrev u2 : Network
u2 = record {
  pes = λ i. record (u1.pes i) { given = nothing; mail = counted 0 0 };
  flying = u1.flying;
}

abbrev u3 : Network
u3 = checked u2 0 (minimum 20)

given_u1 : (i : ℕ) → i < 1 → (u1.pes i).given ≡ counts 0 0
unfolding gvt_begin produce begin_round
given_u1 zero h = refl
given_u1 (suc i) h = absurd (omega arith)

unexpected_run : Steps 1 true false u0 (sent_to u3 0 16)
unfolding gvt_begin produce begin_round consume check_counts
unexpected_run = onward _ _ _ (begin u0 0 (omega arith) refl) (
    onward _ _ _ (reduce u1 (λ i. 0) (λ i. 0) given_u1 (omega arith) (omega arith)) (
      onward _ _ _ (check u2 0 0 0 (again (u2.pes 0).gvt) (minimum 20) (omega arith) refl refl) (
        onward _ _ _ (send u3 0 16 (omega arith) (λ q. absurd (ground arith)) (omega arith))
          (stay (sent_to u3 0 16)))))

unexpected-given : ((sent_to u3 0 16).pes 0).given ≡ minimum 20
unexpected-given = refl
