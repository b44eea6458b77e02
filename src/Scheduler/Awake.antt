-- ===== src/Scheduler/Awake.antt =====
-- The scheduler never waits for nothing, and never runs twice.
use charades.Prelude.{
  ℕ, ◌-◌, ◌≡◌, ◌<◌, ◌≤◌, refl, ◌⊎◌, inl, inr, arith, true, false, leb, none, some, Bool-cases,
  subst, sym, ap, ◌∙◌,
}
use charades.Gvt.Trigger.{iteration_done, ready}
use charades.Gvt.Phased.{PhaseGvt, gvt_begin, begin_round, gvt_end}
use charades.Scheduler.{
  Loop, next_iteration, batch_done, start_balancing, gvt_done, end_gvt, Step, execute, reduced,
  balanced, Reached, start, after,
}

-- What holds where load balancing stops the processor (`g_tw_ldb_continuous` is 0).
pub record IsAwake (l : Loop) : Type 0 where
  pub once : ((l.running ≡ true) × (l.executes ≡ 1)) ⊎ ((l.running ≡ false) × (l.executes ≡ 0))
  pub awake :
      (l.running ≡ true) ⊎ (l.gvt.active ≡ true) ⊎ (l.balancing ≡ true) ⊎ (l.finished ≡ true)
  pub calm : l.gvt.active ≡ true → ready l.gvt.lb_trigger ≡ true → l.running ≡ false
  pub balance : l.balancing ≡ true → (l.running ≡ false) × (l.gvt.active ≡ false)

next-IsAwake :
    (l : Loop)
    → l.executes ≡ 0
    → l.running ≡ false
    → l.balancing ≡ false
    → (l.gvt.active ≡ true → ready l.gvt.lb_trigger ≡ false)
    → IsAwake (next_iteration l)
unfolding next_iteration
next-IsAwake l e r b c = record {
  once = ground arith;
  awake = ground arith;
  calm = λ a k. absurd (ground arith);
  balance = λ a. absurd (ground arith);
}

-- gvt_begin resumes the scheduler exactly if no load balancing is due at the end.
begin_cases :
    (g : PhaseGvt)
    → (g.active ≡ true → ready g.lb_trigger ≡ false)
    → (((gvt_begin false g).2 ≡ true) × (ready (gvt_begin false g).0.lb_trigger ≡ false))
      ⊎ (((gvt_begin false g).2 ≡ false) × ((gvt_begin false g).0.active ≡ true))
unfolding gvt_begin begin_round
begin_cases g c = ground arith

batch_done-IsAwake :
    (l : Loop)
    → l.executes ≡ 0
    → l.balancing ≡ false
    → (l.gvt.active ≡ true → ready l.gvt.lb_trigger ≡ false)
    → IsAwake (batch_done false l)
unfolding batch_done next_iteration
batch_done-IsAwake l e b c =
    let k = begin_cases l.gvt c in
    record {
      once = ground arith;
      awake = ground arith;
      calm = λ a r. ground arith;
      balance = λ a. absurd (ground arith);
    }

execute-IsAwake :
    (l : Loop)
    → IsAwake l
    → 0 < l.executes
    → IsAwake (batch_done false (record l { executes = l.executes - 1 }))
execute-IsAwake l v p =
    batch_done-IsAwake (record l { executes = l.executes - 1 }) (ground (arith, v.once))
      (ground (arith, v.once, v.balance)) (λ a. ground (arith, v.once, v.calm a))

-- The branches of the end of a computation.
abbrev closed : ℕ → Loop → Loop
closed t l = record l { gvt = (gvt_end t l.gvt).0; last_gvt = t }

closed-active : (t : ℕ) (l : Loop) → (closed t l).gvt.active ≡ false
unfolding gvt_end
closed-active t l = refl

module _ (ts_end t : ℕ) (l : Loop) (le : l.last_gvt ≤ t) where
  end_finished :
      leb ts_end t ≡ true → end_gvt ts_end t l ≡ some (record (closed t l) { finished = true })
  unfolding end_gvt gvt_end gvt_done
  end_finished e = ground arith

  end_balancing :
      leb ts_end t ≡ false
      → ready l.gvt.lb_trigger ≡ true
      → l.running ≡ false
      → end_gvt ts_end t l ≡ some (record (closed t l) { balancing = true })
  unfolding end_gvt gvt_end gvt_done start_balancing
  end_balancing e r n = ground arith

  end_next :
      leb ts_end t ≡ false
      → ready l.gvt.lb_trigger ≡ false
      → end_gvt ts_end t l ≡ some (next_iteration (closed t l))
  unfolding end_gvt gvt_end gvt_done
  end_next e r = ground arith

resumed-IsAwake :
    (l : Loop)
    → ((l.running ≡ true) × (l.executes ≡ 1)) ⊎ ((l.running ≡ false) × (l.executes ≡ 0))
    → l.gvt.active ≡ false
    → l.balancing ≡ false
    → IsAwake (next_iteration l)
unfolding next_iteration
resumed-IsAwake l o a b = record {
  once = ground arith;
  awake = ground arith;
  calm = λ c r. absurd (ground arith);
  balance = λ c. absurd (ground arith);
}

end_gvt-IsAwake :
    (ts_end t : ℕ) (l : Loop)
    → IsAwake l
    → l.gvt.active ≡ true
    → l.last_gvt ≤ t
    → (l' : Loop) × (end_gvt ts_end t l ≡ some l') × IsAwake l'
end_gvt-IsAwake ts_end t l v a le =
    let c = closed-active t l in
    let b : l.balancing ≡ false = ground (arith, v.balance) in
    elim (Bool-cases (leb ts_end t)) [
      | inl e ↦ (
        record (closed t l) { finished = true },
        end_finished ts_end t l le e,
        record {
          once = v.once;
          awake = inr (inr (inr refl));
          calm = λ d r. absurd (ground arith);
          balance = λ d. absurd (ground arith);
        },
      )
      | inr e ↦ elim (Bool-cases (ready l.gvt.lb_trigger)) [
        | inl r ↦ (
          record (closed t l) { balancing = true },
          end_balancing ts_end t l le e r (v.calm a r),
          record {
            once = v.once;
            awake = inr (inr (inl refl));
            calm = λ d x. v.calm a r;
            balance = λ d. (v.calm a r, c);
          },
        )
        | inr r ↦ (
          next_iteration (closed t l),
          end_next ts_end t l le e r,
          resumed-IsAwake (closed t l) v.once c b,
        )
      ]
    ]

Step-IsAwake : (ts_end : ℕ) (l l' : Loop) → Step false ts_end l l' → IsAwake l → IsAwake l'
Step-IsAwake ts_end _ _ (execute l p) v = execute-IsAwake l v p
Step-IsAwake ts_end _ _ (reduced l l' t a le e) v =
    let (l2, e2, w) = end_gvt-IsAwake ts_end t l v a le in
    subst IsAwake (some_eq l2 l' (sym e2 ∙ e)) w
  where
    some_eq : (x y : Loop) → some x ≡ some y → x ≡ y
    some_eq x y e = ap (λ o. elim o [ none ↦ x | some z ↦ z ]) e
Step-IsAwake ts_end _ _ (balanced l b) v =
    resumed-IsAwake (record l { balancing = false }) v.once (v.balance b).1 refl

-- Where load balancing stops the processors, the scheduler is never stuck and never runs twice: in every
-- state that a processor reaches from the start of the simulation, exactly one message to execute is on
-- its way if the scheduler is running and none otherwise, and it is running, or waits for the end of a
-- computation of the global virtual time, or for the end of load balancing, or has ended the simulation;
-- and it does not run during load balancing.
pub Reached-IsAwake : (ts_end : ℕ) (l : Loop) → Reached false ts_end l → IsAwake l
Reached-IsAwake ts_end l (start _ r e a b) = record {
  once = inl (r, e);
  awake = inl r;
  calm = λ c x. absurd (ground arith);
  balance = λ c. absurd (ground arith);
}
Reached-IsAwake ts_end _ (after l l' x s) = Step-IsAwake ts_end l l' s (Reached-IsAwake ts_end l x)

-- Where load balancing stops the processors, neither assertion on the way of a new global virtual time
-- fails: in every state that a processor reaches while one is computed, a time that is no less than the
-- last is taken without an abort.
pub end_gvt_passes :
    (ts_end t : ℕ) (l : Loop)
    → Reached false ts_end l
    → l.gvt.active ≡ true
    → l.last_gvt ≤ t
    → (l' : Loop) × (end_gvt ts_end t l ≡ some l')
end_gvt_passes ts_end t l x a le =
    let (l', e, _) = end_gvt-IsAwake ts_end t l (Reached-IsAwake ts_end l x) a le in (l', e)

-- Overlapping load balancing with execution (g_tw_ldb_continuous) aborts. After a batch that begins a computation of
-- the global virtual time, at whose end load balancing is due, a time that is no less than the last and before the
-- end of the simulation is taken as follows: with g_tw_ldb_continuous the processor aborts, and without it load
-- balancing starts.
pub end_gvt_aborts :
    (ts_end t : ℕ) (l : Loop)
    → l.gvt.active ≡ false
    → ready (iteration_done l.gvt_trigger) ≡ true
    → ready (iteration_done l.gvt.lb_trigger) ≡ true
    → l.last_gvt ≤ t
    → t < ts_end
    → (end_gvt ts_end t (batch_done true l) ≡ none)
      × ((l' : Loop) × (end_gvt ts_end t (batch_done false l) ≡ some l') × (l'.balancing ≡ true))
unfolding end_gvt gvt_end gvt_done start_balancing batch_done gvt_begin begin_round next_iteration
end_gvt_aborts ts_end t l a g r le h =
    let b = batch_done false l in
    (
      ground arith,
      (record b { gvt = (gvt_end t b.gvt).0; last_gvt = t; balancing = true }, ground arith, refl),
    )
