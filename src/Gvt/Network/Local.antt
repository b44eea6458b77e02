-- ===== src/Gvt/Network/Local.antt =====
-- What the methods of one processor keep of its state in a round.
use charades.Prelude.{ℕ, ◌+◌, ◌^◌, ◌<◌, ◌≡◌, ◌≢◌, refl, arith, Bool, false, some}
use charades.Gvt.Phased.{
  PhaseGvt, Contribution, nothing, counts, begin_round, gvt_begin, check_counts, consume, produce,
}
use charades.Gvt.Network.{no_mail, counted, Pe}
use charades.Gvt.Network.Invariant.{IsPe, other}

pub other_ne : (p : ℕ) → p < 2 → other p ≢ p
other_ne p h e = omega arith

module _ (p : ℕ) (e : Pe) (h : p < 2) (v : IsPe p e) where
  pub work-IsPe : (t : ℕ) → IsPe p (record e { local = t })
  work-IsPe t = record {
    idle = v.idle;
    busy = v.busy;
    given_counts = v.given_counts;
    mailed = v.mailed;
  }

  pub produce-IsPe :
      (t : ℕ)
      → e.gvt.sent e.gvt.producing_phase + 1 < 2 ^ 32
      → IsPe p (record e { gvt = produce t e.gvt })
  unfolding produce
  produce-IsPe t w = record {
    idle = v.idle;
    busy = v.busy;
    given_counts = λ a b g. (
      (v.given_counts a b g).0,
      ground (arith, v.given_counts a b g, v.busy, other_ne p h),
      (v.given_counts a b g).2,
    );
    mailed = v.mailed;
  }

  pub consume-IsPe :
      (q t : ℕ)
      → e.gvt.received q + 1 < 2 ^ 32
      → IsPe p (record e { gvt = consume q e.gvt; local = t })
  unfolding consume
  consume-IsPe q t w = record {
    idle = v.idle;
    busy = v.busy;
    given_counts = λ a b g.
        ((v.given_counts a b g).0, (v.given_counts a b g).1, ground (arith, v.given_counts a b g));
    mailed = v.mailed;
  }

  pub begin-IsPe :
      (lb : Bool)
      → e.gvt.active ≡ false
      → IsPe p (record e { gvt = (gvt_begin lb e.gvt).0; given = (gvt_begin lb e.gvt).1 })
  unfolding gvt_begin begin_round
  begin-IsPe lb a = record {
    idle = λ c. ground arith;
    busy = λ c. ground (arith, v.idle a);
    given_counts = λ x y g. ground (arith, v.idle a);
    mailed = λ x y m. ground (arith, v.idle a);
  }

  pub check-IsPe :
      (x y : ℕ) (g : PhaseGvt) (c : Contribution)
      → e.mail ≡ counted x y
      → check_counts e.local x y e.gvt ≡ some (g, c)
      → IsPe p (record e { gvt = g; given = c; mail = no_mail })
  unfolding check_counts
  check-IsPe x y g c m k = record {
    idle = λ a. ground (arith, v.mailed x y m);
    busy = λ a. ground (arith, v.busy);
    given_counts = λ a b f. ground (arith, v.mailed x y m, v.busy);
    mailed = λ a b f. ground arith;
  }

  pub reduce-IsPe :
      (a b x y : ℕ)
      → e.given ≡ counts a b
      → IsPe p (record e { given = nothing; mail = counted x y })
  reduce-IsPe a b x y g = record {
    idle = λ i. ground (arith, v.given_counts a b g);
    busy = v.busy;
    given_counts = λ c d f. ground arith;
    mailed = λ c d f. ((v.given_counts a b g).0, refl);
  }
