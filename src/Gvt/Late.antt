-- ===== src/Gvt/Late.antt =====
-- A message that arrives between two rounds.
use charades.Prelude.{ℕ, ◌<◌, ◌≡◌, arith, Bool}
use charades.Gvt.Phased.{PhaseGvt, gvt_begin, begin_round, gvt_end, consume, produce}
use charades.Gvt.Network.Invariant.{other}

-- A message can be counted as sent and not as received. Of two processors in a round that counts phase p, the one
-- that sends in the other phase ends the round, begins the next and sends a message: this is of phase p again, and
-- the first that the sender counts there. If the other processor receives it before its own gvt_end, its count of
-- phase p is 0 after that, and if it receives it afterwards, its count is 1.
pub late_message_lost :
    (lb : Bool) (p t ts : ℕ) (sender receiver : PhaseGvt)
    → p < 2
    → sender.active_phase ≡ p
    → sender.producing_phase ≡ other p
    → receiver.active_phase ≡ p
    → ((gvt_begin lb (gvt_end t sender).0).0.producing_phase ≡ p)
      × ((produce ts (gvt_begin lb (gvt_end t sender).0).0).sent p ≡ 1)
      × ((gvt_end t (consume p receiver)).0.received p ≡ 0)
      × ((consume p (gvt_end t receiver).0).received p ≡ 1)
unfolding gvt_end gvt_begin begin_round consume produce
late_message_lost lb p t ts sender receiver h a b c =
    (ground arith, ground arith, ground arith, ground arith)
