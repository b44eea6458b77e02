-- ===== src/Gvt/Network.antt =====
-- One round of the phased algorithm among all processors: who sends, receives, works and contributes,
-- in any order.
-- The least time that a processor's scheduler gives, and the times of what it sends, may be any; or they
-- are held to what the algorithm expects of them (`expected`). A reduction takes place once every processor
-- has contributed, and its result reaches each processor at a time of its own.
pub mod Totals
pub mod Invariant
pub mod Local
pub mod Put
pub mod Round
pub mod Messages
pub mod Reductions
pub mod Safe
pub mod Start
pub mod Cut
use charades.Prelude.{
  ℕ, zero, suc, ◌+◌, ◌<◌, ◌≤◌, ◌≡◌, ◌^◌, Bool, true, false, List, [], ◌∷◌, ◌++◌, write, min, Option,
  some, none, ◌==◌, if◌then◌else◌,
}
use charades.Gvt.Phased.{
  PhaseGvt, Contribution, nothing, counts, minimum, gvt_begin, check_counts, consume, produce,
}

pub record Msg : Type 0 where
  pub phase : ℕ
  pub ts : ℕ

-- The result of a reduction on its way.
pub data Mail : Type 0 where
  no_mail : Mail
  counted : ℕ → ℕ → Mail

pub record Pe : Type 0 where
  pub gvt : PhaseGvt
  pub local : ℕ
  pub given : Contribution
  pub mail : Mail

pub record Network : Type 0 where
  pub pes : ℕ → Pe
  pub flying : List Msg

-- The sum of the numbers of the first `n` processors.
abbrev pub total : ℕ → (ℕ → ℕ) → ℕ
total zero f = 0
total (suc n) f = total n f + f n

abbrev pub put : Network → ℕ → Pe → List Msg → Network
put s i pe flying = record { pes = λ j. if j == i then pe else s.pes j; flying = flying }

-- The steps of `n` processors. The premises with 2 ^ 32 say that so few messages are counted that
-- neither the counters nor the sums of a reduction wrap. With `expected`, a scheduler's least time goes back
-- no further than to the time of a message that is received, and nothing is sent that is earlier than it;
-- without, the schedulers may do anything.
pub data Step (n : ℕ) (lb expected : Bool) : Network → Network → Type 0 where
  work :
      (s : Network) (i t : ℕ)
      → i < n
      → (expected ≡ true → (s.pes i).local ≤ t)
      → Step n lb expected s (put s i (record (s.pes i) { local = t }) s.flying)
  send :
      (s : Network) (i t : ℕ)
      → i < n
      → (expected ≡ true → (s.pes i).local ≤ t)
      → (s.pes i).gvt.sent (s.pes i).gvt.producing_phase + 1 < 2 ^ 32
      → Step n lb expected s (
          put s i
            (record (s.pes i) { gvt = produce t (s.pes i).gvt })
            (record { phase = (s.pes i).gvt.producing_phase; ts = t } ∷ s.flying))
  receive :
      (s : Network) (i t : ℕ) (before : List Msg) (m : Msg) (after : List Msg)
      → i < n
      → s.flying ≡ before ++ m ∷ after
      → (s.pes i).gvt.received m.phase + 1 < 2 ^ 32
      → (expected ≡ true → min m.ts (s.pes i).local ≤ t)
      → Step n lb expected s (
          put s i
            (record (s.pes i) { gvt = consume m.phase (s.pes i).gvt; local = t })
            (before ++ after))
  begin :
      (s : Network) (i : ℕ)
      → i < n
      → (s.pes i).gvt.active ≡ false
      → Step n lb expected s (
          put s i
            (record (s.pes i) {
              gvt = (gvt_begin lb (s.pes i).gvt).0;
              given = (gvt_begin lb (s.pes i).gvt).1;
            })
            s.flying)
  reduce :
      (s : Network) (a b : ℕ → ℕ)
      → ((i : ℕ) → i < n → (s.pes i).given ≡ counts (a i) (b i))
      → total n a < 2 ^ 32
      → total n b < 2 ^ 32
      → Step n lb expected s (record {
        pes = λ i. record (s.pes i) { given = nothing; mail = counted (total n a) (total n b) };
        flying = s.flying;
      })
  check :
      (s : Network) (i x y : ℕ) (g : PhaseGvt) (c : Contribution)
      → i < n
      → (s.pes i).mail ≡ counted x y
      → check_counts (s.pes i).local x y (s.pes i).gvt ≡ some (g, c)
      → Step n lb expected s
          (put s i (record (s.pes i) { gvt = g; given = c; mail = no_mail }) s.flying)

-- Any number of steps.
pub data Steps (n : ℕ) (lb expected : Bool) : Network → Network → Type 0 where
  stay : (s : Network) → Steps n lb expected s s
  onward :
      (s t u : Network) → Step n lb expected s t → Steps n lb expected t u → Steps n lb expected s u
