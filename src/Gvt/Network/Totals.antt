-- ===== src/Gvt/Network/Totals.antt =====
-- Sums over the processors, and the messages in flight.
use charades.Prelude.{
  ℕ, zero, suc, ◌+◌, ◌<◌, ◌≤◌, ◌≡◌, ◌≢◌, ◌⊎◌, inl, inr, refl, arith, List, [], ◌∷◌, ◌++◌, ◌==◌,
  if◌then◌else◌,
}
use charades.Gvt.Network.{Msg, total}

pub total_same : (n : ℕ) (f g : ℕ → ℕ) → ((j : ℕ) → j < n → f j ≡ g j) → total n f ≡ total n g
total_same zero f g h = refl
total_same (suc n) f g h =
    ground (arith, total_same n f g (λ j k. h j (omega arith)), h n (omega arith))

lt_or_eq : (i n : ℕ) → i < suc n → (i < n) ⊎ (i ≡ n)
lt_or_eq i n h = omega arith

pub total_change :
    (n : ℕ) (f g : ℕ → ℕ) (i : ℕ)
    → i < n
    → ((j : ℕ) → j ≢ i → f j ≡ g j)
    → total n f + g i ≡ total n g + f i
total_change zero f g i h e = absurd (omega arith)
total_change (suc n) f g i h e = elim (lt_or_eq i n h) [
  | inl lt ↦ ground (arith, total_change n f g i lt e, e n (λ c. omega arith))
  | inr c ↦ ground (arith, total_same n f g (λ j k. e j (λ d. omega arith)))
]

pub total_mono : (n : ℕ) (f g : ℕ → ℕ) → ((j : ℕ) → j < n → f j ≤ g j) → total n f ≤ total n g
total_mono zero f g h = omega arith
total_mono (suc n) f g h =
    ground (arith, total_mono n f g (λ j k. h j (omega arith)), h n (omega arith))

-- The number of messages of a phase.
abbrev pub count : ℕ → List Msg → ℕ
count p [] = 0
count p (m ∷ ms) = (if m.phase == p then 1 else 0) + count p ms

pub count-append :
    (p : ℕ) (before : List Msg) (m : Msg) (after : List Msg)
    → count p (before ++ m ∷ after) ≡ (if m.phase == p then 1 else 0) + count p (before ++ after)
count-append p [] m after = refl
count-append p (x ∷ xs) m after = ground (arith, count-append p xs m after)

-- All messages have a property.
abbrev pub All {ℓ} : (Msg → Type ℓ) → List Msg → Type ℓ
All P [] = Unit
All P (m ∷ ms) = P m × All P ms

pub All-map {ℓ} :
    (P Q : Msg → Type ℓ) (ms : List Msg) → ((m : Msg) → P m → Q m) → All P ms → All Q ms
All-map P Q [] f a = tt
All-map P Q (m ∷ ms) f a = (f m a.0, All-map P Q ms f a.1)

pub All-remove {ℓ} :
    (P : Msg → Type ℓ) (before : List Msg) (m : Msg) (after : List Msg)
    → All P (before ++ m ∷ after)
    → P m × All P (before ++ after)
All-remove P [] m after a = a
All-remove P (x ∷ xs) m after a = let (q, r) = All-remove P xs m after a.1 in (q, (a.0, r))
