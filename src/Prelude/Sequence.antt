-- ===== src/Prelude/Sequence.antt =====
-- Lists of pointers by position, with the null pointer past the end.
use Prim.Native.Nat.{ℕ, zero, suc, ◌+◌, ◌-◌, ◌<◌}
use mathlib.Core.Path.{◌≡◌, refl}
use mathlib.Core.List.{List, [], ◌∷◌, ◌++◌}
use native.Mathlib.Omega.{arith}
use charades.Prelude.Tests.{ltb, ◌==◌, if◌then◌else◌}
use charades.Prelude.Memory.{Ptr, null}

abbrev pub length {ℓ} : {A : Type ℓ} → List A → ℕ
length [] = 0
length (x ∷ xs) = suc (length xs)

unfoldable pub at : List Ptr → ℕ → Ptr
at [] i = null
at (x ∷ xs) zero = x
at (x ∷ xs) (suc i) = at xs i

-- The list without its last entry.
unfoldable pub drop_last {ℓ} : {A : Type ℓ} → List A → List A
drop_last [] = []
drop_last (x ∷ []) = []
drop_last (x ∷ y ∷ xs) = x ∷ drop_last (y ∷ xs)

-- The list without the entry at a position.
unfoldable pub remove_at {ℓ} : {A : Type ℓ} → ℕ → List A → List A
remove_at k [] = []
remove_at zero (x ∷ xs) = xs
remove_at (suc k) (x ∷ xs) = x ∷ remove_at k xs

pub at-cons :
    (x : Ptr) (xs : List Ptr) (i : ℕ) → at (x ∷ xs) i ≡ (if i == 0 then x else at xs (i - 1))
unfolding at
at-cons x xs zero = refl
at-cons x xs (suc i) = ground arith

pub at-length : (xs : List Ptr) (i : ℕ) → length xs < suc i → at xs i ≡ null
unfolding at
at-length [] i h = refl
at-length (x ∷ xs) zero h = absurd (omega arith)
at-length (x ∷ xs) (suc i) h = at-length xs i (omega arith)

pub at-append :
    (xs : List Ptr) (x : Ptr) (i : ℕ)
    → at (xs ++ x ∷ []) i
      ≡ (if ltb i (length xs) then at xs i else if i == length xs then x else null)
unfolding at
at-append [] x zero = refl
at-append [] x (suc i) = ground arith
at-append (y ∷ xs) x zero = ground arith
at-append (y ∷ xs) x (suc i) = ground (arith, at-append xs x i)

pub length-append {ℓ} : {A : Type ℓ} (xs ys : List A) → length (xs ++ ys) ≡ length xs + length ys
length-append [] ys = omega arith
length-append (x ∷ xs) ys = omega (arith, length-append xs ys)

pub length-drop_last {ℓ} : {A : Type ℓ} (xs : List A) → length (drop_last xs) ≡ length xs - 1
unfolding drop_last
length-drop_last [] = omega arith
length-drop_last (x ∷ []) = omega arith
length-drop_last (x ∷ y ∷ xs) = omega (arith, length-drop_last (y ∷ xs))

pub at-drop_last :
    (xs : List Ptr) (i : ℕ)
    → at (drop_last xs) i ≡ (if ltb (i + 1) (length xs) then at xs i else null)
unfolding at drop_last
at-drop_last [] i = ground arith
at-drop_last (x ∷ []) i = ground arith
at-drop_last (x ∷ y ∷ xs) zero = ground arith
at-drop_last (x ∷ y ∷ xs) (suc i) = ground (arith, at-drop_last (y ∷ xs) i)

pub length-remove_at {ℓ} :
    {A : Type ℓ} (k : ℕ) (xs : List A) → k < length xs → length (remove_at k xs) ≡ length xs - 1
unfolding remove_at
length-remove_at k [] h = absurd (omega arith)
length-remove_at zero (x ∷ xs) h = omega arith
length-remove_at (suc k) (x ∷ xs) h = omega (arith, length-remove_at k xs (omega arith))

pub at-remove_at :
    (k : ℕ) (xs : List Ptr) (i : ℕ)
    → at (remove_at k xs) i ≡ (if ltb i k then at xs i else at xs (i + 1))
unfolding at remove_at
at-remove_at k [] i = ground arith
at-remove_at zero (x ∷ xs) i = ground (arith, at-cons x xs (i + 1))
at-remove_at (suc k) (x ∷ xs) zero = ground arith
at-remove_at (suc k) (x ∷ xs) (suc i) =
    ground (arith, at-remove_at k xs i, at-cons x xs (suc i + 1))
