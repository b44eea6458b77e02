-- ===== src/Prelude/Memory.antt =====
-- Memory of the C++ program: an address is a number, `NULL` is 0, and a field of all objects
-- of a class is a function of their addresses.
use Prim.Native.Nat.{ℕ}
use charades.Prelude.Tests.{◌==◌, if◌then◌else◌}

abbrev pub Ptr : Type 0
Ptr = ℕ

abbrev pub null : Ptr
null = 0

-- The write `f[i] = a`.
abbrev pub write {ℓ} : {A : Type ℓ} → (ℕ → A) → ℕ → A → ℕ → A
write f i a j = if i == j then a else f j
