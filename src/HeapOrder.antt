-- ===== src/HeapOrder.antt =====
-- Binary heaps in arrays, for both queues of collections/: the order that their loops restore.
-- `key i` is the timestamp of the entry in slot `i`, and `n` is the number of slots in use.
pub mod Sifting
use charades.Prelude.{
  ℕ, zero, suc, ◌+◌, ◌-◌, ◌*◌, ◌/◌, ◌≤◌, ◌<◌, ◌≡◌, ◌≢◌, arith, ◌==◌, if◌then◌else◌,
}

abbrev pub above : ℕ → ℕ
above c = (c - 1) / 2

-- Every entry but the root is no earlier than the entry above it.
abbrev pub IsHeap : ℕ → (ℕ → ℕ) → Type 0
IsHeap n key = (c : ℕ) → 0 < c → c < n → key (above c) ≤ key c

-- The entries below slot `i` are no earlier than the entry above it.
abbrev pub IsBridged : ℕ → (ℕ → ℕ) → ℕ → Type 0
IsBridged n key i = (c : ℕ) → 0 < c → c < n → above c ≡ i → 0 < i → key (above i) ≤ key c

-- Only the entry in slot `i` may be too early for its place.
pub record UpInv (n : ℕ) (key : ℕ → ℕ) (i : ℕ) : Type 0 where
  pub edges : (c : ℕ) → 0 < c → c < n → c ≢ i → key (above c) ≤ key c
  pub bridged : IsBridged n key i

-- Only the entry in slot `i` may be too late for its place.
pub record DownInv (n : ℕ) (key : ℕ → ℕ) (i : ℕ) : Type 0 where
  pub edges : (c : ℕ) → 0 < c → c < n → above c ≢ i → key (above c) ≤ key c
  pub bridged : IsBridged n key i

-- What an exchange of the entries in two slots does to the keys.
abbrev pub exchanged : (ℕ → ℕ) → ℕ → ℕ → ℕ → ℕ
exchanged key i j k = if i == k then key j else if j == k then key i else key k

root_least_below :
    (fuel : ℕ) {n : ℕ} (key : ℕ → ℕ) (i : ℕ) → IsHeap n key → i < fuel → i < n → key 0 ≤ key i
root_least_below zero key i h f p = absurd (omega arith)
root_least_below (suc fuel) key i h f p = ground (arith, h i, root_least_below fuel key (above i) h)

-- The root of a heap has the least timestamp.
pub root_least : {n : ℕ} (key : ℕ → ℕ) (i : ℕ) → IsHeap n key → i < n → key 0 ≤ key i
root_least key i h p = root_least_below (suc i) key i h (omega arith) p
