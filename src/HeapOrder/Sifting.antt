-- ===== src/HeapOrder/Sifting.antt =====
-- One round of a loop that moves an entry up or down, and the ends of such a loop.
use charades.Prelude.{ℕ, ◌≤◌, ◌<◌, ◌≡◌, arith, ◌==◌, if◌then◌else◌}
use charades.HeapOrder.{above, IsHeap, UpInv, DownInv, exchanged}

module _ {n : ℕ} (key : ℕ → ℕ) (i : ℕ) where
  pub up_done : UpInv n key i → (0 < i → key (above i) ≤ key i) → IsHeap n key
  up_done v h c p q = ground (arith, v.edges c)

  pub up_step :
      UpInv n key i
      → 0 < i
      → i < n
      → key i ≤ key (above i)
      → UpInv n (exchanged key i (above i)) (above i)
  up_step v p q le = record {
    edges = λ c a b ne. ground (arith, v.edges c, v.edges (above i), v.bridged c);
    bridged = λ c a b e d. ground (arith, v.edges c, v.edges (above i), v.bridged c);
  }

  pub down_done :
      DownInv n key i → ((c : ℕ) → 0 < c → c < n → above c ≡ i → key i ≤ key c) → IsHeap n key
  down_done v h c p q = ground (arith, v.edges c, h c)

  pub down_step :
      (j : ℕ)
      → DownInv n key i
      → 0 < j
      → j < n
      → above j ≡ i
      → key j ≤ key i
      → ((c : ℕ) → 0 < c → c < n → above c ≡ i → key j ≤ key c)
      → DownInv n (exchanged key i j) j
  down_step j v p q e le least = record {
    edges = λ c a b ne. ground (arith, v.edges c, v.bridged c, v.bridged j, least c);
    bridged = λ c a b e' d. ground (arith, v.edges c, v.bridged j);
  }

  pub heap-UpInv : (t : ℕ) → IsHeap n key → t ≤ key i → UpInv n (λ k. if i == k then t else key k) i
  heap-UpInv t h le = record {
    edges = λ c a b ne. ground (arith, h c);
    bridged = λ c a b e d. ground (arith, h c, h i);
  }

  pub heap-DownInv :
      (t : ℕ) → IsHeap n key → i < n → key i ≤ t → DownInv n (λ k. if i == k then t else key k) i
  heap-DownInv t h q le = record {
    edges = λ c a b ne. ground (arith, h c);
    bridged = λ c a b e d. ground (arith, h c, h i);
  }
