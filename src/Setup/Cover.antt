-- ===== src/Setup/Cover.antt =====
-- The chares of a simulation have room for all its LPs.
use charades.Prelude.{
  ℕ, zero, suc, ◌+◌, ◌*◌, ◌%◌, ◌^◌, ◌<◌, ◌≤◌, ◌≡◌, ◌≢◌, refl, sym, ap, ◌∙◌, ◌⊎◌, inl, inr, arith,
  subst,
}
use native.Mathlib.Nat.{mod-lt, div-add-mod, div-lt_iff_lt-mul, mod-eq_of_lt}
use charades.Setup.{
  Mapper, block_mapper, Protocol, sequential, conservative, optimistic, Config, sum_lps,
  count_chares, create_simulation,
}

-- The loop stops at the first number of chares that have room.
count_first :
    (w total fuel chares sum : ℕ)
    → 0 < w
    → w < 2 ^ 32
    → total < 2 ^ 32
    → chares + fuel < 2 ^ 32
    → total ≤ sum + fuel
    → sum < total + w
    → (k : ℕ) × (count_chares (λ i. w) total fuel chares sum ≡ chares + k)
      × (total ≤ sum + k * w)
      × (sum + k * w < total + w)
unfolding count_chares
count_first w total zero chares sum p b t f e l = (0, omega arith, omega arith, omega arith)
count_first w total (suc fuel) chares sum p b t f e l = elim (lt_cases sum total) [
  | inl h ↦
      let (k, c, x, y) =
        count_first w total fuel (chares + 1) (sum + w) p b t (omega arith) (omega arith)
          (omega arith) in
      let z : suc k * w ≡ w + k * w = suc_mul k w in
      (suc k, ground (arith, small (chares + 1) 32, small (sum + w) 64), omega arith, omega arith)
  | inr h ↦ (0, ground arith, omega arith, omega arith)
]
  where
    lt_cases : (a b : ℕ) → (a < b) ⊎ (b ≤ a)
    lt_cases a b = omega arith

    small : (a k : ℕ) → a < 2 ^ k → a % 2 ^ k ≡ a
    small a k h = mod-eq_of_lt h

    suc_mul : (k w : ℕ) → suc k * w ≡ w + k * w
    suc_mul k w = omega arith

sum_blocks : (w n : ℕ) → n * w < 2 ^ 32 → sum_lps (λ i. w) n ≡ n * w
unfolding sum_lps
sum_blocks w zero h = omega arith
sum_blocks w (suc n) h =
    ap (λ x. (x + w) % 2 ^ 32) (sum_blocks w n (omega arith))
    ∙ wrap (n * w) w (omega arith)
    ∙ omega arith
  where
    wrap : (x w : ℕ) → x + w < 2 ^ 32 → (x + w) % 2 ^ 32 ≡ w + x
    wrap x w h = omega arith

-- An LP has a place: a chare that exists, an offset that the chare has, and both map back to the LP.
abbrev pub IsPlaced : Config × Mapper → ℕ → Type 0
IsPlaced (c, m) gid =
    (m.get_chare_id gid < c.num_chares)
    × (m.get_local_id gid < m.get_num_lps (m.get_chare_id gid))
    × (m.get_global_id (m.get_chare_id gid) (m.get_local_id gid) ≡ gid)

-- All LPs have one.
abbrev HasRoom : Config × Mapper → Type 0
HasRoom (c, m) = (gid : ℕ) → gid < c.total_lps → IsPlaced (c, m) gid

block-HasRoom :
    (c : Config) (w : ℕ)
    → 0 < w
    → c.total_lps ≤ 2 ^ 32
    → c.total_lps ≤ c.num_chares * w
    → HasRoom (c, block_mapper w)
unfolding block_mapper
block-HasRoom c w p b r gid h = (
  (div-lt_iff_lt-mul p).1 (omega arith),
  mod-lt gid p,
  ap (λ x. x % 2 ^ 64) (div-add-mod gid w) ∙ wrap gid (omega arith),
)
  where
    wrap : (x : ℕ) → x < 2 ^ 32 → x % 2 ^ 64 ≡ x
    wrap x h = omega arith

module _ (c : Config) (m : Mapper) where
  create_sequential :
      c.protocol ≡ sequential
      → create_simulation m c
        ≡ (record c { num_chares = 1; lps_per_chare = c.total_lps }, block_mapper c.total_lps)
  unfolding create_simulation
  create_sequential e = ground arith

  create_sum :
      c.protocol ≢ sequential
      → c.total_lps ≡ 1
      → create_simulation m c ≡ (record c { total_lps = sum_lps m.get_num_lps c.num_chares }, m)
  unfolding create_simulation
  create_sum e t = ground arith

  create_count :
      c.protocol ≢ sequential
      → c.total_lps ≢ 1
      → c.num_chares ≡ 1
      → create_simulation m c
        ≡ (record c { num_chares = count_chares m.get_num_lps c.total_lps c.total_lps 0 0 }, m)
  unfolding create_simulation
  create_count e t n = ground arith

protocol_cases : (p : Protocol) → (p ≡ sequential) ⊎ (p ≢ sequential)
protocol_cases sequential = inl refl
protocol_cases conservative = inr (λ e. cc)
protocol_cases optimistic = inr (λ e. cc)

eq_or_ne : (a b : ℕ) → (a ≡ b) ⊎ (a ≢ b)
eq_or_ne a b = omega arith

create-HasRoom :
    (c : Config)
    → 0 < c.lps_per_chare
    → c.lps_per_chare < 2 ^ 32
    → c.total_lps < 2 ^ 32
    → c.num_chares * c.lps_per_chare < 2 ^ 32
    → (c.protocol ≡ sequential) ⊎ (c.total_lps ≡ 1) ⊎ (c.num_chares ≡ 1)
    → HasRoom (create_simulation (block_mapper c.lps_per_chare) c)
create-HasRoom c p b t n d = elim (protocol_cases c.protocol) [
  | inl e ↦ subst HasRoom (sym (create_sequential c (block_mapper c.lps_per_chare) e)) (single c t)
  | inr e ↦ elim (eq_or_ne c.total_lps 1) [
    | inl f ↦ subst HasRoom (sym (create_sum c (block_mapper c.lps_per_chare) e f)) (
        let s = blocks c.lps_per_chare c.num_chares n in
        block-HasRoom
          (record c { total_lps = sum_lps (block_mapper c.lps_per_chare).get_num_lps c.num_chares })
          c.lps_per_chare p (omega arith) (omega arith))
    | inr f ↦
        subst HasRoom (sym (create_count c (block_mapper c.lps_per_chare) e f (ground arith))) (
          let (k, s, x, y) = counted c.lps_per_chare c.total_lps p b t in
          block-HasRoom
            (record c {
              num_chares =
                  count_chares (block_mapper c.lps_per_chare).get_num_lps c.total_lps c.total_lps 0
                    0;
            })
            c.lps_per_chare p (omega arith) (rw s x))
  ]
]
  where
    single :
        (c : Config)
        → c.total_lps < 2 ^ 32
        → HasRoom
            (record c { num_chares = 1; lps_per_chare = c.total_lps }, block_mapper c.total_lps)
    single c t gid h =
        block-HasRoom (record c { num_chares = 1; lps_per_chare = c.total_lps }) c.total_lps
          (omega arith) (omega arith) (omega arith) gid h

    blocks : (w n : ℕ) → n * w < 2 ^ 32 → sum_lps (block_mapper w).get_num_lps n ≡ n * w
    blocks w n h = (unfold block_mapper in sum_blocks w n h)

    counted :
        (w total : ℕ)
        → 0 < w
        → w < 2 ^ 32
        → total < 2 ^ 32
        → (k : ℕ) × (count_chares (block_mapper w).get_num_lps total total 0 0 ≡ k)
          × (total ≤ k * w)
          × (k * w < total + w)
    counted w total p b t =
        (unfold block_mapper in
          (let (k, s, x, y) =
              count_first w total total 0 0 p b t (omega arith) (omega arith) (omega arith) in
            (k, s ∙ omega arith, omega arith, omega arith)))

-- With the block mapper and a positive number of LPs for each chare, and where the number of LPs or that
-- of chares is left at its default 1, or the protocol is sequential, tw_create_simulation settles on
-- numbers such that every LP has a place of its own: a chare that exists, an offset that the chare has,
-- and these two map back to the LP. No number may exceed 32 bits.
pub create-IsPlaced :
    (c : Config) (gid : ℕ)
    → 0 < c.lps_per_chare
    → c.lps_per_chare < 2 ^ 32
    → c.total_lps < 2 ^ 32
    → c.num_chares * c.lps_per_chare < 2 ^ 32
    → (c.protocol ≡ sequential) ⊎ (c.total_lps ≡ 1) ⊎ (c.num_chares ≡ 1)
    → gid < (create_simulation (block_mapper c.lps_per_chare) c).0.total_lps
    → IsPlaced (create_simulation (block_mapper c.lps_per_chare) c) gid
create-IsPlaced c gid p b t n d h = create-HasRoom c p b t n d gid h
