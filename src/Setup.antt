-- ===== src/Setup.antt =====
-- setup/mapper.h and setup/setup.C: where the LPs of a simulation live, and how many chares it has.
-- A mapper is the record of its virtual methods, since a model may have its own; printing and the
-- creation of the chares are left out.
pub mod Cover
mod Tests
use charades.Prelude.{
  ℕ, zero, suc, ◌+◌, ◌*◌, ◌/◌, ◌%◌, ◌^◌, Bool, true, false, ltb, ◌==◌, if◌then◌else◌,
}

-- `LPMapper`.
pub record Mapper : Type 0 where
  pub get_chare_id : ℕ → ℕ
  pub get_local_id : ℕ → ℕ
  pub get_global_id : ℕ → ℕ → ℕ
  pub get_num_lps : ℕ → ℕ

-- `BlockMapper`, where `g_lps_per_chare` is `n`.
unfoldable pub block_mapper : ℕ → Mapper
block_mapper n = record {
  get_chare_id = λ gid. gid / n;
  get_local_id = λ gid. gid % n;
  get_global_id = λ chare i. (n * chare + i) % 2 ^ 64;
  get_num_lps = λ chare. n;
}

pub data Protocol : Type 0 where
  sequential conservative optimistic : Protocol

pub record Config : Type 0 where
  pub protocol : Protocol
  pub total_lps : ℕ
  pub num_chares : ℕ
  pub lps_per_chare : ℕ

-- The loops of `tw_create_simulation`; `total_lps` and `num_chares` have 32 bits, the sum has 64.
unfoldable pub sum_lps : (ℕ → ℕ) → ℕ → ℕ
sum_lps num_lps zero = 0
sum_lps num_lps (suc i) = (sum_lps num_lps i + num_lps i) % 2 ^ 32

-- The loop runs at most once for each LP if every chare has one.
unfoldable pub count_chares : (ℕ → ℕ) → ℕ → ℕ → ℕ → ℕ → ℕ
count_chares num_lps total zero chares sum = chares
count_chares num_lps total (suc fuel) chares sum =
    let rest =
      count_chares num_lps total fuel ((chares + 1) % 2 ^ 32) ((sum + num_lps chares) % 2 ^ 64) in
    if ltb sum total then rest else chares

-- `tw_create_simulation`.
unfoldable pub create_simulation : Mapper → Config → Config × Mapper
create_simulation mapper c = elim c.protocol [
  | sequential ↦
      (record c { num_chares = 1; lps_per_chare = c.total_lps }, block_mapper c.total_lps)
  | _ ↦
      if c.total_lps == 1
      then (record c { total_lps = sum_lps mapper.get_num_lps c.num_chares }, mapper)
      else if c.num_chares == 1
      then (
        record c { num_chares = count_chares mapper.get_num_lps c.total_lps c.total_lps 0 0 },
        mapper,
      )
      else (c, mapper)
]
