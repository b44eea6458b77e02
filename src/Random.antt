-- ===== src/Random.antt =====
-- util/random.h: the random numbers that models draw. The floating-point numbers of the language are
-- an argument, with the few operations on them that the models call; the state of the generator is
-- that of CLCG4, which `RNG` stands for.
use charades.Prelude.{ℕ, ◌+◌, ◌-◌, Bool, ltb, if◌then◌else◌}
use charades.Clcg4.{Clcg4, draw}

-- The type `double`. `output` is the number in (0, 1) that a draw of CLCG4 returns with its new state,
-- `log_scaled l u` is `-l * log(u)`, and `scaled u n` is `(int64_t)(u * n)`.
pub record Floats : Type 1 where
  pub Double : Type 0
  pub less : Double → Double → Bool
  pub differs : Double → Double → Bool
  pub plus : Double → Double → Double
  pub minus : Double → Double → Double
  pub fmax : Double → Double → Double
  pub of_int : ℕ → Double
  pub huge_val : Double
  pub output : Clcg4 → Double
  pub log_scaled : Double → Double → Double
  pub scaled : Double → ℕ → ℕ

module _ (f : Floats) where
  unfoldable pub tw_rand_unif : Clcg4 → f.Double × Clcg4
  tw_rand_unif g = (f.output (draw g), draw g)

  unfoldable pub tw_rand_integer : Clcg4 → ℕ → ℕ → ℕ × Clcg4
  unfolding tw_rand_unif
  tw_rand_integer g low high =
      let (u, g') = tw_rand_unif g in
      if ltb high low then (0, g) else (low + f.scaled u ((high + 1) - low), g')

  unfoldable pub tw_rand_exponential : Clcg4 → f.Double → f.Double × Clcg4
  unfolding tw_rand_unif
  tw_rand_exponential g lambda = let (u, g') = tw_rand_unif g in (f.log_scaled lambda u, g')
