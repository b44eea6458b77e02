-- ===== src/Setup/Tests.antt =====
-- Ten LPs on chares of three.
use charades.Prelude.{◌≡◌, refl, inr, arith}
use charades.Setup.{Config, conservative, block_mapper, create_simulation, count_chares}
use charades.Setup.Cover.{IsPlaced, create-IsPlaced}

abbrev ten : Config
ten = record { protocol = conservative; total_lps = 10; num_chares = 1; lps_per_chare = 3 }

ten_chares : (create_simulation (block_mapper 3) ten).0.num_chares ≡ 4
unfolding create_simulation block_mapper count_chares
ten_chares = refl

ten_lps : (create_simulation (block_mapper 3) ten).0.total_lps ≡ 10
unfolding create_simulation
ten_lps = refl

create-IsPlaced_example : IsPlaced (create_simulation (block_mapper 3) ten) 7
create-IsPlaced_example =
    create-IsPlaced ten 7 (omega arith) (omega arith) (omega arith) (omega arith) (inr (inr refl))
      (ground (arith, ten_lps))
