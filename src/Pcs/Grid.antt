-- ===== src/Pcs/Grid.antt =====
-- The grid of cells: its mapping to chares, and the moves between neighbours.
use charades.Prelude.{
  ℕ, ◌+◌, ◌-◌, ◌*◌, ◌/◌, ◌%◌, ◌<◌, ◌≡◌, ap, ◌∙◌, ◌==◌, if◌then◌else◌, some, arith,
}
use charades.Pcs.{compute_move, grid_map, local_map, init_map, num_cells}

-- The maps of the model agree: a cell below 2^16 has a chare below 2^12 and a place below 16, and the cell
-- that pcs_init_map puts there is this one.
pub init-maps :
    (gid : ℕ)
    → gid < 65536
    → (grid_map gid < 4096) × (local_map gid < 16) × (init_map (grid_map gid) (local_map gid) ≡ gid)
unfolding grid_map local_map init_map
init-maps gid h = (omega arith, omega arith, omega arith)

-- The destination of a move, if the direction is below 4.
abbrev neighbour : ℕ → ℕ → ℕ
neighbour lpid d =
    let y = lpid / num_cells in
    let x = lpid % num_cells in
    if d == 0
    then ((x + 255) % num_cells + y * num_cells)
    else if d == 1
    then ((x + 1) % num_cells + y * num_cells)
    else if d == 2
    then (x + ((y + 255) % num_cells) * num_cells)
    else (x + ((y + 1) % num_cells) * num_cells)

pub compute_move-neighbour :
    (lpid d : ℕ) → lpid < 65536 → d < 4 → compute_move lpid d ≡ some (neighbour lpid d)
unfolding compute_move
compute_move-neighbour lpid d h k = ground arith

pub neighbour_bound : (lpid d : ℕ) → lpid < 65536 → neighbour lpid d < 65536
neighbour_bound lpid d h = ground arith

-- The direction that leads back.
abbrev pub opposite : ℕ → ℕ
opposite d = if d % 2 == 0 then d + 1 else d - 1

neighbour_back :
    (lpid d : ℕ) → lpid < 65536 → d < 4 → neighbour (neighbour lpid d) (opposite d) ≡ lpid
neighbour_back lpid d h k = ground arith

-- From a cell of the grid, a move in any of the four directions leads to a cell of the grid, and the
-- move in the opposite direction leads back.
pub compute_move_back :
    (lpid d : ℕ)
    → lpid < 65536
    → d < 4
    → (n : ℕ) × (compute_move lpid d ≡ some n)
      × (n < 65536)
      × (compute_move n (opposite d) ≡ some lpid)
compute_move_back lpid d h k =
    let n = neighbour lpid d in
    (
      n,
      compute_move-neighbour lpid d h k,
      neighbour_bound lpid d h,
      compute_move-neighbour n (opposite d) (neighbour_bound lpid d h) (ground arith)
          ∙ ap some (neighbour_back lpid d h k),
    )
