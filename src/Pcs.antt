-- ===== src/Pcs.antt =====
-- models/pcs/pcs.C and pcs.h: the personal communication service, a grid of cells with channels for
-- calls. A portable travels as one event between the cells, and each handler passes it on.
-- `int` fields are words of 32 bits; ids of cells are below 2^31.
pub mod Grid
pub mod Moves
pub mod Calls
pub mod Handlers
pub mod Idle
pub mod Reverse
pub mod Undo
pub mod Commuting
pub mod Rollback
pub mod Channels
pub mod StartUp
pub mod Network
pub mod Loops
pub mod Returns
pub mod Ties
mod Tests
use charades.Prelude.{
  ℕ, ◌+◌, ◌-◌, ◌*◌, ◌/◌, ◌%◌, ◌^◌, Bool, true, false, ◌&&◌, ltb, ◌==◌, if◌then◌else◌, Option, none,
  some,
}
use charades.Clcg4.{Clcg4}
use charades.Random.{Floats}

abbrev pub num_cells : ℕ
num_cells = 256

abbrev pub num_vp : ℕ
num_vp = 64

abbrev pub cell_vp : ℕ
cell_vp = num_cells / num_vp

-- `Cell_ComputeMove`; `tw_lpid` is an unsigned number of 64 bits, and `none` is `tw_error`.
unfoldable pub compute_move : ℕ → ℕ → Option ℕ
compute_move lpid direction =
    let y = lpid / num_cells in
    let x = lpid - y * num_cells in
    let west = ((x + (2 ^ 64 - 1)) % 2 ^ 64 + num_cells) % 2 ^ 64 % num_cells in
    let north = ((y + (2 ^ 64 - 1)) % 2 ^ 64 + num_cells) % 2 ^ 64 % num_cells in
    if direction == 0
    then some (west + y * num_cells)
    else if direction == 1
    then some ((x + 1) % num_cells + y * num_cells)
    else if direction == 2
    then some (x + north * num_cells)
    else if direction == 3
    then some (x + ((y + 1) % num_cells) * num_cells)
    else none

-- `pcs_grid_map`: the chare of a cell.
unfoldable pub grid_map : ℕ → ℕ
grid_map gid =
    let local_x = ((gid % num_cells) / cell_vp) % num_vp in
    let local_y = ((gid / num_cells) / cell_vp) % num_vp in local_y * num_vp + local_x

-- `pcs_local_map`: the place of a cell in its chare.
unfoldable pub local_map : ℕ → ℕ
local_map gid =
    let local_x = (gid % num_cells) % cell_vp in
    let local_y = (gid / num_cells) % cell_vp in local_y * cell_vp + local_x

-- `pcs_init_map`: the cell at a place of a chare.
unfoldable pub init_map : ℕ → ℕ → ℕ
init_map chare local_id =
    let off_x = (chare % num_vp) * cell_vp + local_id % cell_vp in
    let off_y = (chare / num_vp) * cell_vp + local_id / cell_vp in off_y * num_cells + off_x

-- `struct State`, without the two fields that nothing reads.
pub record State : Type 0 where
  pub normal_channels : ℕ
  pub reserve_channels : ℕ
  pub portables_in : ℕ
  pub portables_out : ℕ
  pub call_attempts : ℕ
  pub channel_blocks : ℕ
  pub busy_lines : ℕ
  pub handoff_blocks : ℕ
  pub cell_location_x : ℕ
  pub cell_location_y : ℕ

abbrev pub max_normal_channels : ℕ
max_normal_channels = 10

abbrev pub max_reserve_channels : ℕ
max_reserve_channels = 0

-- `n++` and `n--` on a word, and the signed test `n > max`.
abbrev pub inc : ℕ → ℕ
inc n = (n + 1) % 2 ^ 32

abbrev pub dec : ℕ → ℕ
dec n = (n + (2 ^ 32 - 1)) % 2 ^ 32

abbrev pub exceeds : ℕ → ℕ → Bool
exceeds n max = ltb n (2 ^ 31) && ltb max n

-- `MethodName_t`, with any other number.
pub data Method : Type 0 where
  nextcall_method completioncall_method movecallin_method movecallout_method invalid_method : Method

-- `Channel_t`; `no_channel` is `NONE`.
pub data Channel : Type 0 where
  no_channel normal_ch reserve : Channel

abbrev pub is_normal_ch : Channel → Bool
is_normal_ch normal_ch = true
is_normal_ch no_channel = false
is_normal_ch reserve = false

abbrev pub is_reserve : Channel → Bool
is_reserve reserve = true
is_reserve no_channel = false
is_reserve normal_ch = false

-- `Min_t`.
pub data Min : Type 0 where
  completecall nextcall movecall : Min

-- The bits of `tw_bf` that the handlers use, and the counter `RC.wl1` of the message.
pub record Trace : Type 0 where
  pub c1 : Bool
  pub c2 : Bool
  pub c3 : Bool
  pub wl1 : ℕ

-- What the handlers of a cell change: its state and its random numbers.
pub record Cell : Type 0 where
  pub sv : State
  pub rng : Clcg4

module _ (f : Floats) where
  -- `struct Msg_Data`, without its counter.
  pub record Msg : Type 0 where
    pub method : Method
    pub completion_ts : f.Double
    pub next_ts : f.Double
    pub move_ts : f.Double
    pub channel : Channel

  -- An event that a handler sends: its destination, offset and data.
  pub record Send : Type 0 where
    pub dest : ℕ
    pub offset : f.Double
    pub msg : Msg

  -- `Cell_MinTS`.
  unfoldable pub min_ts : Msg → Min
  min_ts m =
      if f.less m.completion_ts m.next_ts
      then (if f.less m.completion_ts m.move_ts then completecall else movecall)
      else (if f.less m.next_ts m.move_ts then nextcall else movecall)
