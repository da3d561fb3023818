-- ===== src/Worker/Layout.antt =====
-- services/media-worker/internal/layout/layout.go: the cells of the mixed picture.
pub mod Everyone
pub mod Grid
use vks.Common.{
  ℕ, zero, suc, ◌+◌, ◌/◌, ◌%◌, Bool, true, false, List, [], ◌∷◌, ◌++◌, arith, if◌then◌else◌, ◌==◌,
  length, leb,
}
use vks.Common.GoString.{GoString, lit, string_eq, is_empty}
use vks.Common.Int.{ℤ, pos, negsuc, pos_part}
use vks.Common.Float.{Float64}
use vks.Common.Sort.{sort}

-- A mode is any string; those that are not listed are laid out as a grid.
abbrev pub Mode : Type 0
Mode = GoString

abbrev pub mode_grid : Mode
mode_grid = lit "grid"

abbrev pub mode_active_speaker : Mode
mode_active_speaker = lit "active_speaker"

abbrev pub mode_lecture : Mode
mode_lecture = lit "lecture"

abbrev pub mode_pip : Mode
mode_pip = lit "pip"

abbrev pub mode_custom : Mode
mode_custom = lit "custom"

pub record Cell (F : Type 0) : Type 0 where
  pub peer_id : GoString
  pub x : F
  pub y : F
  pub w : F
  pub h : F
  pub z : ℤ
  -- the number of the slot that the cell is bound to, or -1
  pub slot_index : ℤ

pub record Spec (F : Type 0) : Type 0 where
  pub mode : Mode
  pub width : ℤ
  pub height : ℤ
  pub cells : List (Cell F)
  pub speaker : GoString
  pub presenter : GoString

-- `peers[0]` of a list that is known not to be empty.
abbrev pub first : List GoString → GoString
first [] = []
first (p ∷ ps) = p

-- `peers[1]`, where there is one
abbrev pub second : List GoString → GoString
second [] = []
second (p ∷ ps) = first ps

abbrev pub or_default : GoString → GoString → GoString
or_default s d = if is_empty s then d else s

-- The peers other than one, in order.
unfoldable pub others : GoString → List GoString → List GoString
others main [] = []
others main (p ∷ ps) = if p == main then others main ps else p ∷ others main ps

module _ {F : Type 0} (fl : Float64 F) where
  open fl use {of_int, to_int, decimal, add, sub, mul, div, sqrt, ceil}

  -- `int(math.Ceil(math.Sqrt(float64(n))))`, which is not negative
  unfoldable pub grid_cols : ℕ → ℕ
  grid_cols n = pos_part (to_int (ceil (sqrt (of_int (pos n)))))

  unfoldable pub grid_rows : ℕ → ℕ
  unfolding grid_cols
  grid_rows n = pos_part (to_int (ceil (div (of_int (pos n)) (of_int (pos (grid_cols n))))))

  -- The cell of column `c` and row `r`, all cells being `w` by `h`.
  abbrev pub grid_cell : F → F → ℕ → ℕ → GoString → Cell F
  grid_cell w h c r peer = record {
    peer_id = peer;
    x = mul (of_int (pos c)) w;
    y = mul (of_int (pos r)) h;
    w = w;
    h = h;
    z = pos 0;
    slot_index = negsuc 0;
  }

  -- The loop of `grid` from index `i` on.
  unfoldable pub grid_from : ℕ → F → F → ℕ → List GoString → List (Cell F)
  grid_from cols w h i [] = []
  grid_from cols w h i (p ∷ ps) =
      grid_cell w h (i % cols) (i / cols) p ∷ grid_from cols w h (suc i) ps

  unfoldable pub grid : Spec F → List GoString → List (Cell F)
  unfolding grid_from grid_cols grid_rows
  grid spec peers =
      let n = length peers in
      let w = div (of_int spec.width) (of_int (pos (grid_cols n))) in
      let h = div (of_int spec.height) (of_int (pos (grid_rows n))) in
      grid_from (grid_cols n) w h 0 peers

  -- The loop of `activeSpeaker`: a row of cells from left to right.
  unfoldable pub thumb_row : F → F → F → ℕ → List GoString → List (Cell F)
  thumb_row y w h i [] = []
  thumb_row y w h i (p ∷ ps) =
      record {
        peer_id = p;
        x = mul (of_int (pos i)) w;
        y = y;
        w = w;
        h = h;
        z = pos 0;
        slot_index = negsuc 0;
      }
      ∷ thumb_row y w h (suc i) ps

  -- The loop of `lecture`: a column of cells from top to bottom.
  unfoldable pub audience : F → F → F → ℕ → List GoString → List (Cell F)
  audience x w h i [] = []
  audience x w h i (p ∷ ps) =
      record {
        peer_id = p;
        x = x;
        y = mul (of_int (pos i)) h;
        w = w;
        h = h;
        z = pos 0;
        slot_index = negsuc 0;
      }
      ∷ audience x w h (suc i) ps

  abbrev pub main_cell : GoString → F → F → Cell F
  main_cell peer w h = record {
    peer_id = peer;
    x = of_int (pos 0);
    y = of_int (pos 0);
    w = w;
    h = h;
    z = pos 1;
    slot_index = negsuc 0;
  }

  unfoldable pub active_speaker : Spec F → List GoString → List (Cell F)
  unfolding thumb_row others sort
  active_speaker spec peers =
      let speaker = or_default spec.speaker (first peers) in
      let thumbs = sort (others speaker peers) in
      let main_h = mul (of_int spec.height) (decimal (pos 8) 1) in
      let th_w = div (of_int spec.width) (of_int (pos (length thumbs))) in
      let th_h = sub (of_int spec.height) main_h in
      main_cell speaker (of_int spec.width) main_h ∷ thumb_row main_h th_w th_h 0 thumbs

  unfoldable pub lecture : Spec F → List GoString → List (Cell F)
  unfolding audience others
  lecture spec peers =
      let presenter = or_default spec.presenter (first peers) in
      let rest = others presenter peers in
      let p_w = mul (of_int spec.width) (decimal (pos 7) 1) in
      let right_w = sub (of_int spec.width) p_w in
      let row_h = div (of_int spec.height) (of_int (pos (length rest))) in
      main_cell presenter p_w (of_int spec.height) ∷ audience p_w right_w row_h 0 rest

  -- The small picture, 16 pixels from the lower right corner.
  abbrev pub corner_cell : Spec F → GoString → Cell F
  corner_cell spec peer =
      let sw = mul (of_int spec.width) (decimal (pos 25) 2) in
      let sh = mul (of_int spec.height) (decimal (pos 25) 2) in
      record {
        peer_id = peer;
        x = sub (sub (of_int spec.width) sw) (of_int (pos 16));
        y = sub (sub (of_int spec.height) sh) (of_int (pos 16));
        w = sw;
        h = sh;
        z = pos 5;
        slot_index = negsuc 0;
      }

  unfoldable pub pip : Spec F → List GoString → List (Cell F)
  pip spec peers =
      main_cell (or_default spec.speaker (first peers)) (of_int spec.width) (of_int spec.height)
      ∷ (if leb 2 (length peers)
          then corner_cell spec (or_default spec.presenter (second peers)) ∷ []
          else [])

  -- The `switch` of Compute.
  unfoldable pub compute_mode : Spec F → List GoString → List (Cell F)
  compute_mode spec peers =
      if spec.mode == mode_custom
      then spec.cells
      else if spec.mode == mode_active_speaker
      then active_speaker spec peers
      else if spec.mode == mode_lecture
      then lecture spec peers
      else if spec.mode == mode_pip
      then pip spec peers
      else grid spec peers

  unfoldable pub compute : Spec F → List GoString → List (Cell F)
  compute spec [] = []
  compute spec (p ∷ ps) = compute_mode spec (p ∷ ps)
