-- ===== src/Worker/Room/Picture.antt =====
-- The picture of a room: its layout mode, the custom cells and their resolution to peers (room.go:
-- SetLayout, SetCustomLayout, applyLayout, resolveCellID).
pub mod Laws
use vks.Common.{
  ℕ, Bool, true, false, not, ◌&&◌, List, [], ◌∷◌, map, Option, none, some, if◌then◌else◌, ◌==◌,
  length, ltb, get_elem?,
}
use vks.Common.GoString.{GoString, lit, string_eq, is_empty, strip_prefix, atoi}
use vks.Common.Int.{ℤ, pos, negsuc}
use vks.Common.Float.{Float64}
use vks.Worker.Layout.{Mode, Cell, Spec, mode_custom, compute}
use vks.Worker.Room.State.{Room, CustomCell, World, Call, pipeline_layout, emit, update}

-- `slots[n]` for an n in range
abbrev pub slot_at : List GoString → ℕ → GoString
slot_at ss n = elim (get_elem? ss n) [ none ↦ [] | some p ↦ p ]

-- The number N of an id "slot-N": `none` if the prefix is missing, `some none` if N is no number of a
-- slot.
unfoldable pub slot_number : ℕ → GoString → Option (Option ℕ)
unfolding strip_prefix atoi
slot_number size id = elim (strip_prefix (lit "slot-") id) [
  | none ↦ none
  | some rest ↦ elim (atoi rest) [
    | none ↦ some none
    | some (pos n) ↦ if ltb n size then some (some n) else some none
    | some (negsuc n) ↦ some none
  ]
]

unfoldable pub resolve_cell_id : GoString → List GoString → GoString → GoString
resolve_cell_id id slots speaker =
    if id == lit "speaker" then speaker else elim (slot_number (length slots) id) [
      | none ↦ id
      | some none ↦ []
      | some (some n) ↦ slot_at slots n
    ]

unfoldable pub cell_slot_index : ℕ → GoString → ℤ
unfolding slot_number
cell_slot_index size id = elim (slot_number size id) [
  | none ↦ negsuc 0
  | some none ↦ negsuc 0
  | some (some n) ↦ pos n
]

-- The loop body of applyLayout: a cell that is marked VAD goes to whoever speaks.
unfoldable pub place : {F : Type 0} → List GoString → GoString → CustomCell F → Cell F
unfolding resolve_cell_id cell_slot_index
place slots speaker c = record {
  peer_id = if c.vad && not (is_empty speaker) then speaker else resolve_cell_id c.id slots speaker;
  x = c.x;
  y = c.y;
  w = c.w;
  h = c.h;
  z = c.z;
  slot_index = cell_slot_index (length slots) c.id;
}

abbrev has_cells : {F : Type 0} → List (CustomCell F) → Bool
has_cells [] = false
has_cells (c ∷ cs) = true

module _ {F : Type 0} (fl : Float64 F) where
  -- The cells that applyLayout hands to the compositor.
  unfoldable pub picture : Room F → List (Cell F)
  picture r =
      if r.mode == mode_custom && has_cells r.custom_cells
      then map (place r.slots r.det.current) r.custom_cells
      else compute fl
          (record {
            mode = r.mode;
            width = r.width;
            height = r.height;
            cells = [];
            speaker = r.det.current;
            presenter = [];
          })
          r.join_order

  -- An error of UpdateLayout is only logged.
  unfoldable pub apply_layout : World F → World F
  apply_layout s = emit (pipeline_layout (picture s.room)) s

  unfoldable pub set_layout : Mode → World F → World F
  unfolding apply_layout
  set_layout m s = apply_layout (
      update
        (λ r. record r { mode = m; custom_cells = if m == mode_custom then r.custom_cells else [] })
        s)

  unfoldable pub set_custom_layout : List (CustomCell F) → World F → World F
  unfolding apply_layout
  set_custom_layout cells s =
      apply_layout (update (λ r. record r { mode = mode_custom; custom_cells = cells }) s)
