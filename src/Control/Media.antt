-- ===== src/Control/Media.antt =====
-- services/control-plane/internal/adapters/mediarpc/http.go: the requests to a media worker, as bodies that
-- the worker decodes, and what its responses mean. An error of the transport is an argument.
pub mod Slots
use vks.Common.{
  ℕ, Bool, true, false, ◌&&◌, not, ◌/◌, List, [], ◌∷◌, map, Option, none, some, Result, ok, err,
  if◌then◌else◌, ◌==◌, ℕ_eq,
}
use vks.Common.GoString.{GoString, lit, itoa}
use vks.Common.Int.{ℤ, pos}
use vks.Common.Dict.{Dict}
use vks.Control.Domain.{Layout, LayoutCell}
use vks.Control.Tables.{Failure}
use vks.Worker.Room.State.{CustomCell}
use vks.Worker.Handlers.{Response, Body, slots, path, path_size, LayoutReq}

-- The map that AssignSlots marshals; the texts of different numbers differ.
unfoldable pub slots_body : Dict ℤ GoString → Dict GoString GoString
slots_body = map (λ (k, v). (itoa k, v))

-- `StatusCode/100 != 2`
abbrev pub is_ok : Response → Bool
is_ok r = (r.code / 100) == 2

-- What DestroyRoom, UpdateLayout, AssignSlots and KickPeer make of an answer: a room that is not there is
-- no error.
unfoldable pub acknowledged : Result GoString Response → Failure
acknowledged (err x) = some x
acknowledged (ok r) = if is_ok r then none else if r.code == 404 then none else some (lit "media")

-- A JSON body without the field is decoded to an empty one.
unfoldable pub roster_of : Result GoString Response → Result GoString (Dict GoString GoString)
roster_of (err x) = err x
roster_of (ok r) = if is_ok r then elim r.body [ slots d ↦ ok d | b ↦ ok [] ] else ok []

unfoldable pub started_of : Result GoString Response → Result GoString GoString
started_of (err x) = err x
started_of (ok r) =
    if is_ok r then elim r.body [ path p ↦ ok p | b ↦ ok [] ] else err (lit "StartRecording")

unfoldable pub stopped_of : Result GoString Response → Result GoString (GoString × ℤ)
stopped_of (err x) = err x
stopped_of (ok r) =
    if is_ok r
    then elim r.body [ path_size p n ↦ ok (p, n) | b ↦ ok ([], pos 0) ]
    else err (lit "StopRecording")

-- The body of UpdateLayout; omitempty leaves out only what the worker decodes to the same zero.
unfoldable pub layout_cell : {F : Type 0} → LayoutCell F → CustomCell F
layout_cell c = record { id = c.id; x = c.x; y = c.y; w = c.w; h = c.h; z = c.z_index; vad = c.vad }

unfoldable pub layout_body : {F : Type 0} → Layout F → LayoutReq F
unfolding layout_cell
layout_body l = record {
  mode = l.mode;
  width = l.width;
  height = l.height;
  cells = map layout_cell l.cells;
  show_names = l.show_names;
  name_bg_alpha = l.name_bg_alpha;
  name_bg_color = l.name_bg_color;
  name_font_size = l.name_font_size;
  name_font_color = l.name_font_color;
}
