-- ===== src/Control/Routes/Spared/RoomChanges.antt =====
-- services/control-plane/internal/usecase: rooms.go and layouts.go spare accounts, rooms and recordings.
use vks.Common.{Bool, [], ◌∷◌, Result, arith}
use vks.Common.GoString.{GoString, lit, string_eq}
use vks.Common.Dict.{Dict}
use vks.Common.Int.{ℤ}
use vks.Control.Domain.{Layout}
use vks.Control.Errors.{AppError}
use vks.Control.Store.{
  Value, Row, RecordingRow, Store, Env, ask, stamp, note, set_alias, delete_alias,
}
use vks.Control.Store
use vks.Control.Sql.{build, room_column}
use vks.Control.Rooms.{
  CreateRoomInput, Done, create, marshalled, update, after_update, update_row, rename,
  drop_old_alias, set_locked, noted,
}
use vks.Control.Rooms.Live.{update_layout, push_layout, try_ask, assign_slots, kick, forget_peer}
use vks.Control.Templates.{
  CreateTemplateInput, create_template, update_template, after_template, update_template_row,
  delete_template,
}
use vks.Control.Routes.Spared.{has_room-execute, Spared, spared, both, of_Unmoved}

module _ {F : Type 0} (e : Env F) where
  pub create-Spared :
      (actor : GoString) (grid : Layout F) (in_ : CreateRoomInput F) (s : Store F)
      → Spared s (create e actor grid in_ s).1
  unfolding create note set_alias
  create-Spared actor grid in_ s = record {
    users = ground arith;
    tokens = ground arith;
    rooms = λ id there. ground arith;
    recordings = λ id there. ground arith;
  }

  pub rename-Spared :
      (id : GoString) (fields : Dict GoString Value) (s : Store F) → Spared s (rename e id fields s)
  unfolding rename drop_old_alias set_alias delete_alias
  rename-Spared id fields s = of_Unmoved (ground arith)

  pub update_row-Spared :
      (id : GoString) (fields : Dict GoString Value) (s : Store F)
      → Spared s (update_row e id fields s).1
  unfolding update_row
  update_row-Spared id [] s = spared s
  update_row-Spared id (f ∷ fields) s = record {
    users = ground arith;
    tokens = ground arith;
    rooms = λ x there.
        ground (arith, has_room-execute x (stamp e) (build room_column (f ∷ fields) id) s.rooms);
    recordings = λ x there. ground arith;
  }

  pub note-Spared : (actor action id : GoString) (s : Store F) → Spared s (note e actor action id s)
  unfolding note
  note-Spared actor action id s = of_Unmoved (ground arith)

  pub after_update-Spared :
      (actor id : GoString) (r : Result AppError Done) (s : Store F)
      → Spared s (after_update e actor id (r, s)).1
  unfolding after_update note
  after_update-Spared actor id r s = of_Unmoved (ground arith)

  pub update-Spared :
      (actor id : GoString) (fields : Dict GoString Value) (s : Store F)
      → Spared s (update e actor id fields s).1
  unfolding update
  update-Spared actor id fields s =
      let set = marshalled e (lit "default_layout") fields in
      let named = rename e id set s in
      let row = update_row e id set named in
      both (rename-Spared id set s)
        (both (update_row-Spared id set named) (after_update-Spared actor id row.0 row.1))

  pub noted-Spared :
      (actor action id : GoString) (r : Result AppError Done × Store F)
      → Spared r.1 (noted e actor action id r).1
  unfolding noted note
  noted-Spared actor action id (r, s) = of_Unmoved (ground arith)

  pub set_locked-Spared :
      (actor id : GoString) (locked : Bool) (s : Store F)
      → Spared s (set_locked e actor id locked s).1
  unfolding set_locked
  set_locked-Spared actor id locked s =
      let set : Dict GoString Value = (lit "locked", Store.boolean locked) ∷ [] in
      both (update_row-Spared id set s)
        (noted-Spared actor (lit "rooms.lock") id (update_row e id set s))

  pub push_layout-Spared :
      (actor id : GoString) (l : Layout F) (r : Result AppError Done × Store F)
      → Spared r.1 (push_layout e actor id l r).1
  unfolding push_layout try_ask note
  push_layout-Spared actor id l (r, s) = of_Unmoved (ground arith)

  pub update_layout-Spared :
      (actor id : GoString) (l : Layout F) (s : Store F) → Spared s (update_layout e actor id l s).1
  unfolding update_layout
  update_layout-Spared actor id l s =
      let set : Dict GoString Value = (lit "default_layout", Store.json (e.marshal l)) ∷ [] in
      both (update_row-Spared id set s) (push_layout-Spared actor id l (update_row e id set s))

  pub assign_slots-Spared :
      (actor id : GoString) (m : Dict ℤ GoString) (s : Store F)
      → Spared s (assign_slots e actor id m s).1
  unfolding assign_slots note
  assign_slots-Spared actor id m s = of_Unmoved (ground arith)

  pub kick-Spared : (actor id peer : GoString) (s : Store F) → Spared s (kick e actor id peer s).1
  unfolding kick forget_peer note
  kick-Spared actor id peer s = of_Unmoved (ground arith)

  pub create_template-Spared :
      (actor : GoString) (in_ : CreateTemplateInput) (s : Store F)
      → Spared s (create_template e actor in_ s).1
  unfolding create_template note
  create_template-Spared actor in_ s = of_Unmoved (ground arith)

  pub update_template-Spared :
      (actor id : GoString) (fields : Dict GoString Value) (s : Store F)
      → Spared s (update_template e actor id fields s).1
  unfolding update_template after_template update_template_row note
  update_template-Spared actor id fields s = of_Unmoved (ground arith)

  pub delete_template-Spared :
      (actor id : GoString) (s : Store F) → Spared s (delete_template e actor id s).1
  unfolding delete_template note
  delete_template-Spared actor id s = of_Unmoved (ground arith)
