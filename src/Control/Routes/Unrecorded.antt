-- ===== src/Control/Routes/Unrecorded.antt =====
-- The requests to the routes that do not touch the table of recordings.
use vks.Common.{◌≡◌, Bool, Option, arith}
use vks.Common.GoString.{GoString, string_eq}
use vks.Control.Domain.{Layout}
use vks.Control.Store.{Value, set_alias, delete_alias, Store, Env, note}
use vks.Common.Dict.{Dict}
use vks.Control.Rooms.{
  CreateRoomInput, update, after_update, update_row, rename, drop_old_alias, set_locked, noted,
}
use vks.Control.Rooms.Live.{update_layout, push_layout, try_ask, assign_slots, kick, forget_peer}
use vks.Control.Templates.{
  CreateTemplateInput, create_template, update_template, after_template, update_template_row,
  delete_template,
}
use vks.Control.Users.{
  CreateUserInput, create_user, set_role, set_password, set_disabled, alter, delete_user,
}
use vks.Control.Http.RoomHandlers
use vks.Control.Http.LayoutHandlers
use vks.Control.Http.UserHandlers.{PatchUserReq, patch_part, patched}
use vks.Control.Http.UserHandlers

module _ {F : Type 0} (e : Env F) where
  pub create-recordings :
      (actor : GoString) (grid : Layout F) (in_ : Option (CreateRoomInput F)) (s : Store F)
      → (RoomHandlers.room_create e actor grid in_ s).1.recordings ≡ s.recordings
  unfolding RoomHandlers.room_create note
  create-recordings actor grid in_ s = ground arith

  pub patch-recordings :
      (actor : GoString) (id : GoString) (in_ : Option (Dict GoString Value)) (s : Store F)
      → (RoomHandlers.room_update e actor id in_ s).1.recordings ≡ s.recordings
  unfolding RoomHandlers.room_update update after_update update_row rename drop_old_alias set_alias
      delete_alias note
  patch-recordings actor id in_ s = ground arith

  pub lock-recordings :
      (actor : GoString) (id : GoString) (b : Bool) (s : Store F)
      → (RoomHandlers.set_lock e actor id b s).1.recordings ≡ s.recordings
  unfolding RoomHandlers.set_lock set_locked noted update_row note
  lock-recordings actor id b s = ground arith

  pub layout-recordings :
      (actor : GoString) (id : GoString) (in_ : Option (Layout F)) (s : Store F)
      → (RoomHandlers.put_layout e actor id in_ s).1.recordings ≡ s.recordings
  unfolding RoomHandlers.put_layout update_layout push_layout update_row try_ask note
  layout-recordings actor id in_ s = ground arith

  pub assign-recordings :
      (actor : GoString) (id : GoString) (in_ : Option (Dict GoString GoString)) (s : Store F)
      → (RoomHandlers.put_slots e actor id in_ s).1.recordings ≡ s.recordings
  unfolding RoomHandlers.put_slots assign_slots note
  assign-recordings actor id in_ s = ground arith

  pub kick-recordings :
      (actor : GoString) (id : GoString) (peer : GoString) (s : Store F)
      → (RoomHandlers.room_kick e actor id peer s).1.recordings ≡ s.recordings
  unfolding RoomHandlers.room_kick kick forget_peer note
  kick-recordings actor id peer s = ground arith

  pub template_create-recordings :
      (actor : GoString) (in_ : Option CreateTemplateInput) (s : Store F)
      → (LayoutHandlers.template_create e actor in_ s).1.recordings ≡ s.recordings
  unfolding LayoutHandlers.template_create create_template note
  template_create-recordings actor in_ s = ground arith

  pub template_patch-recordings :
      (actor : GoString) (id : GoString) (in_ : Option (Dict GoString Value)) (s : Store F)
      → (LayoutHandlers.template_patch e actor id in_ s).1.recordings ≡ s.recordings
  unfolding LayoutHandlers.template_patch update_template after_template update_template_row note
  template_patch-recordings actor id in_ s = ground arith

  pub template_delete-recordings :
      (actor : GoString) (id : GoString) (s : Store F)
      → (LayoutHandlers.template_delete e actor id s).1.recordings ≡ s.recordings
  unfolding LayoutHandlers.template_delete delete_template note
  template_delete-recordings actor id s = ground arith

  pub user_create-recordings :
      (actor : GoString) (in_ : Option CreateUserInput) (s : Store F)
      → (UserHandlers.user_create e actor in_ s).1.recordings ≡ s.recordings
  unfolding UserHandlers.user_create create_user note
  user_create-recordings actor in_ s = ground arith

  pub user_patch-recordings :
      (actor : GoString) (id : GoString) (in_ : Option PatchUserReq) (s : Store F)
      → (UserHandlers.user_patch e actor id in_ s).1.recordings ≡ s.recordings
  unfolding UserHandlers.user_patch patched patch_part set_role set_password set_disabled alter note
  user_patch-recordings actor id in_ s = ground arith

  pub user_delete-recordings :
      (actor : GoString) (id : GoString) (s : Store F)
      → (UserHandlers.user_delete e actor id s).1.recordings ≡ s.recordings
  unfolding UserHandlers.user_delete delete_user note
  user_delete-recordings actor id s = ground arith
