-- ===== src/Control/Routes.antt =====
-- services/control-plane/internal/adapters/httpapi: the routes of router.go that read or change one object,
-- each behind its RequireRole, and the middleware of middleware.go.
pub mod Roles
pub mod Unrecorded
pub mod OneRunning
pub mod Spared
pub mod Admins
use vks.Common.{
  Bool, true, false, ◌&&◌, List, [], ◌∷◌, Option, none, some, Result, ok, err, if◌then◌else◌,
  contains,
}
use vks.Common.GoString.{GoString, lit, string_eq, strip_prefix}
use vks.Common.Dict.{Dict}
use vks.Control.Errors.{unauthorized, forbidden}
use vks.Control.Domain.{Layout, role_admin, role_operator, role_moderator, role_viewer}
use vks.Control.Store.{Value, Store, Env}
use vks.Control.Auth.{LoginAnswers, RefreshAnswers, login, refresh}
use vks.Control.Rooms.{CreateRoomInput, app_error}
use vks.Control.Users.{CreateUserInput}
use vks.Control.Templates.{CreateTemplateInput}
use vks.Control.Http.{Response, tokens, refuse, no_content, with_json, reply}
use vks.Control.Http.RoomHandlers
use vks.Control.Http.RecordingHandlers
use vks.Control.Http.LayoutHandlers
use vks.Control.Http.UserHandlers
use vks.Control.Http.UserHandlers.{PatchUserReq}

-- jwtauth.Claims, less the email
pub record Claims : Type 0 where
  pub user_id : GoString
  pub role : GoString

-- A request behind the middleware Auth, with its {id}, its {peerId} and its body.
pub data Action (F : Type 0) : Type 0 where
  get_me : Action F
  logout : Action F
  create_room : Option (CreateRoomInput F) → Action F
  get_room : GoString → Action F
  patch_room : GoString → Option (Dict GoString Value) → Action F
  delete_room : GoString → Action F
  lock_room : GoString → Action F
  unlock_room : GoString → Action F
  put_layout : GoString → Option (Layout F) → Action F
  get_slots : GoString → Action F
  put_slots : GoString → Option (Dict GoString GoString) → Action F
  get_participants : GoString → Action F
  kick : GoString → GoString → Action F
  start_recording : GoString → Action F
  stop_recording : GoString → Action F
  get_recording : GoString → Action F
  download : GoString → Action F
  delete_recording : GoString → Action F
  create_template : Option CreateTemplateInput → Action F
  get_template : GoString → Action F
  patch_template : GoString → Option (Dict GoString Value) → Action F
  delete_template : GoString → Action F
  create_user : Option CreateUserInput → Action F
  patch_user : GoString → Option PatchUserReq → Action F
  delete_user : GoString → Action F

abbrev everybody : List GoString
everybody = role_admin ∷ role_operator ∷ role_moderator ∷ role_viewer ∷ []

abbrev pub moderators : List GoString
moderators = role_admin ∷ role_operator ∷ role_moderator ∷ []

abbrev pub operators : List GoString
operators = role_admin ∷ role_operator ∷ []

abbrev pub admins : List GoString
admins = role_admin ∷ []

-- RequireRole, one inside the other
unfoldable pub require : List (List GoString) → GoString → Bool
require [] role = true
require (allowed ∷ rest) role = contains allowed role && require rest role

-- The RequireRole calls in front of a handler, the outer first
unfoldable pub guards : {F : Type 0} → Action F → List (List GoString)
guards get_me = []
guards logout = []
guards (create_room _) = everybody ∷ operators ∷ []
guards (get_room _) = everybody ∷ []
guards (patch_room _ _) = everybody ∷ operators ∷ []
guards (delete_room _) = everybody ∷ admins ∷ []
guards (lock_room _) = everybody ∷ moderators ∷ []
guards (unlock_room _) = everybody ∷ moderators ∷ []
guards (put_layout _ _) = everybody ∷ operators ∷ []
guards (get_slots _) = everybody ∷ []
guards (put_slots _ _) = everybody ∷ moderators ∷ []
guards (get_participants _) = everybody ∷ []
guards (kick _ _) = everybody ∷ moderators ∷ []
guards (start_recording _) = everybody ∷ operators ∷ []
guards (stop_recording _) = everybody ∷ operators ∷ []
guards (get_recording _) = []
guards (download _) = []
guards (delete_recording _) = admins ∷ []
guards (create_template _) = everybody ∷ operators ∷ []
guards (get_template _) = everybody ∷ []
guards (patch_template _ _) = everybody ∷ operators ∷ []
guards (delete_template _) = everybody ∷ operators ∷ []
guards (create_user _) = admins ∷ []
guards (patch_user _ _) = admins ∷ []
guards (delete_user _) = admins ∷ []

module _ {F : Type 0} (e : Env F) (grid : Layout F) where
  -- The handler of a route
  unfoldable pub act : GoString → Action F → Store F → Response F × Store F
  act actor get_me s = UserHandlers.get_me e actor s
  act actor logout s = (no_content, s)
  act actor (create_room in_) s = RoomHandlers.room_create e actor grid in_ s
  act actor (get_room id) s = RoomHandlers.room_get e id s
  act actor (patch_room id in_) s = RoomHandlers.room_update e actor id in_ s
  act actor (delete_room id) s = RoomHandlers.room_delete e actor id s
  act actor (lock_room id) s = RoomHandlers.set_lock e actor id true s
  act actor (unlock_room id) s = RoomHandlers.set_lock e actor id false s
  act actor (put_layout id in_) s = RoomHandlers.put_layout e actor id in_ s
  act actor (get_slots id) s = RoomHandlers.get_slots e id s
  act actor (put_slots id in_) s = RoomHandlers.put_slots e actor id in_ s
  act actor (get_participants id) s = RoomHandlers.get_participants e id s
  act actor (kick id peer) s = RoomHandlers.room_kick e actor id peer s
  act actor (start_recording id) s = RecordingHandlers.rec_start e actor id s
  act actor (stop_recording id) s = RecordingHandlers.rec_stop e actor id s
  act actor (get_recording id) s = RecordingHandlers.rec_get e id s
  act actor (download id) s = RecordingHandlers.rec_download e id s
  act actor (delete_recording id) s = RecordingHandlers.rec_delete e actor id s
  act actor (create_template in_) s = LayoutHandlers.template_create e actor in_ s
  act actor (get_template id) s = LayoutHandlers.template_get e id s
  act actor (patch_template id in_) s = LayoutHandlers.template_patch e actor id in_ s
  act actor (delete_template id) s = LayoutHandlers.template_delete e actor id s
  act actor (create_user in_) s = UserHandlers.user_create e actor in_ s
  act actor (patch_user id in_) s = UserHandlers.user_patch e actor id in_ s
  act actor (delete_user id) s = UserHandlers.user_delete e actor id s

  -- RequireRole behind Auth
  unfoldable pub guarded : Claims → Action F → Store F → Response F × Store F
  unfolding act require
  guarded c a s =
      if require (guards a) c.role
      then act c.user_id a s
      else (refuse (app_error forbidden (lit "insufficient role")), s)

  -- Auth behind the check of the token
  unfoldable pub after_parse : Result GoString Claims → Action F → Store F → Response F × Store F
  unfolding guarded
  after_parse (err x) a s = (refuse (app_error unauthorized (lit "invalid token")), s)
  after_parse (ok c) a s = guarded c a s

  -- Auth behind the prefix of the header; `parse` is the check of the JWT library.
  unfoldable pub after_header :
      (GoString → Result GoString Claims)
      → Option GoString
      → Action F
      → Store F
      → Response F × Store F
  unfolding after_parse
  after_header parse none a s = (refuse (app_error unauthorized (lit "missing bearer token")), s)
  after_header parse (some token) a s = after_parse (parse token) a s

  unfoldable pub authorized :
      (GoString → Result GoString Claims) → GoString → Action F → Store F → Response F × Store F
  unfolding after_header
  authorized parse header = after_header parse (strip_prefix (lit "Bearer ") header)

-- The handlers Login and Refresh, which are public
module _ {F : Type 0} where
  unfoldable pub handle_login :
      LoginAnswers → GoString → Option (GoString × GoString) → Store F → Response F × Store F
  unfolding with_json reply
  handle_login a boot_pass in_ = with_json in_ (λ input s.
      let (r, db) = login a boot_pass input.0 input.1 s.db in
      (reply 200 tokens r, record s { db = db }))

  unfoldable pub handle_refresh : RefreshAnswers → Option GoString → Store F → Response F × Store F
  unfolding with_json reply
  handle_refresh a in_ =
      with_json in_ (λ token s.
        let (r, db) = refresh a token s.db in (reply 200 tokens r, record s { db = db }))
