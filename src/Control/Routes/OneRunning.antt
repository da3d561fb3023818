-- ===== src/Control/Routes/OneRunning.antt =====
-- What the requests to the routes do to recordings: a history of them leaves at most one running in a room.
use vks.Common.{◌≡◌, true, false, ◌≤◌, List, [], ◌∷◌, Option, none, some, Result, ok, err, arith}
use vks.Common.GoString.{GoString, lit, string_eq, strip_prefix}
use vks.Common.Lists.{All}
use vks.Control.Domain.{Layout}
use vks.Control.Store.{RecordingRow, delete_alias, Store, Env, note}
use vks.Control.Rooms.{
  CreateRoomInput, update, after_update, update_row, rename, drop_old_alias, set_locked, noted,
  without_room, clear_presence,
}
use vks.Control.Rooms
use vks.Control.Recordings.Running.{
  count_running, OneRunning, start-OneRunning, stop-fewer, delete_rec-fewer, count_running-without,
}
use vks.Control.Recordings.{start, stop, delete_rec}
use vks.Control.Http.{empty, recording, replied}
use vks.Control.Http.RoomHandlers
use vks.Control.Http.RecordingHandlers
use vks.Control.Http.UserHandlers.{PatchUserReq, patch_part, patched}
use vks.Control.Http.UserHandlers
use vks.Control.Routes.Roles.{
  room_get-SameTables, get_slots-SameTables, get_participants-SameTables, rec_get-SameTables,
  rec_download-SameTables, template_get-SameTables,
}
use vks.Control.Http.Keeps.{with_id-keeps}
use vks.Control.Routes.Unrecorded.{
  create-recordings, patch-recordings, lock-recordings, layout-recordings, assign-recordings,
  kick-recordings, template_create-recordings, template_patch-recordings,
  template_delete-recordings, user_create-recordings, user_patch-recordings, user_delete-recordings,
}
use vks.Control.Routes.{
  Claims, Action, act, guards, require, guarded, after_parse, after_header, authorized,
}
use vks.Control.Routes

kept : {rs ts : List RecordingRow} → ts ≡ rs → OneRunning rs → OneRunning ts
kept equal most room = rw equal (most room)

fewer :
    (rs ts : List RecordingRow)
    → ((room : GoString) → count_running room ts ≤ count_running room rs)
    → OneRunning rs
    → OneRunning ts
fewer rs ts less most room = omega (arith, less room, most room)

-- The query for a running recording answers, where a request makes it to start one.
abbrev pub RunningIsRead : {F : Type 0} → Env F → Action F → Type 0
RunningIsRead e (Routes.start_recording id) = e.query ≡ none
RunningIsRead e a = Unit

module _ {F : Type 0} (e : Env F) (grid : Layout F) where
  delete_room-fewer :
      (actor id : GoString) (s : Store F) (room : GoString)
      → count_running room (Rooms.delete e actor id s).1.recordings
        ≤ count_running room s.recordings
  unfolding Rooms.delete delete_alias clear_presence note
  delete_room-fewer actor id s room = ground (arith, count_running-without room id s.recordings)

  act-OneRunning :
      (actor : GoString) (a : Action F) (s : Store F)
      → RunningIsRead e a
      → OneRunning s.recordings
      → OneRunning (act e grid actor a s).1.recordings
  unfolding act UserHandlers.get_me RoomHandlers.room_get RoomHandlers.get_slots
      RoomHandlers.get_participants RoomHandlers.room_delete RecordingHandlers.rec_start
      RecordingHandlers.rec_stop RecordingHandlers.rec_delete replied
  act-OneRunning actor Routes.get_me s read most = most
  act-OneRunning actor Routes.logout s read most = most
  act-OneRunning actor (Routes.create_room i) s read most =
      kept (create-recordings e actor grid i s) most
  act-OneRunning actor (Routes.get_room id) s read most =
      kept (room_get-SameTables e id s).recordings most
  act-OneRunning actor (Routes.patch_room id i) s read most =
      kept (patch-recordings e actor id i s) most
  act-OneRunning actor (Routes.delete_room id) s read most =
      with_id-keeps e (λ t. OneRunning t.recordings) id
        (λ i s. replied 204 (λ _. empty) (Rooms.delete e actor i s)) s most
        (λ i. fewer s.recordings _ (delete_room-fewer actor i s) most)
  act-OneRunning actor (Routes.lock_room id) s read most =
      kept (lock-recordings e actor id true s) most
  act-OneRunning actor (Routes.unlock_room id) s read most =
      kept (lock-recordings e actor id false s) most
  act-OneRunning actor (Routes.put_layout id i) s read most =
      kept (layout-recordings e actor id i s) most
  act-OneRunning actor (Routes.get_slots id) s read most =
      kept (get_slots-SameTables e id s).recordings most
  act-OneRunning actor (Routes.put_slots id i) s read most =
      kept (assign-recordings e actor id i s) most
  act-OneRunning actor (Routes.get_participants id) s read most =
      kept (get_participants-SameTables e id s).recordings most
  act-OneRunning actor (Routes.kick id peer) s read most =
      kept (kick-recordings e actor id peer s) most
  act-OneRunning actor (Routes.start_recording id) s read most =
      with_id-keeps e (λ t. OneRunning t.recordings) id
        (λ i s. replied 200 recording (start e actor i s)) s most
        (λ i. start-OneRunning e actor i s read most)
  act-OneRunning actor (Routes.stop_recording id) s read most =
      with_id-keeps e (λ t. OneRunning t.recordings) id
        (λ i s. replied 200 recording (stop e actor i s)) s most
        (λ i. fewer s.recordings _ (stop-fewer e actor i s) most)
  act-OneRunning actor (Routes.get_recording id) s read most =
      kept (rec_get-SameTables e id s).recordings most
  act-OneRunning actor (Routes.download id) s read most =
      kept (rec_download-SameTables e id s).recordings most
  act-OneRunning actor (Routes.delete_recording id) s read most =
      with_id-keeps e (λ t. OneRunning t.recordings) id
        (λ i s. replied 204 (λ _. empty) (delete_rec e actor i s)) s most
        (λ i. fewer s.recordings _ (delete_rec-fewer e actor i s) most)
  act-OneRunning actor (Routes.create_template i) s read most =
      kept (template_create-recordings e actor i s) most
  act-OneRunning actor (Routes.get_template id) s read most =
      kept (template_get-SameTables e id s).recordings most
  act-OneRunning actor (Routes.patch_template id i) s read most =
      kept (template_patch-recordings e actor id i s) most
  act-OneRunning actor (Routes.delete_template id) s read most =
      kept (template_delete-recordings e actor id s) most
  act-OneRunning actor (Routes.create_user i) s read most =
      kept (user_create-recordings e actor i s) most
  act-OneRunning actor (Routes.patch_user id i) s read most =
      kept (user_patch-recordings e actor id i s) most
  act-OneRunning actor (Routes.delete_user id) s read most =
      kept (user_delete-recordings e actor id s) most

-- A request, with what the surroundings answer while it is served
pub record Request (F : Type 0) : Type 0 where
  pub env : Env F
  pub parse : GoString → Result GoString Claims
  pub header : GoString
  pub action : Action F

module _ {F : Type 0} (grid : Layout F) where
  unfoldable pub serve : List (Request F) → Store F → Store F
  unfolding authorized
  serve [] s = s
  serve (q ∷ qs) s = serve qs (authorized q.env grid q.parse q.header q.action s).1

  guarded-OneRunning :
      (e : Env F) (c : Claims) (a : Action F) (s : Store F)
      → RunningIsRead e a
      → OneRunning s.recordings
      → OneRunning (guarded e grid c a s).1.recordings
  unfolding guarded
  guarded-OneRunning e c a s read most room =
      ground (arith, act-OneRunning e grid c.user_id a s read most room, most room)

  after_parse-OneRunning :
      (e : Env F) (r : Result GoString Claims) (a : Action F) (s : Store F)
      → RunningIsRead e a
      → OneRunning s.recordings
      → OneRunning (after_parse e grid r a s).1.recordings
  unfolding after_parse
  after_parse-OneRunning e (err x) a s read most = most
  after_parse-OneRunning e (ok c) a s read most = guarded-OneRunning e c a s read most

  after_header-OneRunning :
      (e : Env F) (parse : GoString → Result GoString Claims) (o : Option GoString) (a : Action F)
      (s : Store F)
      → RunningIsRead e a
      → OneRunning s.recordings
      → OneRunning (after_header e grid parse o a s).1.recordings
  unfolding after_header
  after_header-OneRunning e parse none a s read most = most
  after_header-OneRunning e parse (some token) a s read most =
      after_parse-OneRunning e (parse token) a s read most

  -- A history of requests to the routes, in any order and by anybody, keeps that at most one recording of
  -- each room runs, if the query for a running recording that a start makes never fails.
  pub serve-OneRunning :
      (qs : List (Request F)) (s : Store F)
      → All (λ q. RunningIsRead q.env q.action) qs
      → OneRunning s.recordings
      → OneRunning (serve qs s).recordings
  unfolding serve
  serve-OneRunning [] s read most = most
  serve-OneRunning (q ∷ qs) s (read, rest) most = serve-OneRunning qs _ rest (
      after_header-OneRunning q.env q.parse (strip_prefix (lit "Bearer ") q.header) q.action s read
        most)
