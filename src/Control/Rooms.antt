-- ===== src/Control/Rooms.antt =====
-- services/control-plane/internal/usecase/rooms.go: what the operations on rooms do to the tables, to Redis
-- and to the other services. CreateRoom of both media clients does nothing.
pub mod Live
use vks.Common.{
  ℕ, Bool, true, false, not, ◌&&◌, List, [], ◌∷◌, ◌++◌, Option, none, some, Result, ok, err,
  if◌then◌else◌, ◌==◌,
}
use vks.Common.GoString.{GoString, lit, string_eq, is_empty}
use vks.Common.Int.{ℤ, pos, ltb_ℤ}
use vks.Common.Dict.{Dict, lookup, insert, erase}
use vks.Control.Errors.{Code, AppError, invalid_argument, not_found, internal, unavailable}
use vks.Control.Domain.{Layout}
use vks.Control.Tables.{Failure}
use vks.Control.Sql.{room_column, build, execute}
use vks.Control.Store.{
  Value, text, boolean, json, other, Row, RecordingRow, Store, Env, ask, stamp, note, set_alias,
  delete_alias, find_row, delete_row, text_of, json_of, get_roster, kick_peer, broadcast_layout,
  broadcast_slots,
}
use vks.Control.Store

-- domain.Room as it is shown
pub record RoomView (F : Type 0) : Type 0 where
  pub row : Row
  pub layout : Layout F
  pub join_url : GoString

pub record CreateRoomInput (F : Type 0) : Type 0 where
  pub name : GoString
  pub description : GoString
  pub mode : GoString
  pub max_participants : ℤ
  pub waiting_room : Bool
  pub default_layout : Option (Layout F)

abbrev pub app_error : Code → GoString → AppError
app_error c m = record { code = c; message = m }

abbrev pub db_error : AppError
db_error = app_error internal (lit "db")

abbrev pub Done : Type 0
Done = Unit {0}

-- ON DELETE CASCADE of recordings
unfoldable pub without_room : GoString → List RecordingRow → List RecordingRow
without_room id [] = []
without_room id (r ∷ rs) =
    let rest = without_room id rs in if r.room_id == id then rest else r ∷ rest

module _ {F : Type 0} where
  -- Domain and hydrate
  unfoldable pub hydrate : Env F → Row → RoomView F
  hydrate e r = record {
    row = r;
    layout = e.unmarshal (json_of (lookup (lit "default_layout") r.columns));
    join_url = e.pub_url ++ (lit "/r/" ++ r.id);
  }

  unfoldable pub get : Env F → GoString → Store F → Result AppError (RoomView F)
  unfolding hydrate
  get e id s = elim e.query [
    | some x ↦ err db_error
    | none ↦ elim (find_row id s.rooms) [
      | none ↦ err (app_error not_found (lit "room not found"))
      | some r ↦ ok (hydrate e r)
    ]
  ]

  -- The row that the INSERT makes, with the defaults of Create and of the table
  unfoldable pub new_room : Env F → GoString → Layout F → CreateRoomInput F → Row
  new_room e actor grid in_ = record {
    id = e.new_id;
    columns =
        (lit "name", text in_.name)
        ∷ (lit "description", text in_.description)
        ∷ (lit "mode", text (if is_empty in_.mode then lit "meeting" else in_.mode))
        ∷ (
          lit "max_participants",
          other (
              e.to_text
                (if ltb_ℤ (pos 0) in_.max_participants then in_.max_participants else pos 50)),
        )
        ∷ (lit "waiting_room", boolean in_.waiting_room)
        ∷ (lit "locked", boolean false)
        ∷ (lit "recording", boolean false)
        ∷ (
          lit "default_layout",
          json (e.marshal (elim in_.default_layout [ none ↦ grid | some l ↦ l ])),
        )
        ∷ (lit "created_by", text actor)
        ∷ [];
  }

  -- Create; `grid` is the layout of mode grid, 1280 by 720, with nothing else set.
  unfoldable pub create :
      Env F
      → GoString
      → Layout F
      → CreateRoomInput F
      → Store F
      → Result AppError (RoomView F) × Store F
  unfolding new_room hydrate set_alias note
  create e actor grid in_ s =
      if is_empty in_.name
      then (err (app_error invalid_argument (lit "name required")), s)
      else elim e.command [
        | some x ↦ (err db_error, s)
        | none ↦
            let row = new_room e actor grid in_ in
            let stored = record s { rooms = row ∷ s.rooms } in
            (
              ok (hydrate e row),
              note e actor (lit "rooms.create") row.id (set_alias e in_.name row.id stored),
            )
      ]

  -- Rooms.Update of the repository: no fields, no statement
  unfoldable pub update_row :
      Env F → GoString → Dict GoString Value → Store F → Result AppError Done × Store F
  unfolding execute build room_column
  update_row e id [] s = (ok tt, s)
  update_row e id (f ∷ fields) s = elim e.command [
    | some x ↦ (err db_error, s)
    | none ↦
        (ok tt, record s { rooms = execute (stamp e) (build room_column (f ∷ fields) id) s.rooms })
  ]

  -- The alias of the name before, if the row is there and has another name, goes.
  unfoldable pub drop_old_alias : Env F → GoString → GoString → Store F → Store F
  unfolding delete_alias
  drop_old_alias e id name s = elim e.first_query [
    | some x ↦ s
    | none ↦ elim (find_row id s.rooms) [
      | none ↦ s
      | some old ↦
          let before = text_of (lookup (lit "name") old.columns) in
          if before == name then s else delete_alias e before s
    ]
  ]

  -- The part of Update for a new name, before the table is written
  unfoldable pub rename : Env F → GoString → Dict GoString Value → Store F → Store F
  unfolding drop_old_alias set_alias
  rename e id fields s =
      let name = text_of (lookup (lit "name") fields) in
      if is_empty name then s else set_alias e name id (drop_old_alias e id name s)

  unfoldable pub marshalled : Env F → GoString → Dict GoString Value → Dict GoString Value
  marshalled e k fields = elim (lookup k fields) [
    | none ↦ fields
    | some v ↦ insert k (json (e.marshal_value v)) fields
  ]

  -- The end of Update, behind the statement
  unfoldable pub after_update :
      Env F
      → GoString
      → GoString
      → Result AppError Done × Store F
      → Result AppError (RoomView F) × Store F
  unfolding note get
  after_update e actor id (err x, s) = (err x, s)
  after_update e actor id (ok _, s) =
      let noted = note e actor (lit "rooms.update") id s in (get e id noted, noted)

  unfoldable pub update :
      Env F
      → GoString
      → GoString
      → Dict GoString Value
      → Store F
      → Result AppError (RoomView F) × Store F
  unfolding marshalled rename update_row after_update
  update e actor id fields s =
      let set = marshalled e (lit "default_layout") fields in
      after_update e actor id (update_row e id set (rename e id set s))

  unfoldable pub name_before : Env F → GoString → Store F → GoString
  name_before e id s = elim e.first_query [
    | some x ↦ []
    | none ↦ elim (find_row id s.rooms) [
      | none ↦ []
      | some r ↦ text_of (lookup (lit "name") r.columns)
    ]
  ]

  unfoldable pub clear_presence : Env F → GoString → Store F → Store F
  clear_presence e id s = elim e.presence_command [
    | some x ↦ s
    | none ↦ record s { presence = erase id s.presence }
  ]

  unfoldable pub delete : Env F → GoString → GoString → Store F → Result AppError Done × Store F
  unfolding name_before without_room delete_row delete_alias clear_presence note
  delete e actor id s = elim e.command [
    | some x ↦ (err db_error, s)
    | none ↦
        let gone = record s {
          rooms = delete_row id s.rooms;
          recordings = without_room id s.recordings;
        } in
        let unnamed = delete_alias e (name_before e id s) gone in
        (
          ok tt,
          note e actor (lit "rooms.delete") id
              (clear_presence e id (ask (Store.destroy_room id) unnamed)),
        )
  ]

  unfoldable pub noted :
      Env F
      → GoString
      → GoString
      → GoString
      → Result AppError Done × Store F
      → Result AppError Done × Store F
  unfolding note
  noted e actor action id (err x, s) = (err x, s)
  noted e actor action id (ok _, s) = (ok tt, note e actor action id s)

  unfoldable pub set_locked :
      Env F → GoString → GoString → Bool → Store F → Result AppError Done × Store F
  unfolding update_row noted
  set_locked e actor id locked s =
      noted e actor (lit "rooms.lock") id (update_row e id ((lit "locked", boolean locked) ∷ []) s)
