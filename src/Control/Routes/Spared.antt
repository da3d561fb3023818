-- ===== src/Control/Routes/Spared.antt =====
-- What only administrators may change, and the requests that spare it.
pub mod RoomChanges
pub mod RecordingChanges
use vks.Common.{
  ◌≡◌, ◌∙◌, refl, Bool, true, false, ◌||◌, List, [], ◌∷◌, Option, none, some, Result, ok, err,
  arith, ◌==◌,
}
use vks.Common.GoString.{GoString, lit, string_eq}
use vks.Common.Dict.{Dict}
use vks.Common.Int.{ℤ}
use vks.Control.Domain.{Layout}
use vks.Control.Errors.{AppError}
use vks.Control.Tables.{Failure}
use vks.Control.Store.{Value, Row, RecordingRow, Store, Env, ask, note, set_alias, delete_alias}
use vks.Control.Store
use vks.Control.Sql.{Statement, build, execute, room_column}
use vks.Control.Rooms.{
  CreateRoomInput, Done, create, marshalled, update, after_update, update_row, rename,
  drop_old_alias, set_locked, noted,
}
use vks.Control.Rooms.Live.{update_layout, push_layout, try_ask, assign_slots, kick, forget_peer}
use vks.Control.Recordings.{
  change_recording, as_failed, as_finished, fail, begin, start, finish, stop_found, stop,
  find_running, new_recording,
}
use vks.Control.Templates.{
  CreateTemplateInput, create_template, update_template, after_template, update_template_row,
  delete_template,
}

abbrev pub has_room : GoString → List Row → Bool
has_room id [] = false
has_room id (r ∷ rs) = let rest = has_room id rs in r.id == id || rest

abbrev pub has_recording : GoString → List RecordingRow → Bool
has_recording id [] = false
has_recording id (r ∷ rs) = let rest = has_recording id rs in r.id == id || rest

-- Accounts and refresh tokens are as before, and no room and no recording is gone.
pub record Spared {F : Type 0} (s t : Store F) : Type 0 where
  pub users : t.db.users ≡ s.db.users
  pub tokens : t.db.tokens ≡ s.db.tokens
  pub rooms : (id : GoString) → has_room id s.rooms ≡ true → has_room id t.rooms ≡ true
  pub recordings :
      (id : GoString) → has_recording id s.recordings ≡ true → has_recording id t.recordings ≡ true

pub has_room-execute :
    (x : GoString) (now : Value) (st : Statement) (rs : List Row)
    → has_room x (execute now st rs) ≡ has_room x rs
unfolding execute
has_room-execute x now st [] = refl
has_room-execute x now st (r ∷ rs) = ground (arith, has_room-execute x now st rs)

pub has_recording-change :
    (x id : GoString) (f : RecordingRow → RecordingRow) (rs : List RecordingRow)
    → ((r : RecordingRow) → (f r).id ≡ r.id)
    → has_recording x (change_recording id f rs) ≡ has_recording x rs
unfolding change_recording
has_recording-change x id f [] same = refl
has_recording-change x id f (r ∷ rs) same =
    ground (arith, has_recording-change x id f rs same, same r)

module _ {F : Type 0} where
  pub spared : (s : Store F) → Spared s s
  spared s = record { users = refl; tokens = refl; rooms = λ id h. h; recordings = λ id h. h }

  pub both : {s t u : Store F} → Spared s t → Spared t u → Spared s u
  both p q = record {
    users = q.users ∙ p.users;
    tokens = q.tokens ∙ p.tokens;
    rooms = λ id there. q.rooms id (p.rooms id there);
    recordings = λ id there. q.recordings id (p.recordings id there);
  }

  -- Accounts, refresh tokens, rooms and recordings are as before.
  pub record Unmoved (s t : Store F) : Type 0 where
    pub users : t.db.users ≡ s.db.users
    pub tokens : t.db.tokens ≡ s.db.tokens
    pub rooms : t.rooms ≡ s.rooms
    pub recordings : t.recordings ≡ s.recordings

  pub of_Unmoved : {s t : Store F} → Unmoved s t → Spared s t
  of_Unmoved h = record {
    users = h.users;
    tokens = h.tokens;
    rooms = λ id there. rw h.rooms there;
    recordings = λ id there. rw h.recordings there;
  }
