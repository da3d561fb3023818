-- ===== src/Control/Http.antt =====
-- services/control-plane/internal/adapters/httpapi: response.go, and what all handlers begin and end with.
-- A body that is no JSON of its type is `none`.
pub mod Keeps
pub mod RoomHandlers
pub mod UserHandlers
pub mod RecordingHandlers
pub mod LayoutHandlers
use vks.Common.{
  ℕ, Bool, true, false, List, [], ◌∷◌, ◌++◌, Option, none, some, Result, ok, err, if◌then◌else◌,
  ◌==◌,
}
use vks.Common.GoString.{GoString, lit, string_eq, is_empty}
use vks.Common.Int.{ℤ, ℤ_eq}
use vks.Common.Scan.{scan_int}
use vks.Common.Dict.{Dict, lookup, insert}
use vks.Control.Errors.{
  Code, AppError, http_status, invalid_argument, unauthorized, forbidden, not_found,
}
use vks.Control.Domain.{Layout}
use vks.Control.Tables.{UserRow}
use vks.Control.Store.{Value, Row, RecordingRow, Store, Env}
use vks.Control.Auth.{Tokens}
use vks.Control.Rooms.{
  RoomView, CreateRoomInput, app_error, Done, create, update, delete, set_locked,
}
use vks.Control.Rooms
use vks.Control.Rooms.Live.{update_layout, participants, slots, assign_slots, kick}
use vks.Control.Users.{
  CreateUserInput, create_user, set_role, set_password, set_disabled, delete_user, me,
}
use vks.Control.Recordings.{start, stop, get_recording, delete_rec}
use vks.Control.Templates.{
  CreateTemplateInput, create_template, update_template, delete_template, get_template,
}

-- What a response says, before it is marshalled.
pub data Body (F : Type 0) : Type 0 where
  empty : Body F
  error : Code → GoString → Body F
  tokens : Tokens → Body F
  room : RoomView F → Body F
  user : UserRow → Body F
  recording : RecordingRow → Body F
  template : Row → Body F
  layout : Layout F → Body F
  slot_map : Dict GoString GoString → Body F
  people : List GoString → Body F
  redirect : GoString → Body F

pub record Response (F : Type 0) : Type 0 where
  pub status : ℕ
  pub body : Body F

module _ {F : Type 0} where
  -- writeError with the status of its code, and writeAppError
  abbrev pub refuse : AppError → Response F
  refuse x = record { status = http_status x.code; body = error x.code x.message }

  abbrev pub bad : GoString → Response F
  bad m = refuse (app_error invalid_argument m)

  abbrev pub no_content : Response F
  no_content = record { status = 204; body = empty }

  -- A result with its status and body, or the error
  unfoldable pub reply {ℓ} : {A : Type ℓ} → ℕ → (A → Body F) → Result AppError A → Response F
  reply status f (err x) = refuse x
  reply status f (ok a) = record { status = status; body = f a }

  unfoldable pub replied {ℓ} :
      {A : Type ℓ} → ℕ → (A → Body F) → Result AppError A × Store F → Response F × Store F
  unfolding reply
  replied status f (r, s) = (reply status f r, s)

  -- uuid.Parse of {id}, which each handler begins with
  unfoldable pub with_id :
      Env F
      → GoString
      → (GoString → Store F → Response F × Store F)
      → Store F
      → Response F × Store F
  with_id e text k s = elim (e.parse_uuid text) [ err x ↦ (bad (lit "bad id"), s) | ok id ↦ k id s ]

  unfoldable pub with_json {ℓ} :
      {A : Type ℓ}
      → Option A
      → (A → Store F → Response F × Store F)
      → Store F
      → Response F × Store F
  with_json none k s = (bad (lit "bad json"), s)
  with_json (some in_) k s = k in_ s
