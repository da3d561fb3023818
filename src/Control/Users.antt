-- ===== src/Control/Users.antt =====
-- services/control-plane/internal/usecase/users.go, with the statements of repo/postgres/users.go and the
-- references to users that the migrations declare.
pub mod Deleted
pub mod Disabled
use vks.Common.{
  ℕ, Bool, true, false, not, ◌||◌, ltb, List, [], ◌∷◌, ◌++◌, map, length, Option, none, some,
  Result, ok, err, if◌then◌else◌, ◌==◌,
}
use vks.Common.GoString.{GoString, lit, string_eq, is_empty}
use vks.Common.Dict.{Dict, lookup, insert, erase}
use vks.Control.Errors.{AppError, invalid_argument, not_found, internal, conflict}
use vks.Control.Domain.{valid}
use vks.Control.Tables.{UserRow, TokenRow, AuditWrite, Db, Failure}
use vks.Control.Store.{Value, text, other, Row, Store, Env, note}
use vks.Control.Rooms.{app_error, db_error, Done, noted}

pub record CreateUserInput : Type 0 where
  pub email : GoString
  pub password : GoString
  pub name : GoString
  pub role : GoString

-- `UPDATE users SET … WHERE id=$1`
unfoldable pub change_user : GoString → (UserRow → UserRow) → Db → Db
change_user id f db = elim (lookup id db.users) [
  | none ↦ db
  | some u ↦ record db { users = insert id (f u) db.users }
]

-- ON DELETE CASCADE of refresh_tokens
unfoldable pub without_user : GoString → Dict GoString TokenRow → Dict GoString TokenRow
without_user id [] = []
without_user id ((k, t) ∷ d) =
    let rest = without_user id d in if t.user_id == id then rest else (k, t) ∷ rest

-- ON DELETE SET NULL of audit_log
unfoldable pub without_actor : GoString → List AuditWrite → List AuditWrite
without_actor id [] = []
without_actor id (w ∷ ws) =
    elim w.actor [ none ↦ w | some a ↦ if a == id then record w { actor = none } else w ]
    ∷ without_actor id ws

-- ON DELETE SET NULL of rooms and layout_templates
unfoldable pub without_creator : GoString → List Row → List Row
without_creator id [] = []
without_creator id (r ∷ rs) =
    elim (lookup (lit "created_by") r.columns) [
      | some (text u) ↦
          if u == id
          then record r { columns = insert (lit "created_by") (other (lit "null")) r.columns }
          else r
      | v ↦ r
    ]
    ∷ without_creator id rs

module _ {F : Type 0} where
  abbrev in_db : (Db → Db) → Store F → Store F
  in_db f s = record s { db = f s.db }

  -- Create; `command` is also the failure of the INSERT for an email that is taken.
  unfoldable pub create_user :
      Env F → GoString → CreateUserInput → Store F → Result AppError UserRow × Store F
  unfolding valid note
  create_user e actor in_ s =
      let email = e.normal in_.email in
      if is_empty email || (ltb (length in_.password) 8 || not (valid in_.role))
      then (err (app_error invalid_argument (lit "invalid user")), s)
      else elim (e.hash in_.password) [
        | err x ↦ (err (app_error internal (lit "hash")), s)
        | ok h ↦ elim e.command [
          | some x ↦ (err (app_error conflict (lit "create")), s)
          | none ↦
              let row : UserRow = record {
                id = e.new_id;
                email = email;
                name = in_.name;
                password_hash = h;
                role = in_.role;
                disabled = false;
                created_at = e.now;
              } in
              (
                ok row,
                note e actor (lit "users.create") row.id
                    (in_db (λ db. record db { users = insert row.id row db.users }) s),
              )
        ]
      ]

  -- A statement on one row of users, and its entry in the audit log
  unfoldable pub alter :
      Env F
      → Failure
      → GoString
      → GoString
      → GoString
      → (UserRow → UserRow)
      → Store F
      → Result AppError Done × Store F
  unfolding change_user note
  alter e (some x) actor action id f s = (err db_error, s)
  alter e none actor action id f s = (ok tt, note e actor action id (in_db (change_user id f) s))

  unfoldable pub set_role :
      Env F → GoString → GoString → GoString → Store F → Result AppError Done × Store F
  unfolding valid alter
  set_role e actor id role s =
      if not (valid role)
      then (err (app_error invalid_argument (lit "invalid role")), s)
      else alter e e.first_query actor (lit "users.role") id (λ u. record u { role = role }) s

  unfoldable pub set_password :
      Env F → GoString → GoString → GoString → Store F → Result AppError Done × Store F
  unfolding alter
  set_password e actor id password s =
      if ltb (length password) 8
      then (err (app_error invalid_argument (lit "weak password")), s)
      else elim (e.hash password) [
        | err x ↦ (err (app_error internal (lit "hash")), s)
        | ok h ↦
            alter e e.command actor (lit "users.password") id (λ u. record u { password_hash = h })
              s
      ]

  unfoldable pub set_disabled :
      Env F → GoString → GoString → Bool → Store F → Result AppError Done × Store F
  unfolding alter
  set_disabled e actor id disabled s =
      alter e e.second_command actor (lit "users.disabled") id
        (λ u. record u { disabled = disabled }) s

  unfoldable pub delete_user :
      Env F → GoString → GoString → Store F → Result AppError Done × Store F
  unfolding without_user without_actor without_creator note
  delete_user e actor id s = elim e.command [
    | some x ↦ (err db_error, s)
    | none ↦ (
      ok tt,
      note e actor (lit "users.delete") id (record s {
        db = record {
          users = erase id s.db.users;
          tokens = without_user id s.db.tokens;
          audit = without_actor id s.db.audit;
        };
        rooms = without_creator id s.rooms;
        templates = without_creator id s.templates;
      }),
    )
  ]

  unfoldable pub me : Env F → GoString → Store F → Result AppError UserRow
  me e id s = elim e.query [
    | some x ↦ err db_error
    | none ↦ elim (lookup id s.db.users) [
      | none ↦ err (app_error not_found (lit "user not found"))
      | some u ↦ ok u
    ]
  ]
