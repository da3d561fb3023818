-- ===== src/Control/Tables.antt =====
-- The tables of users, of refresh tokens and of the audit log (services/control-plane/internal/adapters:
-- repo/postgres/users.go, refresh.go, audit.go). Ids are the texts of their UUIDs.
use vks.Common.{ℕ, Bool, List, [], ◌∷◌, ◌++◌, Option, none, some}
use vks.Common.GoString.{GoString}
use vks.Common.Dict.{Dict}

-- postgres.UserRow
pub record UserRow : Type 0 where
  pub id : GoString
  pub email : GoString
  pub name : GoString
  pub password_hash : GoString
  pub role : GoString
  pub disabled : Bool
  pub created_at : ℕ

-- A row of refresh_tokens.
pub record TokenRow : Type 0 where
  pub user_id : GoString
  pub expires_at : ℕ
  pub revoked : Bool

-- A row of audit_log, less its payload, IP and user agent: who did what to which object.
pub record AuditWrite : Type 0 where
  pub actor : Option GoString
  pub action : GoString
  pub target : GoString

-- The tables, those of users by their ids and of tokens by their jti.
pub record Db : Type 0 where
  pub users : Dict GoString UserRow
  pub tokens : Dict GoString TokenRow
  pub audit : List AuditWrite

-- A query of the database fails, or not.
abbrev pub Failure : Type 0
Failure = Option GoString

-- Audit.Write, whose error its callers drop
unfoldable pub write_audit : Failure → AuditWrite → Db → Db
write_audit (some e) w db = db
write_audit none w db = record db { audit = db.audit ++ w ∷ [] }
