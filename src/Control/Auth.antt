-- ===== src/Control/Auth.antt =====
-- services/control-plane/internal/usecase/auth.go, with the SQL statements of
-- internal/adapters/repo/postgres/refresh.go that it sends. Ids are the texts of their UUIDs; what can
-- fail has its error among the answers.
pub mod Rotation
pub mod Revoked
pub mod Histories
use vks.Common.{
  ℕ, Bool, true, false, not, ◌&&◌, ◌||◌, List, [], ◌∷◌, ◌++◌, Option, none, some, Result, ok, err,
  ltb, if◌then◌else◌, ◌==◌,
}
use vks.Common.GoString.{GoString, lit, string_eq}
use vks.Common.Dict.{Dict, lookup, insert}
use vks.Control.Errors.{AppError, internal, unauthorized}
use vks.Control.Tables.{UserRow, TokenRow, AuditWrite, Db, Failure, write_audit}

-- Tokens, with the time from which ExpiresIn counts back
pub record Tokens : Type 0 where
  pub access : GoString
  pub refresh : GoString
  pub expires_at : ℕ

-- What issue gets: the access token and when it expires, the refresh token with its jti and when it
-- expires, and whether the jti could be stored.
pub record IssueAnswers : Type 0 where
  pub access_token : Result GoString (GoString × ℕ)
  pub refresh_token : Result GoString (GoString × GoString × ℕ)
  pub store : Failure

-- What Refresh gets: the claims jti and sub of a token that the JWT library takes, both "" if they are no
-- strings, uuid.Parse, and the database.
pub record RefreshAnswers : Type 0 where
  pub now : ℕ
  pub parse_refresh : GoString → Result GoString (GoString × GoString)
  pub parse_uuid : GoString → Result GoString GoString
  pub is_valid : Failure
  pub get_by_id : Failure
  pub revoke : Failure
  pub issued : IssueAnswers

-- What Login gets: the text in lower case without blanks, the row of an email, bcrypt and the database.
pub record LoginAnswers : Type 0 where
  pub normal : GoString → GoString
  pub get_by_email : Failure
  pub hash_of : GoString → GoString
  pub update_password : Failure
  pub compare : GoString → GoString → Bool
  pub audit : Failure
  pub issued : IssueAnswers

abbrev pub fail : AppError → Db → Result AppError Tokens × Db
fail e db = (err e, db)

abbrev pub deny : GoString → Db → Result AppError Tokens × Db
deny message = fail (record { code = unauthorized; message = message })

abbrev pub broken : GoString → Db → Result AppError Tokens × Db
broken message = fail (record { code = internal; message = message })

-- RefreshTokens.Store: INSERT … ON CONFLICT DO NOTHING
unfoldable pub store_token : GoString → GoString → ℕ → Db → Db
store_token jti user expires db = elim (lookup jti db.tokens) [
  | none ↦ record db {
    tokens =
        insert jti (record { user_id = user; expires_at = expires; revoked = false }) db.tokens;
  }
  | some row ↦ db
]

-- RefreshTokens.Revoke: UPDATE … SET revoked=true
unfoldable pub revoke : Failure → GoString → Db → Db
revoke (some e) jti db = db
revoke none jti db = elim (lookup jti db.tokens) [
  | none ↦ db
  | some row ↦ record db { tokens = insert jti (record row { revoked = true }) db.tokens }
]

-- RefreshTokens.IsValid
unfoldable pub is_valid : ℕ → GoString → Db → Bool
is_valid now jti db = elim (lookup jti db.tokens) [
  | none ↦ false
  | some row ↦ not row.revoked && ltb now row.expires_at
]

-- The end of issue
unfoldable pub keep_token :
    Failure → GoString × ℕ → GoString × GoString × ℕ → UserRow → Db → Result AppError Tokens × Db
unfolding store_token
keep_token (some e) (access, exp) (refresh, jti, rexp) u db = broken (lit "store refresh") db
keep_token none (access, exp) (refresh, jti, rexp) u db = (
  ok (record { access = access; refresh = refresh; expires_at = exp }),
  store_token jti u.id rexp db,
)

unfoldable pub issue : IssueAnswers → UserRow → Db → Result AppError Tokens × Db
unfolding keep_token
issue a u db = elim a.access_token [
  | err e ↦ broken (lit "sign access") db
  | ok access ↦ elim a.refresh_token [
    | err e ↦ broken (lit "sign refresh") db
    | ok refresh ↦ keep_token a.store access refresh u db
  ]
]

-- What Refresh does for the user of a valid token; an error of the revocation is dropped.
unfoldable pub rotate :
    RefreshAnswers → GoString → Option UserRow → Db → Result AppError Tokens × Db
unfolding issue
rotate a jti none db = deny (lit "user gone") db
rotate a jti (some u) db = issue a.issued u (revoke a.revoke jti db)

-- GetByID, whose error counts as no user
unfoldable pub user_by_id : Failure → GoString → Db → Option UserRow
user_by_id (some e) id db = none
user_by_id none id db = lookup id db.users

unfoldable pub checked :
    RefreshAnswers → GoString → GoString → Failure → Db → Result AppError Tokens × Db
unfolding rotate is_valid user_by_id
checked a jti uid (some e) db = broken (lit "db") db
checked a jti uid none db =
    if is_valid a.now jti db
    then rotate a jti (user_by_id a.get_by_id uid db) db
    else deny (lit "revoked or expired") db

unfoldable pub refresh : RefreshAnswers → GoString → Db → Result AppError Tokens × Db
unfolding checked
refresh a token db = elim (a.parse_refresh token) [
  | err e ↦ deny (lit "invalid refresh") db
  | ok (jti_text, sub) ↦ elim (a.parse_uuid jti_text) [
    | err e ↦ deny (lit "invalid jti") db
    | ok jti ↦ elim (a.parse_uuid sub) [
      | err e ↦ deny (lit "invalid sub") db
      | ok uid ↦ checked a jti uid a.is_valid db
    ]
  ]
]

unfoldable pub logout : Failure → GoString → Db → Db
unfolding revoke
logout = revoke

-- GetByEmail
unfoldable pub user_by_email : GoString → Dict GoString UserRow → Option UserRow
user_by_email email [] = none
user_by_email email ((_, u) ∷ us) =
    let rest = user_by_email email us in if u.email == email then some u else rest

-- The entry auth.login of the audit log, whose error is dropped
unfoldable pub logged :
    Failure → GoString → Result AppError Tokens × Db → Result AppError Tokens × Db
logged e id (err x, db) = (err x, db)
logged e id (ok t, db) =
    (ok t, write_audit e (record { actor = some id; action = lit "auth.login"; target = id }) db)

-- The end of Login, for the row with the hash that counts.
unfoldable pub with_password : LoginAnswers → GoString → UserRow → Db → Result AppError Tokens × Db
unfolding logged issue
with_password a password u db =
    if not (a.compare u.password_hash password)
    then deny (lit "invalid credentials") db
    else logged a.audit u.id (issue a.issued u db)

unfoldable pub boot : LoginAnswers → GoString → Failure → UserRow → Db → Result AppError Tokens × Db
unfolding with_password
boot a password (some e) u db = broken (lit "set bootstrap pw") db
boot a password none u db =
    let hashed : UserRow = record u { password_hash = a.hash_of password } in
    with_password a password hashed (record db { users = insert u.id hashed db.users })

unfoldable pub known :
    LoginAnswers → GoString → GoString → Option UserRow → Db → Result AppError Tokens × Db
unfolding boot
known a boot_pass password none db = deny (lit "invalid credentials") db
known a boot_pass password (some u) db =
    if u.disabled
    then deny (lit "invalid credentials") db
    else if u.password_hash == lit "$bootstrap$" && password == boot_pass
    then boot a password a.update_password u db
    else with_password a password u db

unfoldable pub found :
    LoginAnswers → GoString → GoString → GoString → Failure → Db → Result AppError Tokens × Db
unfolding known user_by_email
found a boot_pass email password (some e) db = broken (lit "db") db
found a boot_pass email password none db =
    known a boot_pass password (user_by_email (a.normal email) db.users) db

-- Login, less the user that it returns beside the tokens
unfoldable pub login :
    LoginAnswers → GoString → GoString → GoString → Db → Result AppError Tokens × Db
unfolding found
login a boot_pass email password db = found a boot_pass email password a.get_by_email db
