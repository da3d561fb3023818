-- ===== src/Control/Auth/Revoked.antt =====
-- A revoked row of refresh_tokens stays revoked through Refresh, Login and Logout.
use vks.Common.{
  ◌≡◌, Bool, true, false, Option, none, some, Result, ok, err, arith, Option-cases, inl, inr, sym,
  ap, ◌∙◌, if◌then◌else◌,
}
use vks.Common.GoString.{GoString, GoString-discrete, lit, string_eq}
use vks.Common.Dict.{lookup, insert, lookup-insert, lookup-insert_self}
use vks.Control.Tables.{UserRow, TokenRow, Db, Failure, write_audit}
use vks.Control.Errors.{AppError}
use vks.Control.Auth.{
  Tokens, RefreshAnswers, LoginAnswers, revoke, rotate, checked, refresh, login, found, deny, known,
  boot, with_password, logged, issue,
}
use vks.Control.Auth.Rotation.{issue-keeps}

-- The row of a token is there, and revoked.
abbrev pub IsRevoked : GoString → TokenRow → Db → Type 0
IsRevoked jti row db = (lookup jti db.tokens ≡ some row) × (row.revoked ≡ true)

module _ (jti : GoString) (row : TokenRow) where
  if_IsRevoked :
      (b : Bool) (t u : Result AppError Tokens × Db)
      → IsRevoked jti row t.1
      → IsRevoked jti row u.1
      → IsRevoked jti row (if b then t else u).1
  if_IsRevoked true t u h k = h
  if_IsRevoked false t u h k = k

  pub revoke-IsRevoked :
      (e : Failure) (other : GoString) (db : Db)
      → IsRevoked jti row db
      → IsRevoked jti row (revoke e other db)
  unfolding revoke
  revoke-IsRevoked (some x) other db h = h
  revoke-IsRevoked none other db h = elim (Option-cases (lookup other db.tokens)) [
    | inl absent ↦ rw (absent, revoke) h
    | inr (old, there) ↦ rw (there, revoke) (by_key old there (GoString-discrete jti other))
  ]
    where
      by_key :
          (old : TokenRow)
          → lookup other db.tokens ≡ some old
          → Dec (jti ≡ other)
          → IsRevoked jti row
              (record db { tokens = insert other (record old { revoked = true }) db.tokens })
      by_key old there (yes e) =
          let same : old ≡ row = (let own = h.0 in cc) in
          (
            rw (e, same)
                (lookup-insert_self other (record row { revoked = true }) db.tokens
                  ∙ ap (λ b. some (record row { revoked = b })) (sym h.1)),
            h.1,
          )
      by_key old there (no n) = (
        ground (arith, h.0, n, lookup-insert jti other (record old { revoked = true }) db.tokens),
        h.1,
      )

  rotate-IsRevoked :
      (a : RefreshAnswers) (other : GoString) (o : Option UserRow) (db : Db)
      → IsRevoked jti row db
      → IsRevoked jti row (rotate a other o db).1
  unfolding rotate
  rotate-IsRevoked a other none db h = h
  rotate-IsRevoked a other (some u) db h =
      let after = revoke-IsRevoked a.revoke other db h in
      (issue-keeps a.issued u jti row (revoke a.revoke other db) after.0, h.1)

  checked-IsRevoked :
      (a : RefreshAnswers) (other uid : GoString) (e : Failure) (db : Db)
      → IsRevoked jti row db
      → IsRevoked jti row (checked a other uid e db).1
  unfolding checked
  checked-IsRevoked a other uid (some e) db h = h
  checked-IsRevoked a other uid none db h = if_IsRevoked _ _ _ (rotate-IsRevoked a other _ db h) h

  pub refresh-IsRevoked :
      (a : RefreshAnswers) (token : GoString) (db : Db)
      → IsRevoked jti row db
      → IsRevoked jti row (refresh a token db).1
  unfolding refresh
  refresh-IsRevoked a token db h = by_claims (a.parse_refresh token)
    where
      by_sub :
          (other : GoString) (y : Result GoString GoString)
          → IsRevoked jti row
              (elim y as (λ _. Result AppError Tokens × Db) [
                | err e ↦ deny (lit "invalid sub") db
                | ok uid ↦ checked a other uid a.is_valid db
              ]).1
      by_sub other (err e) = h
      by_sub other (ok uid) = checked-IsRevoked a other uid a.is_valid db h

      by_jti :
          (sub : GoString) (x : Result GoString GoString)
          → IsRevoked jti row
              (elim x as (λ _. Result AppError Tokens × Db) [
                | err e ↦ deny (lit "invalid jti") db
                | ok other ↦ elim (a.parse_uuid sub) as (λ _. Result AppError Tokens × Db) [
                  | err e ↦ deny (lit "invalid sub") db
                  | ok uid ↦ checked a other uid a.is_valid db
                ]
              ]).1
      by_jti sub (err e) = h
      by_jti sub (ok other) = by_sub other (a.parse_uuid sub)

      by_claims :
          (r : Result GoString (GoString × GoString))
          → IsRevoked jti row (refresh (record a { parse_refresh = λ _. r }) token db).1
      by_claims (err e) = h
      by_claims (ok (text, sub)) = by_jti sub (a.parse_uuid text)

  logged-IsRevoked :
      (e : Failure) (id : GoString) (r : Result AppError Tokens × Db)
      → IsRevoked jti row r.1
      → IsRevoked jti row (logged e id r).1
  unfolding logged write_audit
  logged-IsRevoked e id (err x, db) h = h
  logged-IsRevoked e id (ok t, db) h = by_audit e
    where
      by_audit : (f : Failure) → IsRevoked jti row (logged f id (ok t, db)).1
      by_audit none = h
      by_audit (some x) = h

  with_password-IsRevoked :
      (a : LoginAnswers) (password : GoString) (u : UserRow) (db : Db)
      → IsRevoked jti row db
      → IsRevoked jti row (with_password a password u db).1
  unfolding with_password
  with_password-IsRevoked a password u db h =
      let issued =
        logged-IsRevoked a.audit u.id (issue a.issued u db)
          (issue-keeps a.issued u jti row db h.0, h.1) in
      if_IsRevoked _ _ _ h issued

  boot-IsRevoked :
      (a : LoginAnswers) (password : GoString) (e : Failure) (u : UserRow) (db : Db)
      → IsRevoked jti row db
      → IsRevoked jti row (boot a password e u db).1
  unfolding boot
  boot-IsRevoked a password (some e) u db h = h
  boot-IsRevoked a password none u db h = with_password-IsRevoked a password _ _ h

  known-IsRevoked :
      (a : LoginAnswers) (boot_pass password : GoString) (o : Option UserRow) (db : Db)
      → IsRevoked jti row db
      → IsRevoked jti row (known a boot_pass password o db).1
  unfolding known boot
  known-IsRevoked a boot_pass password none db h = h
  known-IsRevoked a boot_pass password (some u) db h = if_IsRevoked u.disabled _ _ h (
      if_IsRevoked _ _ _ (boot-IsRevoked a password a.update_password u db h)
        (with_password-IsRevoked a password u db h))

  pub login-IsRevoked :
      (a : LoginAnswers) (boot_pass email password : GoString) (db : Db)
      → IsRevoked jti row db
      → IsRevoked jti row (login a boot_pass email password db).1
  unfolding login found
  login-IsRevoked a boot_pass email password db h = by_failure a.get_by_email
    where
      by_failure : (e : Failure) → IsRevoked jti row (found a boot_pass email password e db).1
      by_failure none = known-IsRevoked a boot_pass password _ db h
      by_failure (some e) = h
