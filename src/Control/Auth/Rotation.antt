-- ===== src/Control/Auth/Rotation.antt =====
-- What Refresh of a good token does with the row of the token.
use vks.Common.{ℕ, ◌≡◌, refl, true, false, none, some, arith, Result, ok, err}
use vks.Common.GoString.{GoString, string_eq}
use vks.Common.Dict.{lookup, lookup-insert}
use vks.Control.Tables.{UserRow, TokenRow, Db, Failure}
use vks.Control.Auth.{
  IssueAnswers, RefreshAnswers, store_token, revoke, is_valid, keep_token, issue, rotate,
  user_by_id, checked, refresh,
}

-- A row of a token stays when another is stored.
store_token-keeps :
    (jti other user : GoString) (expires : ℕ) (row : TokenRow) (db : Db)
    → lookup jti db.tokens ≡ some row
    → lookup jti (store_token other user expires db).tokens ≡ some row
unfolding store_token
store_token-keeps jti other user expires row db there = ground (
  arith,
  lookup-insert jti other (record { user_id = user; expires_at = expires; revoked = false })
      db.tokens,
)

keep_token-keeps :
    (e : Failure) (access : GoString × ℕ) (r : GoString × GoString × ℕ) (u : UserRow)
    (jti : GoString) (row : TokenRow) (db : Db)
    → lookup jti db.tokens ≡ some row
    → lookup jti (keep_token e access r u db).1.tokens ≡ some row
unfolding keep_token
keep_token-keeps (some e) (access, exp) (text, other, rexp) u jti row db there = there
keep_token-keeps none (access, exp) (text, other, rexp) u jti row db there =
    store_token-keeps jti other u.id rexp row db there

pub issue-keeps :
    (a : IssueAnswers) (u : UserRow) (jti : GoString) (row : TokenRow) (db : Db)
    → lookup jti db.tokens ≡ some row
    → lookup jti (issue a u db).1.tokens ≡ some row
unfolding issue
issue-keeps a u jti row db there = by_tokens a.access_token a.refresh_token
  where
    by_tokens :
        (x : Result GoString (GoString × ℕ)) (y : Result GoString (GoString × GoString × ℕ))
        → lookup jti (issue (record a { access_token = x; refresh_token = y }) u db).1.tokens
          ≡ some row
    by_tokens (err e) y = there
    by_tokens (ok x) (err e) = there
    by_tokens (ok x) (ok y) = keep_token-keeps a.store x y u jti row db there

pub revoke_lem :
    (jti : GoString) (row : TokenRow) (db : Db)
    → lookup jti db.tokens ≡ some row
    → lookup jti (revoke none jti db).tokens ≡ some (record row { revoked = true })
unfolding revoke
revoke_lem jti row db there =
    rw (there, revoke)
      (ground (arith, lookup-insert jti jti (record row { revoked = true }) db.tokens))

-- Refresh of a good token of a user who is there.
pub refreshed :
    (a : RefreshAnswers) (token jti_text sub jti uid : GoString) (u : UserRow) (db : Db)
    → a.parse_refresh token ≡ ok (jti_text, sub)
    → a.parse_uuid jti_text ≡ ok jti
    → a.parse_uuid sub ≡ ok uid
    → a.is_valid ≡ none
    → is_valid a.now jti db ≡ true
    → user_by_id a.get_by_id uid db ≡ some u
    → refresh a token db ≡ issue a.issued u (revoke a.revoke jti db)
unfolding refresh checked rotate
refreshed a token jti_text sub jti uid u db claims id1 id2 up good there =
    rw (claims, refresh) (rw (id1, id2, up) (rw (good, checked) (rw (there, rotate) refl)))

pub revoked_is_invalid :
    (now : ℕ) (jti : GoString) (row : TokenRow) (db : Db)
    → lookup jti db.tokens ≡ some (record row { revoked = true })
    → is_valid now jti db ≡ false
unfolding is_valid
revoked_is_invalid now jti row db there = rw (there, is_valid) refl
