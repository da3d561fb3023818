-- ===== src/Control/Auth/Histories.antt =====
-- What becomes of a refresh token that has been revoked, whatever the service does after that.
use vks.Common.{[], ◌∷◌, ◌≡◌, refl, Bool, true, false, none, some, ok, arith, ◌==◌}
use vks.Common.GoString.{GoString, lit, string_eq}
use vks.Common.Dict.{Dict, lookup}
use vks.Control.Tables.{UserRow, TokenRow, Db, Failure, write_audit}
use vks.Control.Store.{Store, Env, note}
use vks.Control.Auth.{
  RefreshAnswers, LoginAnswers, is_valid, revoke, checked, refresh, user_by_id, logout, login, deny,
}
use vks.Control.Auth.Rotation.{issue-keeps, revoke_lem, refreshed, revoked_is_invalid}
use vks.Control.Auth.Revoked.{IsRevoked, revoke-IsRevoked, refresh-IsRevoked, login-IsRevoked}
use vks.Control.Users.{
  CreateUserInput, create_user, set_role, set_password, set_disabled, delete_user, alter,
  change_user, without_user,
}

-- What the service may do with the tables of users and tokens, if nobody deletes the user `owner`.
pub data Step (F : Type 0) (owner : GoString) : Db → Db → Type 0 where
  refreshes :
      (a : RefreshAnswers) (token : GoString) (db : Db) → Step F owner db (refresh a token db).1
  logs_in :
      (a : LoginAnswers) (boot_pass email password : GoString) (db : Db)
      → Step F owner db (login a boot_pass email password db).1
  logs_out : (e : Failure) (jti : GoString) (db : Db) → Step F owner db (logout e jti db)
  creates :
      (e : Env F) (actor : GoString) (in_ : CreateUserInput) (s : Store F)
      → Step F owner s.db (create_user e actor in_ s).1.db
  sets_role :
      (e : Env F) (actor id role : GoString) (s : Store F)
      → Step F owner s.db (set_role e actor id role s).1.db
  sets_password :
      (e : Env F) (actor id password : GoString) (s : Store F)
      → Step F owner s.db (set_password e actor id password s).1.db
  sets_disabled :
      (e : Env F) (actor id : GoString) (disabled : Bool) (s : Store F)
      → Step F owner s.db (set_disabled e actor id disabled s).1.db
  deletes :
      (e : Env F) (actor id : GoString) (s : Store F)
      → (owner == id) ≡ false
      → Step F owner s.db (delete_user e actor id s).1.db

pub data Reach (F : Type 0) (owner : GoString) (db : Db) : Db → Type 0 where
  here : Reach F owner db db
  later : {t u : Db} → Reach F owner db t → Step F owner t u → Reach F owner db u

-- The tokens of others stay when a user is deleted.
lookup-without_user :
    (jti id : GoString) (row : TokenRow) (d : Dict GoString TokenRow)
    → (row.user_id == id) ≡ false
    → lookup jti d ≡ some row
    → lookup jti (without_user id d) ≡ some row
unfolding without_user lookup
lookup-without_user jti id row [] other h = ground arith
lookup-without_user jti id row ((k, t) ∷ d) other h =
    ground (arith, lookup-without_user jti id row d other)

module _ {F : Type 0} (e : Env F) where
  tokens-change :
      (id : GoString) (f : UserRow → UserRow) (db : Db) → (change_user id f db).tokens ≡ db.tokens
  unfolding change_user
  tokens-change id f db = ground arith

  tokens-alter :
      (x : Failure) (actor action id : GoString) (f : UserRow → UserRow) (s : Store F)
      → (alter e x actor action id f s).1.db.tokens ≡ s.db.tokens
  unfolding alter note write_audit
  tokens-alter x actor action id f s = ground (arith, tokens-change id f s.db)

  tokens-create :
      (actor : GoString) (in_ : CreateUserInput) (s : Store F)
      → (create_user e actor in_ s).1.db.tokens ≡ s.db.tokens
  unfolding create_user note write_audit
  tokens-create actor in_ s = ground arith

  tokens-set_role :
      (actor id role : GoString) (s : Store F)
      → (set_role e actor id role s).1.db.tokens ≡ s.db.tokens
  unfolding set_role
  tokens-set_role actor id role s =
      ground (arith, tokens-alter e.first_query actor (lit "users.role") id _ s)

  tokens-set_password :
      (actor id password : GoString) (s : Store F)
      → (set_password e actor id password s).1.db.tokens ≡ s.db.tokens
  unfolding set_password alter note write_audit change_user
  tokens-set_password actor id password s = ground arith

  lookup-delete_user :
      (actor id jti : GoString) (row : TokenRow) (s : Store F)
      → (row.user_id == id) ≡ false
      → lookup jti s.db.tokens ≡ some row
      → lookup jti (delete_user e actor id s).1.db.tokens ≡ some row
  unfolding delete_user note write_audit
  lookup-delete_user actor id jti row s other h =
      ground (arith, lookup-without_user jti id row s.db.tokens other h)

module _ {F : Type 0} (jti : GoString) (row : TokenRow) where
  Step-IsRevoked : {t u : Db} → Step F row.user_id t u → IsRevoked jti row t → IsRevoked jti row u
  unfolding logout set_disabled
  Step-IsRevoked (refreshes a token db) h = refresh-IsRevoked jti row a token db h
  Step-IsRevoked (logs_in a boot_pass email password db) h =
      login-IsRevoked jti row a boot_pass email password db h
  Step-IsRevoked (logs_out e other db) h = revoke-IsRevoked jti row e other db h
  Step-IsRevoked (creates e actor in_ s) h = (rw (tokens-create e actor in_ s) h.0, h.1)
  Step-IsRevoked (sets_role e actor id role s) h = (rw (tokens-set_role e actor id role s) h.0, h.1)
  Step-IsRevoked (sets_password e actor id password s) h =
      (rw (tokens-set_password e actor id password s) h.0, h.1)
  Step-IsRevoked (sets_disabled e actor id disabled s) h =
      (rw (tokens-alter e e.second_command actor (lit "users.disabled") id _ s) h.0, h.1)
  Step-IsRevoked (deletes e actor id s other) h =
      (lookup-delete_user e actor id jti row s other h.0, h.1)

  Reach-IsRevoked : {t u : Db} → Reach F row.user_id t u → IsRevoked jti row t → IsRevoked jti row u
  Reach-IsRevoked here h = h
  Reach-IsRevoked (later r step) h = Step-IsRevoked step (Reach-IsRevoked r h)

-- A token that Refresh has taken once, for a user who is there and with a revocation that the database
-- took, is refused by every later Refresh whose query answers, whether tokens could be issued or not and
-- whatever Refreshes, Logins, Logouts and changes of users come in between, in which nobody deletes the
-- user whose token it is.
pub refresh-once :
    (F : Type 0) (a b : RefreshAnswers) (token jti_text sub jti uid : GoString) (u : UserRow)
    (row : TokenRow) (db after : Db)
    → a.parse_refresh token ≡ ok (jti_text, sub)
    → a.parse_uuid jti_text ≡ ok jti
    → a.parse_uuid sub ≡ ok uid
    → a.is_valid ≡ none
    → lookup jti db.tokens ≡ some row
    → is_valid a.now jti db ≡ true
    → user_by_id a.get_by_id uid db ≡ some u
    → a.revoke ≡ none
    → Reach F row.user_id (refresh a token db).1 after
    → b.parse_refresh token ≡ ok (jti_text, sub)
    → b.parse_uuid jti_text ≡ ok jti
    → b.parse_uuid sub ≡ ok uid
    → b.is_valid ≡ none
    → refresh b token after ≡ deny (lit "revoked or expired") after
unfolding refresh checked
refresh-once F a b token jti_text sub jti uid u row db after claims id1 id2 up stored good there
      took r claims' id1' id2' up' =
    let revoked : TokenRow = record row { revoked = true } in
    let e = refreshed a token jti_text sub jti uid u db claims id1 id2 up good there in
    let kept =
      issue-keeps a.issued u jti revoked (revoke none jti db) (revoke_lem jti row db stored) in
    let left = (Reach-IsRevoked jti revoked r (rw (e, took) kept, refl)).0 in
    rw (claims', refresh)
      (rw (id1', id2', up') (rw (revoked_is_invalid b.now jti row after left, checked) refl))
