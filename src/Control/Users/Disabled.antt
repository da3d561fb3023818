-- ===== src/Control/Users/Disabled.antt =====
-- What a user who has been disabled may still do (services/control-plane/internal/usecase: users.go,
-- auth.go).
use vks.Common.{
  ◌≡◌, ◌∙◌, refl, Bool, true, false, [], ◌∷◌, Option, none, some, Option-cases, inl, inr, Result,
  ok, err, arith, ◌==◌,
}
use vks.Common.GoString.{GoString, lit, string_eq}
use vks.Common.Dict.{Dict, lookup, insert, lookup-insert}
use vks.Control.Errors.{AppError}
use vks.Control.Tables.{UserRow, AuditWrite, Db, Failure, write_audit}
use vks.Control.Store.{Store, Env, note}
use vks.Control.Users.{change_user, set_disabled, alter}
use vks.Control.Auth.{
  Tokens, IssueAnswers, RefreshAnswers, LoginAnswers, deny, keep_token, is_valid, issue, rotate,
  user_by_id, checked, refresh, user_by_email, known, found, login,
}

abbrev is_there : Option UserRow → Bool
is_there none = false
is_there (some u) = true

-- The rows of users under their ids.
abbrev pub IsKeyed : Dict GoString UserRow → Type 0
IsKeyed [] = Unit
IsKeyed ((k, u) ∷ d) = (u.id ≡ k) × IsKeyed d

issue-same : (i : IssueAnswers) (u v : UserRow) (db db' : Db) → (issue i u db).0 ≡ (issue i v db').0
unfolding issue keep_token
issue-same i u v db db' = ground arith

rotate-same :
    (a : RefreshAnswers) (jti : GoString) (o p : Option UserRow) (db db' : Db)
    → is_there o ≡ is_there p
    → (rotate a jti o db).0 ≡ (rotate a jti p db').0
unfolding rotate
rotate-same a jti none none db db' h = refl
rotate-same a jti none (some v) db db' h = absurd (cc)
rotate-same a jti (some u) none db db' h = absurd (cc)
rotate-same a jti (some u) (some v) db db' h = issue-same a.issued u v _ _

-- Two databases with the same tokens and the same ids of users.
record Alike (db db' : Db) : Type 0 where
  tokens : db'.tokens ≡ db.tokens
  users : (id : GoString) → is_there (lookup id db'.users) ≡ is_there (lookup id db.users)

user_by_id-same :
    (e : Failure) (id : GoString) (db db' : Db)
    → Alike db db'
    → is_there (user_by_id e id db') ≡ is_there (user_by_id e id db)
unfolding user_by_id
user_by_id-same (some e) id db db' h = refl
user_by_id-same none id db db' h = h.users id

is_valid-same :
    (now : _) (jti : GoString) (db db' : Db)
    → Alike db db'
    → is_valid now jti db' ≡ is_valid now jti db
unfolding is_valid
is_valid-same now jti db db' h = rw h.tokens refl

checked-same :
    (a : RefreshAnswers) (jti uid : GoString) (e : Failure) (db db' : Db)
    → Alike db db'
    → (checked a jti uid e db').0 ≡ (checked a jti uid e db).0
unfolding checked
checked-same a jti uid (some e) db db' h = refl
checked-same a jti uid none db db' h = ground (
  arith,
  is_valid-same a.now jti db db' h,
  rotate-same a jti (user_by_id a.get_by_id uid db') (user_by_id a.get_by_id uid db) db' db
      (user_by_id-same a.get_by_id uid db db' h),
)

-- The end of Refresh from the parsed sub on, and from the parsed jti on.
abbrev from_sub :
    RefreshAnswers → GoString → Result GoString GoString → Db → Result AppError Tokens × Db
from_sub a jti y db = elim y [
  | err e ↦ deny (lit "invalid sub") db
  | ok uid ↦ checked a jti uid a.is_valid db
]

abbrev from_jti :
    RefreshAnswers → GoString → Result GoString GoString → Db → Result AppError Tokens × Db
from_jti a sub x db = elim x [
  | err e ↦ deny (lit "invalid jti") db
  | ok jti ↦ elim (a.parse_uuid sub) [
    | err e ↦ deny (lit "invalid sub") db
    | ok uid ↦ checked a jti uid a.is_valid db
  ]
]

from_sub-same :
    (a : RefreshAnswers) (jti : GoString) (y : Result GoString GoString) (db db' : Db)
    → Alike db db'
    → (from_sub a jti y db').0 ≡ (from_sub a jti y db).0
from_sub-same a jti (err e) db db' h = refl
from_sub-same a jti (ok uid) db db' h = checked-same a jti uid a.is_valid db db' h

from_jti-same :
    (a : RefreshAnswers) (sub : GoString) (x : Result GoString GoString) (db db' : Db)
    → Alike db db'
    → (from_jti a sub x db').0 ≡ (from_jti a sub x db).0
from_jti-same a sub (err e) db db' h = refl
from_jti-same a sub (ok jti) db db' h = from_sub-same a jti (a.parse_uuid sub) db db' h

refresh-same :
    (a : RefreshAnswers) (token : GoString) (db db' : Db)
    → Alike db db'
    → (refresh a token db').0 ≡ (refresh a token db).0
unfolding refresh
refresh-same a token db db' h = by_claims (a.parse_refresh token)
  where
    by_claims :
        (r : Result GoString (GoString × GoString))
        → (refresh (record a { parse_refresh = λ _. r }) token db').0
          ≡ (refresh (record a { parse_refresh = λ _. r }) token db).0
    by_claims (err e) = refl
    by_claims (ok (text, sub)) = from_jti-same a sub (a.parse_uuid text) db db' h

change-Alike : (id : GoString) (f : UserRow → UserRow) (db : Db) → Alike db (change_user id f db)
unfolding change_user
change-Alike id f db = elim (Option-cases (lookup id db.users)) [
  | inl absent ↦ rw (absent, change_user) (record { tokens = refl; users = λ x. refl })
  | inr (u, there) ↦
      rw (there, change_user)
        (record {
          tokens = refl;
          users = λ x. ground (arith, there, lookup-insert x id (f u) db.users);
        })
]

audited-Alike :
    (e : Failure) (w : AuditWrite) (db db' : Db) → Alike db db' → Alike db (write_audit e w db')
unfolding write_audit
audited-Alike (some x) w db db' h = h
audited-Alike none w db db' h = record { tokens = h.tokens; users = h.users }

alter-Alike :
    {F : Type 0} (e : Env F) (x : Failure) (actor action id : GoString) (f : UserRow → UserRow)
    (s : Store F)
    → Alike s.db (alter e x actor action id f s).1.db
unfolding alter note
alter-Alike e (some x) actor action id f s = record { tokens = refl; users = λ y. refl }
alter-Alike e none actor action id f s = audited-Alike e.audit _ s.db _ (change-Alike id f s.db)

user_by_email-email :
    (email : GoString) (u : UserRow) (d : Dict GoString UserRow)
    → user_by_email email d ≡ some u
    → (u.email == email) ≡ true
unfolding user_by_email
user_by_email-email email u [] h = absurd (cc)
user_by_email-email email u ((k, w) ∷ d) h = ground (arith, user_by_email-email email u d)

-- The row of an email whose row changes.
user_by_email-insert :
    (email : GoString) (u v : UserRow) (d : Dict GoString UserRow)
    → v.email ≡ u.email
    → IsKeyed d
    → user_by_email email d ≡ some u
    → user_by_email email (insert u.id v d) ≡ some v
unfolding user_by_email insert
user_by_email-insert email u v [] same keyed h = absurd (cc)
user_by_email-insert email u v ((k, w) ∷ d) same keyed h = ground (
  arith,
  keyed.0,
  user_by_email-email email u ((k, w) ∷ d) h,
  user_by_email-insert email u v d same keyed.1,
)

users-write_audit : (e : Failure) (w : AuditWrite) (db : Db) → (write_audit e w db).users ≡ db.users
unfolding write_audit
users-write_audit (some x) w db = refl
users-write_audit none w db = refl

users-change :
    (id : GoString) (f : UserRow → UserRow) (u : UserRow) (db : Db)
    → lookup id db.users ≡ some u
    → (change_user id f db).users ≡ insert id (f u) db.users
unfolding change_user
users-change id f u db there = rw (there, change_user) refl

users-alter :
    {F : Type 0} (e : Env F) (x : Failure) (actor action id : GoString) (f : UserRow → UserRow)
    (u : UserRow) (s : Store F)
    → x ≡ none
    → lookup id s.db.users ≡ some u
    → (alter e x actor action id f s).1.db.users ≡ insert id (f u) s.db.users
unfolding alter note
users-alter e (some y) actor action id f u s took there = absurd (cc)
users-alter e none actor action id f u s took there =
    users-write_audit e.audit _ (change_user id f s.db) ∙ users-change id f u s.db there

set_disabled-users :
    {F : Type 0} (e : Env F) (actor id : GoString) (disabled : Bool) (u : UserRow) (s : Store F)
    → e.second_command ≡ none
    → lookup id s.db.users ≡ some u
    → (set_disabled e actor id disabled s).1.db.users
      ≡ insert id (record u { disabled = disabled }) s.db.users
unfolding set_disabled
set_disabled-users e actor id disabled u s took there =
    users-alter e e.second_command actor (lit "users.disabled") id _ u s took there

-- SetDisabled keeps a user out of Login but not of Refresh: when it has disabled a user in a table that
-- has each row under its id, Login with the email under which this user's row is found is denied whatever
-- the password, if the query of Login answers, while every Refresh of any token, the user's own included,
-- answers as it did before, with tokens or with an error.
pub set_disabled-refresh :
    {F : Type 0} (e : Env F) (l : LoginAnswers) (a : RefreshAnswers)
    (actor boot_pass email password token : GoString) (u : UserRow) (s : Store F)
    → e.second_command ≡ none
    → l.get_by_email ≡ none
    → IsKeyed s.db.users
    → lookup u.id s.db.users ≡ some u
    → user_by_email (l.normal email) s.db.users ≡ some u
    → let after = (set_disabled e actor u.id true s).1.db in
      (login l boot_pass email password after ≡ deny (lit "invalid credentials") after)
      × ((refresh a token after).0 ≡ (refresh a token s.db).0)
unfolding login found known
set_disabled-refresh e l a actor boot_pass email password token u s took read keyed there of_email =
    let after = (set_disabled e actor u.id true s).1.db in
    let now : UserRow = record u { disabled = true } in
    let row : user_by_email (l.normal email) after.users ≡ some now =
      rw (set_disabled-users e actor u.id true u s took there)
        (user_by_email-insert (l.normal email) u now s.db.users refl keyed of_email) in
    (
      rw (read, login) (rw (row, found) refl),
      unfold set_disabled in
          refresh-same a token s.db after
            (alter-Alike e e.second_command actor (lit "users.disabled") u.id _ s),
    )
