-- ===== src/Examples/Accounts.antt =====
-- A user of the control plane, who is disabled, and the refresh token that is left to her.
use vks.Common.{ℕ, ◌≡◌, refl, true, false, [], ◌∷◌, none, ok}
use native.Mathlib.Decide.{ℕ_discrete}
use vks.Common.GoString.{GoString-discrete, lit, string_eq}
use vks.Common.Dict.{lookup}
use vks.Control.Tables.{UserRow, TokenRow, Db}
use vks.Control.Auth.{
  RefreshAnswers, LoginAnswers, deny, is_valid, user_by_id, user_by_email, refresh, logout, login,
}
use vks.Control.Auth.Histories.{Reach, here, later, refreshes, logs_out, refresh-once}
use vks.Control.Users.{set_disabled}
use vks.Control.Users.Disabled.{set_disabled-refresh}
use vks.Control.Store.{Store}
use vks.Examples.Administration.{around, tables}

abbrev eve : UserRow
eve = record {
  id = lit "u1";
  email = lit "e";
  name = lit "Eve";
  created_at = 1;
  role = lit "viewer";
  disabled = false;
  password_hash = lit "h";
}

abbrev row : TokenRow
row = record { user_id = lit "u1"; expires_at = 100; revoked = false }

abbrev db : Db
db = record { users = (lit "u1", eve) ∷ []; tokens = (lit "j1", row) ∷ []; audit = [] }

abbrev at : ℕ → RefreshAnswers
at now = record {
  now = now;
  parse_refresh = λ token. ok (lit "j1", lit "u1");
  parse_uuid = λ text. ok text;
  is_valid = none;
  get_by_id = none;
  revoke = none;
  issued = record {
    access_token = ok (lit "access", 20);
    refresh_token = ok (lit "next", lit "j2", 200);
    store = none;
  };
}

abbrev door : LoginAnswers
door = record {
  normal = λ text. text;
  get_by_email = none;
  hash_of = λ text. text;
  update_password = none;
  compare = λ hash password. true;
  audit = none;
  issued = (at 5).issued;
}

-- Eve takes her token once, and then another token that does not exist is revoked and taken.
abbrev first : Db
first = (refresh (at 5) (lit "t") db).1

abbrev busy : Db
busy = (refresh (at 6) (lit "t") (logout none (lit "j9") first)).1

busy_reached : Reach ℕ (lit "u1") first busy
busy_reached =
    later (later here (logs_out none (lit "j9") first))
      (refreshes (at 6) (lit "t") (logout none (lit "j9") first))

once_example : refresh (at 7) (lit "t") busy ≡ deny (lit "revoked or expired") busy
unfolding lookup is_valid user_by_id GoString-discrete ℕ_discrete
once_example =
    refresh-once ℕ (at 5) (at 7) (lit "t") (lit "j1") (lit "u1") (lit "j1") (lit "u1") eve row db
      busy refl refl refl refl refl refl refl refl busy_reached refl refl refl refl

abbrev house : Store ℕ
house = record tables { db = db }

disabled_example :
    let after = (set_disabled (around (lit "x") 7) (lit "u9") (lit "u1") true house).1.db in
    (login door (lit "b") (lit "e") (lit "p") after ≡ deny (lit "invalid credentials") after)
    × ((refresh (at 5) (lit "t") after).0 ≡ (refresh (at 5) (lit "t") house.db).0)
unfolding lookup user_by_email GoString-discrete ℕ_discrete
disabled_example =
    set_disabled-refresh (around (lit "x") 7) door (at 5) (lit "u9") (lit "b") (lit "e") (lit "p")
      (lit "t") eve house refl refl (refl, tt) refl refl
