-- ===== src/Control/Http/UserHandlers.antt =====
-- services/control-plane/internal/adapters/httpapi: handlers_users.go, but for List, and Me of
-- handlers_auth.go
use vks.Common.{Bool, Option, none, some, Result, ok, err}
use vks.Common.GoString.{GoString, string_eq}
use vks.Common.Int.{ℤ_eq}
use vks.Control.Errors.{AppError}
use vks.Control.Store.{Store, Env}
use vks.Control.Rooms.{Done}
use vks.Control.Users.{
  CreateUserInput, create_user, set_role, set_password, set_disabled, delete_user, me,
}
use vks.Control.Http.{empty, user, Response, refuse, reply, replied, with_id, with_json}

pub record PatchUserReq : Type 0 where
  pub role : Option GoString
  pub password : Option GoString
  pub disabled : Option Bool

module _ {F : Type 0} where
  unfoldable pub user_create :
      Env F → GoString → Option CreateUserInput → Store F → Response F × Store F
  unfolding with_json replied create_user
  user_create e actor in_ =
      with_json in_ (λ input s. replied 201 user (create_user e actor input s))

  -- A part of Patch: what is not in the request is left, and an error ends it.
  unfoldable pub patch_part {ℓ} :
      {A : Type ℓ}
      → Option A
      → (A → Store F → Result AppError Done × Store F)
      → Result AppError Done × Store F
      → Result AppError Done × Store F
  patch_part o f (err x, s) = (err x, s)
  patch_part none f (ok _, s) = (ok tt, s)
  patch_part (some a) f (ok _, s) = f a s

  unfoldable pub patched : Env F → GoString → Result AppError Done × Store F → Response F × Store F
  unfolding me reply
  patched e id (err x, s) = (refuse x, s)
  patched e id (ok _, s) = (reply 200 user (me e id s), s)

  unfoldable pub user_patch :
      Env F → GoString → GoString → Option PatchUserReq → Store F → Response F × Store F
  unfolding with_id with_json patch_part patched set_role set_password set_disabled
  user_patch e actor text in_ = with_id e text (λ id. with_json in_ (λ req s. patched e id (
      patch_part req.disabled (set_disabled e actor id) (
        patch_part req.password (set_password e actor id)
          (patch_part req.role (set_role e actor id) (ok tt, s))))))

  unfoldable pub user_delete : Env F → GoString → GoString → Store F → Response F × Store F
  unfolding with_id replied delete_user
  user_delete e actor text =
      with_id e text (λ id s. replied 204 (λ _. empty) (delete_user e actor id s))

  unfoldable pub get_me : Env F → GoString → Store F → Response F × Store F
  unfolding reply me
  get_me e actor s = (reply 200 user (me e actor s), s)
