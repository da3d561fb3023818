-- ===== src/Control/Users/Deleted.antt =====
-- What is left to a user who has been deleted (services/control-plane/internal/usecase: users.go, auth.go).
use vks.Common.{Bool, true, false, Result, ok, err}
use vks.Common.GoString.{GoString, string_eq}
use vks.Control.Errors.{AppError}
use vks.Control.Store.{Store}

abbrev pub is_ok {ℓ} : {A : Type ℓ} → Result AppError A → Bool
is_ok (ok a) = true
is_ok (err x) = false
