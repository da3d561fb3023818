-- ===== src/Control/Errors.antt =====
-- services/control-plane/internal/pkg/errors/errors.go: the codes of errors and their HTTP status. The
-- cause of an error is left out, which is only logged.
use vks.Common.{ℕ}
use vks.Common.GoString.{GoString}

pub data Code : Type 0 where
  invalid_argument : Code
  unauthorized : Code
  forbidden : Code
  not_found : Code
  conflict : Code
  internal : Code
  unavailable : Code

pub record AppError : Type 0 where
  pub code : Code
  pub message : GoString

unfoldable pub http_status : Code → ℕ
http_status invalid_argument = 400
http_status unauthorized = 401
http_status forbidden = 403
http_status not_found = 404
http_status conflict = 409
http_status internal = 500
http_status unavailable = 503
